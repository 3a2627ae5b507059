-- ===== src/Attribution/Keys.antt =====
-- The Redis keys of the engine, and which of them can be the same.
use Prim.Native.String.{◌++◌ as str_append, len}
use ajah.Text.Prefixes.{joined, joined_eq, unlike}
use ajah.Prelude.{◌≡◌, refl, false, ◌&&◌, String, str_eq}

unfoldable pub daily : String → String → String → String
daily kind name day = joined kind ":daily:" name day

unfoldable pub user_cost_key : String → String → String
user_cost_key user day = daily "cost:user:" user day

unfoldable pub feature_cost_key : String → String → String
feature_cost_key feature day = daily "cost:feature:" feature day

unfoldable pub model_cost_key : String → String → String
model_cost_key model day = daily "cost:model:" model day

unfoldable pub retry_key : String → String → String → String
retry_key user feature step =
    str_append "retry:"
      (str_append user (str_append ":" (str_append feature (str_append ":" step))))

pub user-unlike_feature :
    (a b day day' : String) → str_eq (user_cost_key a day) (feature_cost_key b day') ≡ false
unfolding user_cost_key feature_cost_key daily
user-unlike_feature a b day day' =
    unlike "cost:" "u" "f" "ser:" "eature:" (str_append a (str_append ":daily:" day))
      (str_append b (str_append ":daily:" day')) refl refl

pub model-unlike_feature :
    (a b day day' : String) → str_eq (model_cost_key a day) (feature_cost_key b day') ≡ false
unfolding model_cost_key feature_cost_key daily
model-unlike_feature a b day day' =
    unlike "cost:" "m" "f" "odel:" "eature:" (str_append a (str_append ":daily:" day))
      (str_append b (str_append ":daily:" day')) refl refl

pub retry-unlike_feature :
    (u g s b day : String) → str_eq (retry_key u g s) (feature_cost_key b day) ≡ false
unfolding retry_key feature_cost_key daily
retry-unlike_feature u g s b day =
    unlike "" "r" "c" "etry:" "ost:feature:"
      (str_append u (str_append ":" (str_append g (str_append ":" s))))
      (str_append b (str_append ":daily:" day)) refl refl

pub feature_eq :
    (a b day day' : String)
    → len day ≡ len day'
    → str_eq (feature_cost_key a day) (feature_cost_key b day') ≡ (str_eq a b && str_eq day day')
unfolding feature_cost_key daily
feature_eq a b day day' = joined_eq "cost:feature:" ":daily:" a b day day'
