-- ===== src/Redis/Tallies.antt =====
-- A server with counters that can always be reached, for running the models.
use ajah.Prelude.{
  ℕ, suc, ◌+◌, ◌≡◌, refl, Bool, true, false, String, str_eq, none, some, if◌then◌else◌,
}
use ajah.Float.Scaled.{scaled}
use ajah.Redis.Counters.{Counters, IsCounting}

pub record Tallies : Type 0 where
  pub counts : String → ℕ
  pub amounts : String → ℕ
  pub present : String → Bool

abbrev pub empty : Tallies
empty = record { counts = λ k. 0; amounts = λ k. 0; present = λ k. false }

abbrev put {ℓ} : {A : Type ℓ} → String → A → (String → A) → String → A
put k v m j = if str_eq k j then v else m j

abbrev pub tally_server : Counters scaled Tallies
tally_server = record {
  incr = λ k db. (
    record {
      counts = put k (suc (db.counts k)) db.counts;
      amounts = db.amounts;
      present = put k true db.present;
    },
    some (suc (db.counts k)),
  );
  expire = λ k n db. (db, some tt);
  incr_by_float = λ k x db. (
    record {
      counts = db.counts;
      amounts = put k (db.amounts k + x) db.amounts;
      present = put k true db.present;
    },
    some (db.amounts k + x),
  );
  get_float = λ k db. if db.present k then some (db.amounts k) else none;
  set_nx = λ k v n db. (
    record { counts = db.counts; amounts = db.amounts; present = put k true db.present },
    some (if db.present k then false else true),
  );
  push_trim = λ k v n db. db;
}

pub tally_server-IsCounting : IsCounting scaled Tallies tally_server
tally_server-IsCounting = record {
  count = λ db k. db.counts k;
  amount = λ db k. db.amounts k;
  holds = λ db k. db.present k;
  incr_reply = λ k db. refl;
  count-incr = λ k db j. refl;
  amount-incr = λ k db j h. refl;
  holds-incr = λ k db j. refl;
  count-expire = λ k n db j. refl;
  amount-expire = λ k n db j. refl;
  holds-expire = λ k n db j. refl;
  incr_by_float_reply = λ k x db. refl;
  amount-incr_by_float = λ k x db j. refl;
  count-incr_by_float = λ k x db j h. refl;
  holds-incr_by_float = λ k x db j. refl;
  get_float_lem = λ k db. refl;
  set_nx_reply = λ k v n db. refl;
  holds-set_nx = λ k v n db j. refl;
  amount-set_nx = λ k v n db j h. refl;
  holds-push_trim = λ k v n db j h. refl;
  amount-push_trim = λ k v n db j h. refl;
}

-- The empty server has counted nothing.
pub count-empty : (k : String) → tally_server-IsCounting.count empty k ≡ 0
unfolding tally_server-IsCounting
count-empty k = refl

pub holds-empty : (k : String) → tally_server-IsCounting.holds empty k ≡ false
unfolding tally_server-IsCounting
holds-empty k = refl
