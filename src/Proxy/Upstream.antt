-- ===== src/Proxy/Upstream.antt =====
-- What the provider gets to see of the client's header, and how the key picks the provider.
use Prim.Native.String.{◌++◌ as str_append, slice, len}
use text.Mathlib.Text.{starts_with}
use text.Mathlib.TextPositions.{starts_with-append, len-append, slice-append_right}
use ajah.Prelude.{
  ◌≡◌, refl, sym, ap, ◌∙◌, ◌≢◌, false, String, str_eq, eq_iff, [], ◌∷◌, ◌++◌, if◌then◌else◌,
  Bool-cases, inl, inr, arith,
}
use mathlib.Core.List.{append-nil}
use ajah.Http.{Header, header_get, header_values, header_del, header_set}
use ajah.Proxy.Providers.{api_key_of, detect_key, detect_provider, upstream_headers}

header_values-del_self : (name : String) (h : Header) → header_values name (header_del name h) ≡ []
unfolding header_values header_del
header_values-del_self name [] = refl
header_values-del_self name ((k, v) ∷ h) = ground (arith, header_values-del_self name h)

header_values-del_other :
    (name other : String) (h : Header)
    → str_eq other name ≡ false
    → header_values name (header_del other h) ≡ header_values name h
unfolding header_values header_del
header_values-del_other name other [] e = refl
header_values-del_other name other ((k, v) ∷ h) e = ground (
  arith,
  header_values-del_other name other h e,
  eq_iff k name,
  eq_iff k other,
  eq_iff other name,
)

header_values-append :
    (name : String) (g h : Header)
    → header_values name (g ++ h) ≡ header_values name g ++ header_values name h
unfolding header_values
header_values-append name [] h = refl
header_values-append name ((k, v) ∷ g) h = ground (arith, header_values-append name g h)

header_values-one :
    (name other value : String)
    → header_values name ((other, value) ∷ []) ≡ (if str_eq other name then value ∷ [] else [])
unfolding header_values
header_values-one name other value = ground arith

header_values-del_source :
    (name : String) (h : Header)
    → header_values name (header_del "X-Source-Context" h)
      ≡ (if str_eq "X-Source-Context" name then [] else header_values name h)
header_values-del_source name h = elim (Bool-cases (str_eq "X-Source-Context" name)) [
  | inl same ↦ ground (
    arith,
    eq_iff "X-Source-Context" name,
    ap (λ n. header_values n (header_del "X-Source-Context" h))
        ((eq_iff "X-Source-Context" name).0 same),
    header_values-del_self "X-Source-Context" h,
  )
  | inr differs ↦ ground (arith, header_values-del_other name "X-Source-Context" h differs)
]

-- Whatever the client sends, the provider gets one Authorization, "Bearer " and the client's key.
pub upstream_headers-authorization :
    (h : Header)
    → header_values "Authorization" (upstream_headers h)
      ≡ str_append "Bearer " (api_key_of (header_get "Authorization" h)) ∷ []
unfolding upstream_headers header_set
upstream_headers-authorization h =
    let kept : Header = header_del "X-Source-Context" h in
    let value : String = str_append "Bearer " (api_key_of (header_get "Authorization" h)) in
    header_values-append "Authorization" (header_del "Authorization" kept)
      (("Authorization", value) ∷ [])
    ∙ ground (
      arith,
      header_values-del_self "Authorization" kept,
      header_values-one "Authorization" "Authorization" value,
    )

-- Whatever the client sends, the provider gets no X-Source-Context, and every header but this one and
-- Authorization as the client sent it, the X-User-ID and the other headers of the gateway's included.
pub upstream_headers-values :
    (name : String) (h : Header)
    → name ≢ "Authorization"
    → header_values name (upstream_headers h)
      ≡ (if str_eq "X-Source-Context" name then [] else header_values name h)
unfolding upstream_headers header_set
upstream_headers-values name h not_auth =
    let kept : Header = header_del "X-Source-Context" h in
    let value : String = str_append "Bearer " (api_key_of (header_get "Authorization" h)) in
    let other : str_eq "Authorization" name ≡ false =
      ground (arith, eq_iff "Authorization" name, (λ (e : "Authorization" ≡ name). sym e)) in
    header_values-append name (header_del "Authorization" kept) (("Authorization", value) ∷ [])
    ∙ ap (λ vs. vs ++ header_values name (("Authorization", value) ∷ []))
        (header_values-del_other name "Authorization" kept other)
    ∙ ground (
      arith,
      header_values-one name "Authorization" value,
      append-nil (header_values name kept),
      header_values-del_source name h,
    )

pub api_key_of-bearer : (key : String) → api_key_of (str_append "Bearer " key) ≡ key
unfolding api_key_of
api_key_of-bearer key =
    ap
      (λ b.
        if b
        then slice (str_append "Bearer " key) 7 (len (str_append "Bearer " key))
        else str_append "Bearer " key)
      (starts_with-append "Bearer " key)
    ∙ ap (slice (str_append "Bearer " key) 7) (len-append "Bearer " key)
    ∙ slice-append_right "Bearer " key

api_key_of-bare : (key : String) → starts_with key "Bearer " ≡ false → api_key_of key ≡ key
unfolding api_key_of
api_key_of-bare key bare = ground arith

-- A key after "Bearer " picks the same provider as the bare key, unless that begins with "Bearer " too.
pub detect_provider-bearer :
    (key : String)
    → starts_with key "Bearer " ≡ false
    → detect_provider (str_append "Bearer " key) ≡ detect_provider key
unfolding detect_provider
detect_provider-bearer key bare =
    ap detect_key (api_key_of-bearer key ∙ sym (api_key_of-bare key bare))
