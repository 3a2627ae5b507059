-- ===== src/Fallback/Keys.antt =====
-- The two Redis keys of a provider.
use Prim.Native.String.{◌++◌ as str_append, slice}
use text.Mathlib.TextLemmas.{append_cancel_left}
use text.Mathlib.TextPositions.{slice-append_left}
use mathlib.Core.Bool.{true≢false}
use ajah.Prelude.{◌≡◌, sym, ap, ◌∙◌, ◌≢◌, false, String, str_eq, eq_iff, arith}

unfoldable pub degraded_key : String → String
degraded_key provider = str_append "ajah:fallback:degraded:" provider

unfoldable pub fail_key : String → String
fail_key provider = str_append "ajah:fallback:failures:" provider

-- A text is one key of one provider at most.
pub degraded_key-injective : (p q : String) → str_eq (degraded_key p) (degraded_key q) ≡ str_eq p q
unfolding degraded_key
degraded_key-injective p q = ground (
  arith,
  eq_iff p q,
  eq_iff (degraded_key p) (degraded_key q),
  append_cancel_left "ajah:fallback:degraded:" p q,
)

pub fail_key-injective : (p q : String) → str_eq (fail_key p) (fail_key q) ≡ str_eq p q
unfolding fail_key
fail_key-injective p q = ground (
  arith,
  eq_iff p q,
  eq_iff (fail_key p) (fail_key q),
  append_cancel_left "ajah:fallback:failures:" p q,
)

prefixes-differ : ◌≢◌ {A = String} "ajah:fallback:failures:" "ajah:fallback:degraded:"
prefixes-differ h = true≢false (ap (λ s. str_eq s "ajah:fallback:failures:") h)

pub fail_key-ne-degraded_key : (p q : String) → fail_key p ≢ degraded_key q
unfolding fail_key degraded_key
fail_key-ne-degraded_key p q h = prefixes-differ (
    sym (slice-append_left "ajah:fallback:failures:" p)
    ∙ ap (λ s. slice s 0 23) h
    ∙ slice-append_left "ajah:fallback:degraded:" q)

pub fail_key-unlike_degraded_key : (p q : String) → str_eq (fail_key p) (degraded_key q) ≡ false
fail_key-unlike_degraded_key p q =
    ground (arith, eq_iff (fail_key p) (degraded_key q), fail_key-ne-degraded_key p q)

pub degraded_key-unlike_fail_key : (p q : String) → str_eq (degraded_key p) (fail_key q) ≡ false
degraded_key-unlike_fail_key p q = ground (
  arith,
  eq_iff (degraded_key p) (fail_key q),
  fail_key-ne-degraded_key q p,
  (λ (e : degraded_key p ≡ fail_key q). sym e),
)
