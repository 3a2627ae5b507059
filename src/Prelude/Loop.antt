-- ===== src/Prelude/Loop.antt =====
-- Chains of steps that may fault, counted loops over them, and their invariant rule.
use Prim.Native.Nat.{ℕ, zero, suc, ◌+◌, ◌≤◌, ◌<◌}
use mathlib.Core.Path.{◌≡◌, ap, subst}
use mathlib.Core.Option.{Option, none, some}
use native.Mathlib.Omega.{arith}

infixl 5 ◌>>=◌
abbrev pub ◌>>=◌ {ℓ κ} : {A : Type ℓ} {B : Type κ} → Option A → (A → Option B) → Option B
none >>= f = none
some a >>= f = f a

-- `for j := from; j < from+rounds; j++`, whose body may fault.
unfoldable pub for_range {ℓ} : {S : Type ℓ} (rounds from : ℕ) → (ℕ → S → Option S) → S → Option S
for_range zero j body s = some s
for_range (suc n) j body s = body j s >>= for_range n (suc j) body

-- Total correctness: there is a result, and it satisfies `P`.
pub data Ends {ℓ κ} {A : Type ℓ} (P : A → Type κ) : Option A → Type (ℓ ⊔ κ) where
  ends : {a : A} → P a → Ends P (some a)

module _ {ℓ κ} {A : Type ℓ} {P : A → Type κ} where
  pub Ends-bind {ℓ' κ'} :
      {B : Type ℓ'} {Q : B → Type κ'} {m : Option A} {f : A → Option B}
      → Ends P m
      → ((a : A) → P a → Ends Q (f a))
      → Ends Q (m >>= f)
  Ends-bind (ends p) step = step _ p

pub eq_of_Ends {ℓ} : {A : Type ℓ} {x : A} {m : Option A} → Ends (λ a. a ≡ x) m → m ≡ some x
eq_of_Ends (ends e) = ap some e

pub for_range-Ends {ℓ κ} :
    {S : Type ℓ} (P : ℕ → S → Type κ) (last : ℕ) (body : ℕ → S → Option S) (rounds from : ℕ) (s : S)
    → from + rounds ≡ last
    → ((j : ℕ) (t : S) → from ≤ j → j < last → P j t → Ends (P (suc j)) (body j t))
    → P from s
    → Ends (P last) (for_range rounds from body s)
unfolding for_range
for_range-Ends P last body zero j s e keep p = ends (subst (λ k. P k s) (omega arith) p)
for_range-Ends P last body (suc n) j s e keep p =
    Ends-bind (keep j s (omega arith) (omega arith) p) λ t q.
      for_range-Ends P last body n (suc j) t (omega arith) (λ k u lo. keep k u (omega arith)) q
