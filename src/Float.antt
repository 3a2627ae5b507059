-- ===== src/Float.antt =====
-- Go's float64 and its strconv and fmt support, which the gateway only calls: an interface, and
-- the facts of IEEE 754 comparison that its results rest on. A comparison with a NaN is false.
pub mod Scaled
use ajah.Prelude.{ℕ, zero, suc, ◌*◌, ◌≤◌, ◌<◌, ◌≡◌, ◌⊎◌, Bool, true, false, String}

pub record Float64 : Type 1 where
  pub F : Type 0
  -- The literal m / 10^k, and the conversion of an integer.
  pub lit : ℕ → ℕ → F
  pub of_int : ℕ → F
  pub add : F → F → F
  pub sub : F → F → F
  pub mul : F → F → F
  pub div : F → F → F
  pub abs : F → F
  pub ltb : F → F → Bool
  pub leb : F → F → Bool
  -- The built-in functions min and max.
  pub fmin : F → F → F
  pub fmax : F → F → F
  -- fmt.Sprintf("%.Nf", x)
  pub fixed : ℕ → F → String

-- True of every pair of floats, NaN included.
pub record IsOrdered (f : Float64) : Type 0 where
  pub le_trans : (a b c : f.F) → f.leb a b ≡ true → f.leb b c ≡ true → f.leb a c ≡ true
  pub lt_of_lt_of_le : (a b c : f.F) → f.ltb a b ≡ true → f.leb b c ≡ true → f.ltb a c ≡ true
  pub lt_of_le_of_lt : (a b c : f.F) → f.leb a b ≡ true → f.ltb b c ≡ true → f.ltb a c ≡ true
  -- What compares is no NaN.
  pub le_refl_left : (a b : f.F) → f.leb a b ≡ true → f.leb a a ≡ true
  pub le_refl_right : (a b : f.F) → f.leb a b ≡ true → f.leb b b ≡ true
  pub le_of_lt : (a b : f.F) → f.ltb a b ≡ true → f.leb a b ≡ true
  pub not_le_of_lt : (a b : f.F) → f.ltb a b ≡ true → f.leb b a ≡ false
  -- Two literals with as many decimals compare as their digits do.
  pub lit_le : (m n k : ℕ) → m ≤ n → f.leb (f.lit m k) (f.lit n k) ≡ true
  -- Of two numbers that compare at all, min and max are one, and bound both.
  pub min_le_left : (a b : f.F) → f.leb a a ≡ true → f.leb b b ≡ true → f.leb (f.fmin a b) a ≡ true
  pub min_choice :
      (a b : f.F) → f.leb a a ≡ true → f.leb b b ≡ true → (f.fmin a b ≡ a) ⊎ (f.fmin a b ≡ b)
  pub max_choice :
      (a b : f.F) → f.leb a a ≡ true → f.leb b b ≡ true → (f.fmax a b ≡ a) ⊎ (f.fmax a b ≡ b)
  pub le_max_left : (a b : f.F) → f.leb a a ≡ true → f.leb b b ≡ true → f.leb a (f.fmax a b) ≡ true
  pub le_max_right : (a b : f.F) → f.leb a a ≡ true → f.leb b b ≡ true → f.leb b (f.fmax a b) ≡ true
  -- Sums of numbers that are not negative.
  pub add_nonneg :
      (a b : f.F)
      → f.leb (f.lit 0 0) a ≡ true
      → f.leb (f.lit 0 0) b ≡ true
      → f.leb (f.lit 0 0) (f.add a b) ≡ true
  pub le_add_right :
      (a b : f.F) → f.leb (f.lit 0 0) a ≡ true → f.leb b b ≡ true → f.leb b (f.add a b) ≡ true
  pub le_add_left :
      (a b : f.F) → f.leb a a ≡ true → f.leb (f.lit 0 0) b ≡ true → f.leb a (f.add a b) ≡ true
  -- A literal may be written with one more decimal.
  pub lit_pad : (m k : ℕ) → f.lit m k ≡ f.lit (10 * m) (suc k)
  -- Decimals of a few digits are told apart.
  pub lit_lt : (m n k : ℕ) → m < n → n ≤ 1000000 → k ≤ 3 → f.ltb (f.lit m k) (f.lit n k) ≡ true
  -- A quotient of two whole numbers of which the second is not smaller, and the rest of it to 1.
  pub div_unit :
      (m n : ℕ)
      → m ≤ n
      → 0 < n
      → (f.leb (f.lit 0 0) (f.div (f.of_int m) (f.of_int n)) ≡ true)
        × (f.leb (f.div (f.of_int m) (f.of_int n)) (f.lit 10 1) ≡ true)
  pub sub_unit :
      (a : f.F)
      → f.leb (f.lit 0 0) a ≡ true
      → f.leb a (f.lit 10 1) ≡ true
      → (f.leb (f.lit 0 0) (f.sub (f.lit 10 1) a) ≡ true)
        × (f.leb (f.sub (f.lit 10 1) a) (f.lit 10 1) ≡ true)
