-- ===== src/Float/Scaled.antt =====
-- Numbers in thousandths, for running the models: an instance of the interface of floats.
use native.Mathlib.Nat.{pow-suc, mul_comm, mul_assoc, mul-div-mul_left, div-le_of_le-mul}
use ajah.Prelude.{
  ℕ, zero, suc, ◌<◌, ◌≡◌, true, ◌-◌, ◌+◌, ◌*◌, ◌/◌, ◌^◌, min, max, ltb, leb, ◌≤◌, sym, arith,
}
use ajah.Float.{Float64, IsOrdered}

abbrev pub scaled : Float64
scaled = record {
  F = ℕ;
  lit = λ m k. m * 1000 / 10 ^ k;
  of_int = λ n. n * 1000;
  add = λ a b. a + b;
  sub = λ a b. a - b;
  mul = λ a b. a * b / 1000;
  div = λ a b. a * 1000 / b;
  abs = λ a. a;
  ltb = ltb;
  leb = leb;
  fmin = min;
  fmax = max;
  fixed = λ n a. "";
}

div_mono : (a b d : ℕ) → a ≤ b → a / d ≤ b / d
div_mono a b d h = grind arith

lit-pad : (m k : ℕ) → m * 1000 / 10 ^ k ≡ 10 * m * 1000 / 10 ^ suc k
lit-pad m k =
    rw (pow-suc, mul_comm (10 ^ k) 10, mul_assoc 10 m 1000)
      (sym (mul-div-mul_left (m * 1000) (10 ^ k) (omega arith)))

lit-lt :
    (m n k : ℕ) → m < n → n ≤ 1000000 → k ≤ 3 → ltb (m * 1000 / 10 ^ k) (n * 1000 / 10 ^ k) ≡ true
lit-lt m n zero h b c = ground arith
lit-lt m n (suc zero) h b c = ground arith
lit-lt m n (suc (suc zero)) h b c = ground arith
lit-lt m n (suc (suc (suc zero))) h b c = ground arith
lit-lt m n (suc (suc (suc (suc k)))) h b c = absurd (omega arith)

div-unit :
    (m n : ℕ)
    → m ≤ n
    → 0 < n
    → (leb 0 (m * 1000 * 1000 / (n * 1000)) ≡ true)
      × (leb (m * 1000 * 1000 / (n * 1000)) 1000 ≡ true)
div-unit m n h p = (
  ground arith,
  ground (arith, div-le_of_le-mul (n * 1000) {m = m * 1000 * 1000} {n = 1000} (omega arith)),
)

pub scaled-IsOrdered : IsOrdered scaled
scaled-IsOrdered = record {
  le_trans = λ a b c p q. ground arith;
  lt_of_lt_of_le = λ a b c p q. ground arith;
  lt_of_le_of_lt = λ a b c p q. ground arith;
  le_refl_left = λ a b p. ground arith;
  le_refl_right = λ a b p. ground arith;
  le_of_lt = λ a b p. ground arith;
  not_le_of_lt = λ a b p. ground arith;
  lit_le = λ m n k h. ground (arith, div_mono (m * 1000) (n * 1000) (10 ^ k) (omega arith));
  min_le_left = λ a b p q. ground arith;
  min_choice = λ a b p q. ground arith;
  max_choice = λ a b p q. ground arith;
  le_max_left = λ a b p q. ground arith;
  le_max_right = λ a b p q. ground arith;
  add_nonneg = λ a b p q. ground arith;
  le_add_right = λ a b p q. ground arith;
  le_add_left = λ a b p q. ground arith;
  lit_pad = lit-pad;
  lit_lt = lit-lt;
  div_unit = div-unit;
  sub_unit = λ a p q. ground arith;
}
