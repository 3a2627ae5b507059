-- ===== src/Crossmodel/Edits.antt =====
-- What the distance means: the fewest single-rune edits that turn one text into the other.
use mathlib.Core.Option.{some-injective}
use ajah.Prelude.{
  sym, ◌∙◌, ℕ, zero, suc, ◌+◌, ◌≤◌, max, ◌≡◌, refl, List, some, length, get_or, inl, inr, ◌⊎◌,
  arith,
}
use ajah.Crossmodel.Distance.{min_of_3, levenshtein_dist}
use ajah.Crossmodel.Table.{table, levenshtein_dist-table}

module _ (a b : List ℕ) where
  -- `n` edits turn the first `i` runes of a into the first `j` runes of b.
  pub data Edits : ℕ → ℕ → ℕ → Type 0 where
    done : Edits 0 0 0
    keep : {i j n : ℕ} → get_or a i 0 ≡ get_or b j 0 → Edits i j n → Edits (suc i) (suc j) n
    replace : {i j n : ℕ} → Edits i j n → Edits (suc i) (suc j) (suc n)
    remove : {i j n : ℕ} → Edits i j n → Edits (suc i) j (suc n)
    insert : {i j n : ℕ} → Edits i j n → Edits i (suc j) (suc n)

  -- Neighbouring cells of the table differ by at most 1.
  record IsNear (i j : ℕ) : Type 0 where
    left : table a b i j ≤ table a b i (suc j) + 1
    right : table a b i (suc j) ≤ table a b i j + 1
    up : table a b i j ≤ table a b (suc i) j + 1
    down : table a b (suc i) j ≤ table a b i j + 1

  IsNear-corner : IsNear zero zero
  unfolding table min_of_3
  IsNear-corner = record {
    left = ground arith;
    right = ground arith;
    up = ground arith;
    down = ground arith;
  }

  IsNear-top : (j : ℕ) → IsNear zero j → IsNear zero (suc j)
  unfolding table min_of_3
  IsNear-top j h = record {
    left = ground arith;
    right = ground arith;
    up = ground arith;
    down = ground arith;
  }

  IsNear-side : (i : ℕ) → IsNear i zero → IsNear (suc i) zero
  unfolding table min_of_3
  IsNear-side i h = record {
    left = ground arith;
    right = ground arith;
    up = ground arith;
    down = ground arith;
  }

  -- The one recursive equation of the table that the four facts of a cell rest on.
  inner :
      (i j : ℕ)
      → let d = table a b (suc i) (suc j) in
        let x = table a b i j in
        let y = table a b i (suc j) in
        let z = table a b (suc i) j in
        ((get_or a i 0 ≡ get_or b j 0) × (d ≡ x))
        ⊎ ((d ≤ x + 1) × (d ≤ y + 1) × (d ≤ z + 1) × ((d ≡ suc x) ⊎ (d ≡ suc y) ⊎ (d ≡ suc z)))
  unfolding table min_of_3
  inner i j = ground arith

  IsNear-step :
      (i j : ℕ) → IsNear i j → IsNear i (suc j) → IsNear (suc i) j → IsNear (suc i) (suc j)
  IsNear-step i j h g k = record {
    left = omega (arith, inner i (suc j), inner i j);
    right = omega (arith, inner i (suc j), inner i j);
    up = omega (arith, inner (suc i) j, inner i j);
    down = omega (arith, inner (suc i) j, inner i j);
  }

  near : (i j : ℕ) → IsNear i j
  near zero zero = IsNear-corner
  near zero (suc j) = IsNear-top j (near zero j)
  near (suc i) zero = IsNear-side i (near i zero)
  near (suc i) (suc j) = IsNear-step i j (near i j) (near i (suc j)) (near (suc i) j)

  same : (i j : ℕ) → get_or a i 0 ≡ get_or b j 0 → table a b (suc i) (suc j) ≡ table a b i j
  unfolding table
  same i j e = ground (arith, e)

  table-side : (i : ℕ) → table a b (suc i) zero ≡ suc (table a b i zero)
  unfolding table
  table-side zero = refl
  table-side (suc i) = refl

  table-top : (j : ℕ) → table a b zero j ≡ j
  unfolding table
  table-top j = refl

  -- The table's cost is reached.
  table-Edits : (i j : ℕ) → Edits i j (table a b i j)
  table-Edits zero zero = rw (table-top zero) done
  table-Edits zero (suc j) =
      rw (table-top (suc j)) (insert (rw (table-top j) at (table-Edits zero j)))
  table-Edits (suc i) zero = rw (table-side i) (remove (table-Edits i zero))
  table-Edits (suc i) (suc j) =
      reached (inner i j) (table-Edits i j) (table-Edits i (suc j)) (table-Edits (suc i) j)
    where
      reached :
          ((get_or a i 0 ≡ get_or b j 0) × (table a b (suc i) (suc j) ≡ table a b i j))
            ⊎ ((table a b (suc i) (suc j) ≤ table a b i j + 1)
                × (table a b (suc i) (suc j) ≤ table a b i (suc j) + 1)
                × (table a b (suc i) (suc j) ≤ table a b (suc i) j + 1)
                × ((table a b (suc i) (suc j) ≡ suc (table a b i j))
                    ⊎ (table a b (suc i) (suc j) ≡ suc (table a b i (suc j)))
                    ⊎ (table a b (suc i) (suc j) ≡ suc (table a b (suc i) j))))
          → Edits i j (table a b i j)
          → Edits i (suc j) (table a b i (suc j))
          → Edits (suc i) j (table a b (suc i) j)
          → Edits (suc i) (suc j) (table a b (suc i) (suc j))
      reached (inl (e, p)) x y z = rw p (keep e x)
      reached (inr (_, _, _, inl p)) x y z = rw p (replace x)
      reached (inr (_, _, _, inr (inl p))) x y z = rw p (remove y)
      reached (inr (_, _, _, inr (inr p))) x y z = rw p (insert z)

  -- And no edits cost less.
  table-least : {i j n : ℕ} → Edits i j n → table a b i j ≤ n
  table-least done = omega (arith, table-top zero)
  table-least (keep {i} {j} e s) = omega (arith, same i j e, table-least s)
  table-least (replace {i} {j} s) = omega (arith, inner i j, table-least s)
  table-least (remove {i} {j} s) = omega (arith, (near i j).down, table-least s)
  table-least (insert {i} {j} s) = omega (arith, (near i j).right, table-least s)

  -- For any two texts the loops stay within their arrays, and return a number of insertions,
  -- removals and replacements that turns the one into the other.
  pub levenshtein_dist-Edits :
      (d : ℕ) × (levenshtein_dist a b ≡ some d) × Edits (length a) (length b) d
  levenshtein_dist-Edits = (
    table a b (length a) (length b),
    levenshtein_dist-table a b,
    table-Edits (length a) (length b),
  )

  -- No edits that turn the one text into the other are fewer than the number that the loops return.
  pub levenshtein_dist-least :
      (d n : ℕ) → levenshtein_dist a b ≡ some d → Edits (length a) (length b) n → d ≤ n
  levenshtein_dist-least d n e s =
      omega (arith, some-injective d _ (sym e ∙ levenshtein_dist-table a b), table-least s)

  table-le-max : (i j : ℕ) → table a b i j ≤ max i j
  table-le-max zero j = omega (arith, table-top j)
  table-le-max (suc i) zero = omega (arith, table-side i, table-le-max i zero)
  table-le-max (suc i) (suc j) = omega (arith, inner i j, table-le-max i j)

  pub levenshtein_dist-le-max :
      (d : ℕ) → levenshtein_dist a b ≡ some d → d ≤ max (length a) (length b)
  levenshtein_dist-le-max d e = omega (
    arith,
    some-injective d _ (sym e ∙ levenshtein_dist-table a b),
    table-le-max (length a) (length b),
  )
