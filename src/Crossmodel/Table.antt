-- ===== src/Crossmodel/Table.antt =====
-- The two swapped rows hold successive rows of one table, so that the loops end with its corner.
use Prim.Native.Nat.{pred}
use native.Mathlib.Numerals.{sub-one}
use ajah.Prelude.{
  ℕ, zero, suc, ◌+◌, ◌≤◌, ◌<◌, ◌≡◌, refl, ap, ◌∙◌, List, some, ◌==◌, if◌then◌else◌, length,
  get_elem?, get_or, replicate, length-set, length-replicate, get_elem?-eq-get_or, get_or-set_self,
  get_or-set_ne, for_range-Ends, Ends, ends, Ends-bind, eq_of_Ends, arith, inl, inr, Bool-cases,
}
use ajah.Crossmodel.Distance.{min_of_3, store, store_of_lt, fill_cell, fill_row, levenshtein_dist}

module _ (a b : List ℕ) where
  -- The cost between the first i runes of a and the first j runes of b.
  unfoldable pub table : ℕ → ℕ → ℕ
  table zero j = j
  table (suc i) zero = suc i
  table (suc i) (suc j) =
      if get_or a i 0 == get_or b j 0
      then table i j
      else 1 + min_of_3 (table i j) (table i (suc j)) (table (suc i) j)

  -- The first k cells of row i of the table.
  record IsRow (i k : ℕ) (row : List ℕ) : Type 0 where
    size : length row ≡ length b + 1
    cells : (j : ℕ) → j < k → get_or row j 0 ≡ table i j

  read :
      {i k : ℕ} {row : List ℕ}
      → IsRow i k row
      → (j : ℕ) → j < k
      → j < length b + 1
      → get_elem? row j ≡ some (table i j)
  read {row} r j h w = get_elem?-eq-get_or row j 0 (omega (arith, r.size)) ∙ ap some (r.cells j h)

  write :
      {i k v : ℕ} {row : List ℕ}
      → IsRow i k row
      → k < length b + 1
      → v ≡ table i k
      → Ends (IsRow i (suc k)) (store row k v)
  write {k} {v} {row} r h e = rw (store_of_lt row k v (omega (arith, r.size))) (
      ends (record {
        size = length-set row k v ∙ r.size;
        cells = λ j q.
            ground
              (arith, e, r.cells j, r.size, get_or-set_self row k v 0, get_or-set_ne row k j v 0);
      }))

  fill_cell-IsRow :
      (i j : ℕ) (prev curr : List ℕ)
      → i < length a
      → j < length b
      → IsRow i (length b + 1) prev
      → IsRow (suc i) (suc j) curr
      → Ends (IsRow (suc i) (suc (suc j))) (fill_cell a b (suc i) prev (suc j) curr)
  unfolding fill_cell table
  fill_cell-IsRow i j prev curr hi hj p c =
      simp
        (
          sub-one,
          get_elem?-eq-get_or a i 0 hi,
          get_elem?-eq-get_or b j 0 hj,
          read p j (omega arith) (omega arith),
          read p (suc j) (omega arith) (omega arith),
          read c j (omega arith) (omega arith),
        )
        (elim (Bool-cases (get_or a i 0 == get_or b j 0)) [
          | inl same ↦ rw same (write c (omega arith) (rw same refl))
          | inr other ↦ rw other (write c (omega arith) (rw other refl))
        ])

  -- Before round i + 1, `prev` is row i and `curr` is an array of the same length.
  abbrev Rows : ℕ → List ℕ × List ℕ → Type 0
  Rows i s = IsRow (pred i) (length b + 1) s.0 × (length s.1 ≡ length b + 1)

  empty-IsRow : {i : ℕ} {row : List ℕ} → length row ≡ length b + 1 → IsRow i 0 row
  empty-IsRow e = record { size = e; cells = λ j h. absurd (omega arith) }

  fill_row-Rows :
      (i : ℕ) (s : List ℕ × List ℕ)
      → 1 ≤ i
      → i < suc (length a)
      → Rows i s
      → Ends (Rows (suc i)) (fill_row a b i s)
  unfolding fill_row table
  fill_row-Rows zero s lo hi r = absurd (omega arith)
  fill_row-Rows (suc i) s lo hi r =
      let prev : IsRow i (length b + 1) s.0 = r.0 in
      Ends-bind (write {i = suc i} (empty-IsRow r.1) (omega arith) refl) λ started q.
        Ends-bind
          (for_range-Ends (IsRow (suc i)) (length b + 1) (fill_cell a b (suc i) s.0) (length b) 1
            started (omega arith) (cell prev) q)
          λ filled c. ends (c, r.0.size)
    where
      cell :
          IsRow i (length b + 1) s.0
          → (j : ℕ) (t : List ℕ) → 1 ≤ j
          → j < length b + 1
          → IsRow (suc i) j t
          → Ends (IsRow (suc i) (suc j)) (fill_cell a b (suc i) s.0 j t)
      cell prev zero t from below c = absurd (omega arith)
      cell prev (suc j) t from below c =
          fill_cell-IsRow i j s.0 t (omega arith) (omega arith) prev c

  pub levenshtein_dist-table : levenshtein_dist a b ≡ some (table (length a) (length b))
  unfolding levenshtein_dist table
  levenshtein_dist-table = eq_of_Ends (
      Ends-bind
        (for_range-Ends (IsRow 0) (length b + 1) (λ j prev. store prev j j) (length b + 1) 0 zeros
          (omega arith) (λ j t lo hi r. write r hi refl) (empty-IsRow (length-replicate _ 0)))
        λ first r.
          Ends-bind
            (for_range-Ends Rows (suc (length a)) (fill_row a b) (length a) 1 (first, zeros)
              (omega arith) fill_row-Rows (r, length-replicate _ 0))
            λ s rows. rw (read rows.0 (length b) (omega arith) (omega arith)) (ends refl))
    where
      zeros : List ℕ
      zeros = replicate (length b + 1) 0
