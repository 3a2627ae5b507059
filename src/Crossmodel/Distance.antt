-- ===== src/Crossmodel/Distance.antt =====
-- levenshteinDist and minOf3, over two arrays that the rounds swap. A read or a write out of range,
-- which Go answers with a panic, is `none`.
use ajah.Prelude.{
  ℕ, ◌+◌, ◌-◌, ◌<◌, ◌≡◌, ◌&&◌, List, Option, none, some, ltb, leb, ◌==◌, if◌then◌else◌, length,
  get_elem?, set, replicate, ◌>>=◌, for_range, arith,
}

unfoldable pub min_of_3 : ℕ → ℕ → ℕ → ℕ
min_of_3 a b c = if leb a b && leb a c then a else if leb b c then b else c

-- row[i] = v
unfoldable pub store : List ℕ → ℕ → ℕ → Option (List ℕ)
store row i v = if ltb i (length row) then some (set row i v) else none

pub store_of_lt : (row : List ℕ) (i v : ℕ) → i < length row → store row i v ≡ some (set row i v)
unfolding store
store_of_lt row i v h = ground arith

module _ (a b : List ℕ) where
  -- The body of the inner loop, at indices that start from 1.
  unfoldable pub fill_cell : ℕ → List ℕ → ℕ → List ℕ → Option (List ℕ)
  fill_cell i prev j curr = do
    x ← get_elem? a (i - 1)
    y ← get_elem? b (j - 1)
    diagonal ← get_elem? prev (j - 1)
    let replaced = (do
      above ← get_elem? prev j
      left ← get_elem? curr (j - 1)
      store curr j (1 + min_of_3 diagonal above left))
    if x == y then store curr j diagonal else replaced

  -- The body of the outer loop, with the swap at its end.
  unfoldable pub fill_row : ℕ → List ℕ × List ℕ → Option (List ℕ × List ℕ)
  fill_row i (prev, curr) = do
    started ← store curr 0 i
    filled ← for_range (length b) 1 (fill_cell i prev) started
    some (filled, prev)

  unfoldable pub levenshtein_dist : Option ℕ
  unfolding fill_row fill_cell store
  levenshtein_dist = do
    let zeros = replicate {A = ℕ} (length b + 1) 0
    first ← for_range (length b + 1) 0 (λ j prev. store prev j j) zeros
    (prev, _) ← for_range (length a) 1 fill_row (first, zeros)
    get_elem? prev (length b)
