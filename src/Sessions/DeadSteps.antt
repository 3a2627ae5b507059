-- ===== src/Sessions/DeadSteps.antt =====
-- CheckDeadStep and stringSimilarity. The runes of a text and what encoding/json reads from a buffered
-- trace are parameters, and so is the reply of LRANGE for the whole list.
use ajah.Prelude.{
  ℕ, zero, suc, ◌+◌, ◌-◌, ◌<◌, ◌≤◌, ◌≡◌, refl, sym, ap, ◌∙◌, Bool, true, false, ◌&&◌, ◌||◌, String,
  List, [], ◌∷◌, ◌++◌, Option, none, some, ltb, ◌==◌, if◌then◌else◌, length, take, drop, any,
  get_elem?, arith, length-append, length-drop,
}
use ajah.Text.{Bytes, is_empty}
use ajah.Float.{Float64, IsOrdered}

unfoldable pub bytes_eq : Bytes → Bytes → Bool
bytes_eq [] [] = true
bytes_eq [] (b ∷ t) = false
bytes_eq (a ∷ s) [] = false
bytes_eq (a ∷ s) (b ∷ t) = a == b && bytes_eq s t

abbrev pub Trigram : Type 0
Trigram = ℕ × (ℕ × ℕ)

abbrev same : Trigram → Trigram → Bool
same (a, (b, c)) (x, (y, z)) = a == x && (b == y && c == z)

-- The keys of the map that buildTrigrams fills, each once.
unfoldable pub build_trigrams : List ℕ → List Trigram
build_trigrams [] = []
build_trigrams (a ∷ []) = []
build_trigrams (a ∷ b ∷ []) = []
build_trigrams (a ∷ b ∷ c ∷ s) =
    let rest = build_trigrams (b ∷ c ∷ s) in
    if any (same (a, (b, c))) rest then rest else (a, (b, c)) ∷ rest

unfoldable pub common : List Trigram → List Trigram → ℕ
common [] bs = 0
common (t ∷ ts) bs = let rest = common ts bs in if any (same t) bs then suc rest else rest

unfoldable pub last_of : List Bytes → Option Bytes
last_of [] = none
last_of (x ∷ []) = some x
last_of (x ∷ y ∷ xs) = last_of (y ∷ xs)

-- LRANGE key -6 -2
unfoldable pub recent : List Bytes → List Bytes
recent xs = take (length xs - 1 - (length xs - 6)) (drop (length xs - 6) xs)

-- What is read of a buffered trace.
pub record Previous : Type 0 where
  pub response_text : Bytes
  pub step_name : String

is_empty-long : (s : Bytes) → 20 ≤ length s → is_empty s ≡ false
is_empty-long [] h = absurd (omega arith)
is_empty-long (a ∷ s) h = refl

suc_add : (m k : ℕ) → suc m + k ≡ suc (m + k)
suc_add m k = omega arith

module _ (f : Float64) (runes : Bytes → List ℕ) (decode : Bytes → Option Previous) where
  pub record DeadStepResult : Type 0 where
    pub is_dead_step : Bool
    pub similarity_score : f.F
    pub prev_step_name : String

  unfoldable pub overlap : List Trigram → List Trigram → f.F
  overlap ts us =
      if length ts == 0 || length us == 0
      then f.lit 0 0
      else f.div (f.of_int (common ts us))
          (f.of_int (if ltb (length us) (length ts) then length us else length ts))

  unfoldable pub string_similarity : Bytes → Bytes → f.F
  string_similarity a b =
      if bytes_eq a b
      then f.lit 10 1
      else if ltb (length a) 3 || ltb (length b) 3
      then f.lit 0 0
      else overlap (build_trigrams (runes (take 500 a))) (build_trigrams (runes (take 500 b)))

  abbrev no_result : DeadStepResult
  no_result = record { is_dead_step = false; similarity_score = f.lit 0 0; prev_step_name = "" }

  unfoldable pub compare_step : Bytes → Previous → DeadStepResult
  compare_step current prev = if is_empty prev.response_text then no_result else record {
    is_dead_step = f.ltb (f.lit 85 2) (string_similarity current prev.response_text);
    similarity_score = string_similarity current prev.response_text;
    prev_step_name = prev.step_name;
  }

  abbrev compare_last : Bytes → Option Bytes → DeadStepResult
  compare_last current none = no_result
  compare_last current (some raw) = elim (decode raw) [
    | some prev ↦ compare_step current prev
    | none ↦ no_result
  ]

  -- The buffered traces are none if the command fails.
  unfoldable pub check_dead_step : Option (List Bytes) → Bytes → DeadStepResult
  check_dead_step traces current =
      if is_empty current || ltb (length current) 20
      then no_result
      else (elim traces [ none ↦ no_result | some xs ↦ compare_last current (last_of (recent xs)) ])

  last_of-take :
      (k : ℕ) (xs : List Bytes) → k < length xs → last_of (take (suc k) xs) ≡ get_elem? xs k
  unfolding last_of
  last_of-take k [] h = absurd (omega arith)
  last_of-take zero (x ∷ xs) h = refl
  last_of-take (suc k) (x ∷ []) h = absurd (omega arith)
  last_of-take (suc k) (x ∷ y ∷ xs) h = last_of-take k (y ∷ xs) (omega arith)

  get_elem?-drop : (m k : ℕ) (xs : List Bytes) → get_elem? (drop m xs) k ≡ get_elem? xs (m + k)
  get_elem?-drop zero k xs = ap (get_elem? xs) (omega arith)
  get_elem?-drop (suc m) k [] = refl
  get_elem?-drop (suc m) k (x ∷ xs) =
      get_elem?-drop m k xs ∙ sym (ap (get_elem? (x ∷ xs)) (suc_add m k))

  get_elem?-append :
      (xs : List Bytes) (y : Bytes) (ys : List Bytes)
      → get_elem? (xs ++ y ∷ ys) (length xs) ≡ some y
  get_elem?-append [] y ys = refl
  get_elem?-append (x ∷ xs) y ys = get_elem?-append xs y ys

  last_of-recent :
      (xs : List Bytes) (prev current : Bytes)
      → last_of (recent (xs ++ prev ∷ current ∷ [])) ≡ some prev
  unfolding recent
  last_of-recent xs prev current =
      let all : List Bytes = xs ++ prev ∷ current ∷ [] in
      let n : length all ≡ length xs + 2 = length-append xs (prev ∷ current ∷ []) in
      let m : ℕ = length all - 6 in
      let k : ℕ = length xs - m in
      let count : length all - 1 - m ≡ suc k = omega arith in
      let place : m + k ≡ length xs = omega arith in
      ap (λ j. last_of (take j (drop m all))) count
      ∙ last_of-take k (drop m all) (omega (arith, length-drop m all))
      ∙ get_elem?-drop m k all
      ∙ ap (get_elem? all) place
      ∙ get_elem?-append xs prev (current ∷ [])

  bytes_eq_refl : (s : Bytes) → bytes_eq s s ≡ true
  unfolding bytes_eq
  bytes_eq_refl [] = refl
  bytes_eq_refl (a ∷ s) = ground (arith, bytes_eq_refl s)

  string_similarity_refl : (s : Bytes) → string_similarity s s ≡ f.lit 10 1
  unfolding string_similarity
  string_similarity_refl s = ground (arith, bytes_eq_refl s)

  compare_step_refl :
      IsOrdered f
      → (current : Bytes) (prev : Previous) → prev.response_text ≡ current
      → 20 ≤ length current
      → compare_step current prev ≡ record {
        is_dead_step = true;
        similarity_score = f.lit 10 1;
        prev_step_name = prev.step_name;
      }
  unfolding compare_step
  compare_step_refl law current prev same_text long =
      let similar : string_similarity current prev.response_text ≡ f.lit 10 1 =
        ap (string_similarity current) same_text ∙ string_similarity_refl current in
      let above : f.ltb (f.lit 85 2) (f.lit 10 1) ≡ true =
        ap (f.ltb (f.lit 85 2)) (law.lit_pad 10 1)
        ∙ law.lit_lt 85 100 2 (omega arith) (omega arith) (omega arith) in
      ground (arith, similar, above, is_empty-long current long, ap is_empty same_text)

  -- A step whose response has 20 bytes or more and is, byte for byte, that of the trace before the last
  -- of the buffer (the last is the step's own) is dead, with the similarity 1 and that trace's name,
  -- whatever else is buffered.
  pub check_dead_step-repeated :
      IsOrdered f
      → (xs : List Bytes) (raw own current : Bytes) (prev : Previous) → decode raw ≡ some prev
      → prev.response_text ≡ current
      → 20 ≤ length current
      → check_dead_step (some (xs ++ raw ∷ own ∷ [])) current ≡ record {
        is_dead_step = true;
        similarity_score = f.lit 10 1;
        prev_step_name = prev.step_name;
      }
  unfolding check_dead_step
  check_dead_step-repeated law xs raw own current prev decoded same_text long = ground (
    arith,
    is_empty-long current long,
    last_of-recent xs raw own,
    compare_step_refl law current prev same_text long,
  )
