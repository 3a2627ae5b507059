-- ===== src/Events/Conservation.antt =====
-- No event is lost or made up between the channel and the workers, and the channel keeps its bound.
use mathlib.Core.Option.{some-injective}
use ajah.Prelude.{
  ap, ◌∙◌, ℕ, zero, suc, ◌+◌, ◌≤◌, ◌≡◌, refl, Bool, true, false, List, [], ◌∷◌, ◌++◌, some, length,
  length-append, get_elem?, set, replicate, arith,
}
use ajah.Events.{
  Worker, waiting, processing, draining, flushing, returned, Emitter, start, emit, Step, emits,
  cancels, receives, finishes, stops, drains, flushes, returns, Steps, here, next,
}

abbrev one_if : Bool → ℕ
one_if true = 1
one_if false = 0

module _ {E : Type 0} (p : E → Bool) where
  -- How many events pass the test.
  unfoldable pub count : List E → ℕ
  count [] = 0
  count (e ∷ es) = one_if (p e) + count es

  -- How many events that pass the test a worker holds, and all workers.
  abbrev pub held_by : Worker E → ℕ
  held_by waiting = 0
  held_by (processing e) = one_if (p e)
  held_by draining = 0
  held_by (flushing e) = one_if (p e)
  held_by returned = 0

  unfoldable pub held : List (Worker E) → ℕ
  held [] = 0
  held (w ∷ ws) = held_by w + held ws

  count-append : (xs ys : List E) → count (xs ++ ys) ≡ count xs + count ys
  unfolding count
  count-append [] ys = omega arith
  count-append (x ∷ xs) ys = omega (arith, count-append xs ys)

  held-set :
      (ws : List (Worker E)) (i : ℕ) (v w : Worker E)
      → get_elem? ws i ≡ some v
      → held (set ws i w) + held_by v ≡ held ws + held_by w
  unfolding held
  held-set [] i v w h = absurd (cc h)
  held-set (x ∷ ws) zero v w h = omega (arith, ap held_by (some-injective x v h))
  held-set (x ∷ ws) (suc i) v w h = omega (arith, held-set ws i v w h)

  held-replicate : (n : ℕ) → held (replicate n waiting) ≡ 0
  unfolding held
  held-replicate zero = refl
  held-replicate (suc n) = omega (arith, held-replicate n)

  abbrev pub IsConserved : Emitter E → Type 0
  IsConserved s =
      count s.emitted ≡ count s.processed + held s.workers + count s.channel + count s.dropped

  pub Step-IsConserved : {s t : Emitter E} → Step s t → IsConserved s → IsConserved t
  unfolding emit count
  Step-IsConserved {s} (emits e) h = ground (arith, count-append s.channel (e ∷ []))
  Step-IsConserved cancels h = h
  Step-IsConserved {s} (receives i e rest w c) h =
      omega (arith, held-set s.workers i waiting (processing e) w, ap count c)
  Step-IsConserved {s} (finishes i e w) h =
      omega (arith, held-set s.workers i (processing e) waiting w)
  Step-IsConserved {s} (stops i w c) h = omega (arith, held-set s.workers i waiting draining w)
  Step-IsConserved {s} (drains i e rest w c) h =
      omega (arith, held-set s.workers i draining (flushing e) w, ap count c)
  Step-IsConserved {s} (flushes i e w) h =
      omega (arith, held-set s.workers i (flushing e) draining w)
  Step-IsConserved {s} (returns i w c) h = omega (arith, held-set s.workers i draining returned w)

  start-IsConserved : (capacity workers : ℕ) → IsConserved (start capacity workers)
  unfolding start count
  start-IsConserved capacity workers = omega (arith, held-replicate workers)

  Steps-IsConserved : {s t : Emitter E} → IsConserved s → Steps s t → IsConserved t
  Steps-IsConserved h here = h
  Steps-IsConserved h (next r st) = Step-IsConserved st (Steps-IsConserved h r)

  -- In every run from the start, and for every test of events: as many events that pass were given to
  -- Emit as were processed, are held by workers, wait in the channel or were dropped.
  pub reachable-IsConserved :
      (capacity workers : ℕ) (s : Emitter E) → Steps (start capacity workers) s → IsConserved s
  reachable-IsConserved capacity workers s r =
      Steps-IsConserved (start-IsConserved capacity workers) r

-- The channel keeps its bound, and Emit drops only what the channel has no room for.
module _ {E : Type 0} where
  abbrev IsBounded : Emitter E → Type 0
  IsBounded s = length s.channel ≤ s.capacity

  Step-IsBounded : {s t : Emitter E} → Step s t → IsBounded s → IsBounded t
  unfolding emit
  Step-IsBounded {s} (emits e) h = ground (arith, length-append s.channel (e ∷ []))
  Step-IsBounded cancels h = h
  Step-IsBounded (receives i e rest w c) h = omega (arith, ap length c)
  Step-IsBounded (finishes i e w) h = h
  Step-IsBounded (stops i w c) h = h
  Step-IsBounded (drains i e rest w c) h = omega (arith, ap length c)
  Step-IsBounded (flushes i e w) h = h
  Step-IsBounded (returns i w c) h = h

  Step-capacity : {s t : Emitter E} → Step s t → t.capacity ≡ s.capacity
  unfolding emit
  Step-capacity (emits e) = ground arith
  Step-capacity cancels = refl
  Step-capacity (receives i e rest w c) = refl
  Step-capacity (finishes i e w) = refl
  Step-capacity (stops i w c) = refl
  Step-capacity (drains i e rest w c) = refl
  Step-capacity (flushes i e w) = refl
  Step-capacity (returns i w c) = refl

  reach :
      (capacity workers : ℕ) {s : Emitter E}
      → Steps (start capacity workers) s
      → IsBounded s × (s.capacity ≡ capacity)
  unfolding start
  reach capacity workers here = (omega arith, refl)
  reach capacity workers (next r st) =
      let (h, e) = reach capacity workers r in (Step-IsBounded st h, Step-capacity st ∙ e)

  -- In every run from the start the channel holds at most its capacity.
  pub length-channel-le :
      (capacity workers : ℕ) (s : Emitter E)
      → Steps (start capacity workers) s
      → length s.channel ≤ capacity
  length-channel-le capacity workers s r =
      let (h, e) = reach capacity workers r in omega (arith, h, e)
