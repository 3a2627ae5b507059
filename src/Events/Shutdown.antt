-- ===== src/Events/Shutdown.antt =====
-- What a shutdown keeps: the workers drain the channel before they return, and what is emitted after
-- that is lost.

use ajah.Prelude.{
  ℕ, zero, suc, ◌+◌, ◌<◌, ◌≡◌, ◌⊎◌, inl, inr, refl, ap, ◌∙◌, Bool, true, false, ◌&&◌, ◌||◌, List,
  [], ◌∷◌, ◌++◌, some, length, get_elem?, set, arith,
}
use ajah.Events.{
  Worker, waiting, processing, draining, flushing, returned, Emitter, start, emit, Step, emits,
  cancels, receives, finishes, stops, drains, flushes, returns, Steps, here, next,
}
use ajah.Events.Conservation.{count, held, IsConserved, reachable-IsConserved, Step-IsConserved}

abbrev is_returned : {E : Type 0} → Worker E → Bool
is_returned returned = true
is_returned _ = false

module _ {E : Type 0} where
  abbrev pub all_returned : List (Worker E) → Bool
  all_returned [] = true
  all_returned (w ∷ ws) = is_returned w && all_returned ws

  abbrev pub some_returned : List (Worker E) → Bool
  some_returned [] = false
  some_returned (w ∷ ws) = is_returned w || some_returned ws

  -- Steps other than a call of Emit.
  pub data Quiet (s : Emitter E) : Emitter E → Type 0 where
    still : Quiet s s
    after : {t u : Emitter E} → Quiet s t → Step t u → u.emitted ≡ t.emitted → Quiet s u

  -- A worker that has returned found the channel empty, and it has stayed so.
  abbrev IsDrained : Emitter E → Type 0
  IsDrained s = (some_returned s.workers ≡ false) ⊎ (s.channel ≡ [])

  some_returned-set :
      (ws : List (Worker E)) (i : ℕ) (w : Worker E)
      → is_returned w ≡ false
      → some_returned ws ≡ false
      → some_returned (set ws i w) ≡ false
  some_returned-set [] i w h k = refl
  some_returned-set (x ∷ ws) zero w h k = ground arith
  some_returned-set (x ∷ ws) (suc i) w h k = ground (arith, some_returned-set ws i w h)

  some_of_all :
      (ws : List (Worker E)) → all_returned ws ≡ true → 0 < length ws → some_returned ws ≡ true
  some_of_all [] h k = absurd (omega arith)
  some_of_all (w ∷ ws) h k = ground arith

  not_at_work :
      (ws : List (Worker E)) (i : ℕ) (w : Worker E)
      → all_returned ws ≡ true
      → get_elem? ws i ≡ some w
      → is_returned w ≡ true
  not_at_work [] i w h e = cc e
  not_at_work (x ∷ ws) zero w h e = ground arith
  not_at_work (x ∷ ws) (suc i) w h e = not_at_work ws i w (ground arith) e

  count-nil : (p : E → Bool) → count p [] ≡ 0
  unfolding count
  count-nil p = refl

  held_of_all : (p : E → Bool) (ws : List (Worker E)) → all_returned ws ≡ true → held p ws ≡ 0
  unfolding held
  held_of_all p [] h = refl
  held_of_all p (returned ∷ ws) h = omega (arith, held_of_all p ws h)
  held_of_all p (waiting ∷ ws) h = absurd (cc h)
  held_of_all p (processing e ∷ ws) h = absurd (cc h)
  held_of_all p (draining ∷ ws) h = absurd (cc h)
  held_of_all p (flushing e ∷ ws) h = absurd (cc h)

  emit_shows : (e : E) (s : Emitter E) → ¬ ((emit e s).emitted ≡ s.emitted)
  unfolding emit
  emit_shows e s h = ground (arith, ap length h)

  Step-IsDrained : {s t : Emitter E} → Step s t → t.emitted ≡ s.emitted → IsDrained s → IsDrained t
  Step-IsDrained {s} (emits e) q h = absurd (emit_shows e s q)
  Step-IsDrained cancels q h = h
  Step-IsDrained (receives i e rest w c) q (inl h) = inl (some_returned-set _ i _ refl h)
  Step-IsDrained (receives i e rest w c) q (inr h) = absurd (cc (h, c))
  Step-IsDrained (finishes i e w) q (inl h) = inl (some_returned-set _ i _ refl h)
  Step-IsDrained (finishes i e w) q (inr h) = inr h
  Step-IsDrained (stops i w c) q (inl h) = inl (some_returned-set _ i _ refl h)
  Step-IsDrained (stops i w c) q (inr h) = inr h
  Step-IsDrained (drains i e rest w c) q (inl h) = inl (some_returned-set _ i _ refl h)
  Step-IsDrained (drains i e rest w c) q (inr h) = absurd (cc (h, c))
  Step-IsDrained (flushes i e w) q (inl h) = inl (some_returned-set _ i _ refl h)
  Step-IsDrained (flushes i e w) q (inr h) = inr h
  Step-IsDrained (returns i w c) q h = inr c

  Quiet-IsDrained : {s t : Emitter E} → IsDrained s → Quiet s t → IsDrained t
  Quiet-IsDrained h still = h
  Quiet-IsDrained h (after r st q) = Step-IsDrained st q (Quiet-IsDrained h r)

  Quiet-IsConserved :
      (p : E → Bool) {s t : Emitter E} → IsConserved p s → Quiet s t → IsConserved p t
  Quiet-IsConserved p h still = h
  Quiet-IsConserved p h (after r st q) = Step-IsConserved p st (Quiet-IsConserved p h r)

  -- If no worker has returned when Emit is called for the last time, and all of them (one or more)
  -- have returned at the end, then the channel is empty, and for every test of events as many that
  -- pass were given to Emit as were processed or dropped.
  pub shutdown_flushes :
      (p : E → Bool) (capacity workers : ℕ) (s t : Emitter E)
      → Steps (start capacity workers) s
      → some_returned s.workers ≡ false
      → Quiet s t
      → all_returned t.workers ≡ true
      → 0 < length t.workers
      → (t.channel ≡ []) × (count p t.emitted ≡ count p t.processed + count p t.dropped)
  shutdown_flushes p capacity workers s t r fresh quiet over some_worker =
      let c = Quiet-IsConserved p (reachable-IsConserved p capacity workers s r) quiet in
      let none_held = held_of_all p t.workers over in
      let drained : t.channel ≡ [] = empty (Quiet-IsDrained (inl fresh) quiet) in
      (drained, omega (arith, c, none_held, ap (count p) drained, count-nil p))
    where
      empty : IsDrained t → t.channel ≡ []
      empty (inl h) = absurd (cc (h, some_of_all t.workers over some_worker))
      empty (inr h) = h

  still_over :
      {s t : Emitter E}
      → Step s t
      → all_returned s.workers ≡ true
      → (t.processed ≡ s.processed) × (all_returned t.workers ≡ true)
  unfolding emit
  still_over {s} (emits e) h = ground arith
  still_over cancels h = (refl, h)
  still_over {s} (receives i e rest w c) h = absurd (cc (not_at_work s.workers i _ h w))
  still_over {s} (finishes i e w) h = absurd (cc (not_at_work s.workers i _ h w))
  still_over {s} (stops i w c) h = absurd (cc (not_at_work s.workers i _ h w))
  still_over {s} (drains i e rest w c) h = absurd (cc (not_at_work s.workers i _ h w))
  still_over {s} (flushes i e w) h = absurd (cc (not_at_work s.workers i _ h w))
  still_over {s} (returns i w c) h = absurd (cc (not_at_work s.workers i _ h w))

  all_still_over :
      {s t : Emitter E}
      → all_returned s.workers ≡ true
      → Steps s t
      → (t.processed ≡ s.processed) × (all_returned t.workers ≡ true)
  all_still_over h here = (refl, h)
  all_still_over h (next r st) =
      let (same, over) = all_still_over h r in
      let (same', over') = still_over st over in (same' ∙ same, over')

  -- Once all workers have returned, an event that finds room is put into the channel and not dropped,
  -- and nothing is ever processed again.
  pub late_emit_lost :
      (e : E) (s t : Emitter E)
      → all_returned s.workers ≡ true
      → length s.channel < s.capacity
      → Steps (emit e s) t
      → ((emit e s).channel ≡ s.channel ++ e ∷ [])
        × ((emit e s).dropped ≡ s.dropped)
        × (t.processed ≡ s.processed)
  unfolding emit
  late_emit_lost e s t over room r =
      let call : Step s (emit e s) = emits e in
      let (same, _) = all_still_over (still_over call over).1 r in
      ground (arith, same, (still_over call over).0)
