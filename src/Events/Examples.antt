-- ===== src/Events/Examples.antt =====
-- The theorems about the emitter at concrete runs.
use ajah.Prelude.{ℕ, ◌+◌, ◌≡◌, refl, Bool, true, [], ◌∷◌, ◌==◌, arith}
use ajah.Events.{
  Emitter, returned, start, emit, emits, cancels, receives, finishes, stops, returns, Steps, here,
  next,
}
use ajah.Events.Conservation.{IsConserved, reachable-IsConserved, count}
use ajah.Events.Shutdown.{Quiet, still, after, shutdown_flushes, late_emit_lost}

abbrev seven : ℕ → Bool
seven e = e == 7

abbrev one_sent : Emitter ℕ
one_sent = emit 7 (start 2 1)

abbrev sent : Steps (start 2 1) one_sent
sent = next here (emits 7)

reachable-IsConserved_example : IsConserved seven one_sent
reachable-IsConserved_example = reachable-IsConserved seven 2 1 one_sent sent

-- The worker takes the event, the context is cancelled, and the worker finishes and returns.
abbrev stopped : Emitter ℕ
stopped = record {
  capacity = 2;
  channel = [];
  workers = returned ∷ [];
  cancelled = true;
  emitted = 7 ∷ [];
  dropped = [];
  processed = 7 ∷ [];
}

shut_down : Quiet one_sent stopped
unfolding emit start
shut_down =
    after
      (after
        (after (after (after still (receives 0 7 [] refl refl) refl) cancels refl)
          (finishes 0 7 refl) refl)
        (stops 0 refl refl) refl)
      (returns 0 refl refl) refl

shutdown_flushes_example :
    (stopped.channel ≡ [])
    × (count seven stopped.emitted ≡ count seven stopped.processed + count seven stopped.dropped)
unfolding emit start
shutdown_flushes_example =
    shutdown_flushes seven 2 1 one_sent stopped sent refl shut_down refl (omega arith)

late_emit_lost_example :
    ((emit 8 stopped).channel ≡ 8 ∷ [])
    × ((emit 8 stopped).dropped ≡ [])
    × ((emit 8 stopped).processed ≡ 7 ∷ [])
unfolding emit
late_emit_lost_example = late_emit_lost 8 stopped (emit 8 stopped) refl (omega arith) here
