-- ===== src/Events.antt =====
-- internal/events/emitter.go. The goroutines and the channel are a transition system: a step is one
-- receive, one call of the process function, one send, or one branch of a select. The channel is
-- buffered (`capacity` is positive, as `AsyncWorkerCount * 10` is). What an event holds is left open.
pub mod Conservation
pub mod Shutdown
mod Examples
use ajah.Prelude.{
  ℕ, ◌<◌, ◌≡◌, Bool, true, false, List, [], ◌∷◌, ◌++◌, Option, none, some, ltb, if◌then◌else◌,
  length, get_elem?, set, replicate,
}

-- Where a worker stands in runWorker: at the outer select, in its call of process, at the inner
-- select after the context was cancelled, in the call made there, or returned.
pub data Worker (E : Type 0) : Type 0 where
  waiting : Worker E
  processing : E → Worker E
  draining : Worker E
  flushing : E → Worker E
  returned : Worker E

-- The channel's contents oldest first, and what the run has done so far: the events given to Emit,
-- those that it dropped, and those whose call of process has returned.
pub record Emitter (E : Type 0) : Type 0 where
  pub capacity : ℕ
  pub channel : List E
  pub workers : List (Worker E)
  pub cancelled : Bool
  pub emitted : List E
  pub dropped : List E
  pub processed : List E

module _ {E : Type 0} where
  -- New, and Start with a context that is not cancelled.
  unfoldable pub start : ℕ → ℕ → Emitter E
  start buffer_size workers = record {
    capacity = buffer_size;
    channel = [];
    workers = replicate workers waiting;
    cancelled = false;
    emitted = [];
    dropped = [];
    processed = [];
  }

  -- Emit: a send if the channel has room, else a drop.
  unfoldable pub emit : E → Emitter E → Emitter E
  emit event s =
      if ltb (length s.channel) s.capacity
      then record s { channel = s.channel ++ event ∷ []; emitted = event ∷ s.emitted }
      else record s { dropped = event ∷ s.dropped; emitted = event ∷ s.emitted }

  abbrev pub at : Emitter E → ℕ → Worker E → Emitter E
  at s i w = record s { workers = set s.workers i w }

  -- What can happen next. A select chooses freely among its branches that are ready.
  pub data Step (s : Emitter E) : Emitter E → Type 0 where
    emits : (event : E) → Step s (emit event s)
    cancels : Step s (record s { cancelled = true })
    receives :
        (i : ℕ) (event : E) (rest : List E)
        → get_elem? s.workers i ≡ some waiting
        → s.channel ≡ event ∷ rest
        → Step s (at (record s { channel = rest }) i (processing event))
    finishes :
        (i : ℕ) (event : E)
        → get_elem? s.workers i ≡ some (processing event)
        → Step s (at (record s { processed = event ∷ s.processed }) i waiting)
    stops :
        (i : ℕ)
        → get_elem? s.workers i ≡ some waiting
        → s.cancelled ≡ true
        → Step s (at s i draining)
    drains :
        (i : ℕ) (event : E) (rest : List E)
        → get_elem? s.workers i ≡ some draining
        → s.channel ≡ event ∷ rest
        → Step s (at (record s { channel = rest }) i (flushing event))
    flushes :
        (i : ℕ) (event : E)
        → get_elem? s.workers i ≡ some (flushing event)
        → Step s (at (record s { processed = event ∷ s.processed }) i draining)
    returns :
        (i : ℕ) → get_elem? s.workers i ≡ some draining → s.channel ≡ [] → Step s (at s i returned)

  pub data Steps (s : Emitter E) : Emitter E → Type 0 where
    here : Steps s s
    next : {t u : Emitter E} → Steps s t → Step t u → Steps s u
