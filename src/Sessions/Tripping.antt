-- ===== src/Sessions/Tripping.antt =====
-- That a tripped session stays tripped.
use ajah.Prelude.{
  ℕ, ◌≡◌, sym, ap, subst, ◌∙◌, true, false, String, eq_iff, List, Option, none, some, Result, err,
  arith, Option-cases, inl, inr,
}
use ajah.Text.{Bytes}
use ajah.Float.{Float64}
use ajah.Redis.{Redis, IsReachable}
use ajah.Redis.Pipeline.{Answer, Exec}
use ajah.Sessions.{
  circuit_key, Limits, Trace, Tripped, AddError, circuit_breaker, cost_of, steps_of, commands,
  trip_for, check_limits, after_pipeline, add_trace,
}

module _ (f : Float64) (decimal : ℕ → Bytes) (fixed6 : f.F → Bytes) (r : Redis) (exec : Exec f r.Db)
    (limits_func : Option (String → Limits f)) (law : IsReachable r) where
  open r use {Db}

  -- The session's mark is there, with this reason.
  record IsMarked (id : String) (reason : Bytes) (db : Db) : Type 0 where
    held : law.holds db (circuit_key id) ≡ true
    reads : r.get (circuit_key id) db ≡ some (some reason)

  check_limits-IsMarked :
      (id : String) (t : Trace f) (steps : ℕ) (cost : f.F) (db : Db) (trip : Tripped f)
      → (check_limits f decimal fixed6 r exec limits_func id t steps cost db).1
        ≡ err (circuit_breaker trip)
      → IsMarked id trip.reason
          (check_limits f decimal fixed6 r exec limits_func id t steps cost db).0
  unfolding check_limits
  check_limits-IsMarked id t steps cost db trip h =
      elim (Option-cases (trip_for f decimal fixed6 r exec limits_func t steps cost)) [
        | inl fine ↦ absurd (ground arith)
        | inr (reason, trips) ↦ record {
          held = ground (
            arith,
            law.holds-set (circuit_key id) reason 86400 db (circuit_key id),
            eq_iff (circuit_key id) (circuit_key id),
          );
          reads = ground (arith, law.get-set (circuit_key id) reason 86400 db);
        }
      ]

  marked_rejects :
      (id : String) (now : ℕ) (t : Trace f) (reason : Bytes) (db : Db)
      → IsMarked id reason db
      → add_trace f decimal fixed6 r exec limits_func id now t db
        ≡ (db, err (circuit_breaker (record { reason = reason; steps = 0; cost = f.lit 0 0 })))
  unfolding add_trace
  marked_rejects id now t reason db mark =
      ground (arith, law.exists_lem (circuit_key id) db, mark.held, mark.reads)

  after_pipeline-IsMarked :
      (id : String) (t : Trace f) (x : Db × Option (List (Answer f))) (trip : Tripped f)
      → (after_pipeline f decimal fixed6 r exec limits_func id t x).1 ≡ err (circuit_breaker trip)
      → IsMarked id trip.reason (after_pipeline f decimal fixed6 r exec limits_func id t x).0
  unfolding after_pipeline
  after_pipeline-IsMarked id t (db, none) trip h = absurd (ground arith)
  after_pipeline-IsMarked id t (db, some results) trip h =
      check_limits-IsMarked id t (steps_of f results) (cost_of f results) db trip h

  add_trace-pipeline :
      (id : String) (now : ℕ) (encoded : Bytes) (t : Trace f) (db : Db)
      → law.holds db (circuit_key id) ≡ false
      → t.encoded ≡ some encoded
      → add_trace f decimal fixed6 r exec limits_func id now t db
        ≡ after_pipeline f decimal fixed6 r exec limits_func id t
            (exec (commands f id now encoded t) db)
  unfolding add_trace
  add_trace-pipeline id now encoded t db untripped encodes =
      ground (arith, law.exists_lem (circuit_key id) db)

  -- While Redis can be reached and keeps the mark: once a trace has tripped a session that was not
  -- tripped, every later trace of the session is refused with the same reason, and changes nothing.
  pub add_trace-tripped :
      (id : String) (now later : ℕ) (encoded : Bytes) (t u : Trace f) (db : Db) (trip : Tripped f)
      → law.holds db (circuit_key id) ≡ false
      → t.encoded ≡ some encoded
      → (add_trace f decimal fixed6 r exec limits_func id now t db).1 ≡ err (circuit_breaker trip)
      → add_trace f decimal fixed6 r exec limits_func id later u
          (add_trace f decimal fixed6 r exec limits_func id now t db).0
        ≡ (
          (add_trace f decimal fixed6 r exec limits_func id now t db).0,
          err (circuit_breaker (record { reason = trip.reason; steps = 0; cost = f.lit 0 0 })),
        )
  add_trace-tripped id now later encoded t u db trip untripped encodes h =
      let same : add_trace f decimal fixed6 r exec limits_func id now t db
          ≡ after_pipeline f decimal fixed6 r exec limits_func id t
              (exec (commands f id now encoded t) db) =
        add_trace-pipeline id now encoded t db untripped encodes in
      marked_rejects id later u trip.reason
        (add_trace f decimal fixed6 r exec limits_func id now t db).0
        (subst (λ (x : Db × Result (AddError f) (Unit {0})). IsMarked id trip.reason x.0) (sym same)
          (after_pipeline-IsMarked id t (exec (commands f id now encoded t) db) trip
            (ap (λ (x : Db × Result (AddError f) (Unit {0})). x.1) (sym same) ∙ h)))
