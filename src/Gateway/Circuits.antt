-- ===== src/Gateway/Circuits.antt =====
-- The handlers of a session's circuit breaker in cmd/gateway/handlers.go: GET and DELETE
-- /sessions/{sessionID}/circuit.
use ajah.Prelude.{ℕ, Bool, not, String, [], none, some}
use ajah.Text.{Bytes, is_empty}
use ajah.Redis.{Redis}
use ajah.Sessions.{circuit_key}

-- The reply of GET: the reason is empty where there is none or Redis gives an error.
pub record CircuitReply : Type 0 where
  pub session_id : String
  pub tripped : Bool
  pub reason : Bytes
  pub cooldown_sec : ℕ

module _ (r : Redis) where
  unfoldable pub session_circuit : String → r.Db → CircuitReply
  session_circuit id db =
      let reason : Bytes = elim (r.get (circuit_key id) db) [
        | some (some v) ↦ v
        | some none ↦ []
        | none ↦ []
      ] in
      record {
        session_id = id;
        tripped = not (is_empty reason);
        reason = reason;
        cooldown_sec = r.ttl (circuit_key id) db;
      }

  -- An error of DEL is not looked at.
  unfoldable pub reset_session_circuit : String → r.Db → r.Db
  reset_session_circuit id db = (r.del (circuit_key id) db).0
