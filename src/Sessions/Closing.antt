-- ===== src/Sessions/Closing.antt =====
-- CloseSession and GetTurns of internal/sessions/session.go. Redis, encoding/json, strconv and ClickHouse
-- are parameters. A trace is what json.Unmarshal makes of it.
use ajah.Prelude.{
  ℕ, suc, Bool, String, List, [], ◌∷◌, Option, none, some, Result, ok, err, ◌==◌, if◌then◌else◌,
}
use ajah.Text.{Bytes}
use ajah.Float.{Float64}
use ajah.Sessions.{meta_key, traces_key, int32}

pub data CloseError : Type 0 where
  meta_unread traces_unread bad_trace no_table unwritten undeleted : CloseError

-- HGETALL of a key, LRANGE of a whole list, and DEL of two keys; no reply is an error.
pub record Buffers (Db : Type 0) : Type 0 where
  pub hgetall : String → Db → Option (String → Option String)
  pub lrange : String → Db → Option (List Bytes)
  pub del : String → String → Db → Db × Option (Unit {0})

module _ (f : Float64) where
  -- A time is none where it is the zero time.
  pub record SessionMeta : Type 0 where
    pub session_id : String
    pub start_time : Option ℕ
    pub last_seen : Option ℕ
    pub total_cost : f.F
    pub total_tokens : ℕ
    pub step_count : ℕ
    pub avg_quality : f.F
    pub feature_name : String
    pub user_id : String
    pub status : String

  -- ClickHouse: whether the table can be created, and whether a session can be written.
  pub record Writer : Type 0 where
    pub create_session_table : Bool
    pub write_session : SessionMeta → Bool

  -- strconv.ParseInt with its error, and the values that ParseInt and ParseFloat give beside an error.
  pub record Parsers : Type 0 where
    pub parse_int : String → Option ℕ
    pub int_value : String → ℕ
    pub float_value : String → f.F

  module _ {T : Type 0} (decode : Bytes → Option T) (quality_score : T → f.F) where
    -- The traces in order; one that does not decode ends it.
    unfoldable pub decode_all : List Bytes → Option (List T)
    decode_all [] = some []
    decode_all (raw ∷ raws) =
        let rest = decode_all raws in
        elim (decode raw) [
          | none ↦ none
          | some t ↦ elim rest [ none ↦ none | some ts ↦ some (t ∷ ts) ]
        ]

    -- GetTurns leaves out what does not decode.
    unfoldable pub turns_of : List Bytes → List T
    turns_of [] = []
    turns_of (raw ∷ raws) =
        let rest = turns_of raws in elim (decode raw) [ none ↦ rest | some t ↦ t ∷ rest ]

    -- The sum and the number of the scores above 0.
    unfoldable pub sum_quality : List T → f.F × ℕ → f.F × ℕ
    sum_quality [] acc = acc
    sum_quality (t ∷ ts) (sum, count) = sum_quality ts (
        if f.ltb (f.lit 0 0) (quality_score t)
        then (f.add sum (quality_score t), suc count)
        else (sum, count))

    unfoldable pub avg_quality_of : List T → f.F
    avg_quality_of ts =
        let (sum, count) = sum_quality ts (f.lit 0 0, 0) in
        if count == 0 then f.lit 0 0 else f.div sum (f.of_int count)

    abbrev field_or : {A : Type 0} → A → (String → A) → Option String → A
    field_or d g none = d
    field_or d g (some v) = g v

    unfoldable pub meta_of : Parsers → String → (String → Option String) → List T → SessionMeta
    meta_of p id meta traces = record {
      session_id = id;
      start_time = field_or none p.parse_int (meta "start_time");
      last_seen = field_or none p.parse_int (meta "last_seen");
      total_cost = field_or (f.lit 0 0) p.float_value (meta "total_cost");
      total_tokens = field_or 0 p.int_value (meta "total_tokens");
      step_count = field_or 0 (λ v. int32 (p.int_value v)) (meta "step_count");
      avg_quality = avg_quality_of traces;
      feature_name = field_or "" (λ v. v) (meta "feature_name");
      user_id = field_or "" (λ v. v) (meta "user_id");
      status = "completed";
    }

    -- What is left in Redis, the session that ClickHouse took, and the summary.
    pub record Closing (Db : Type 0) : Type 0 where
      pub db : Db
      pub written : Option SessionMeta
      pub result : Result CloseError (SessionMeta × List T)

    -- The write of a session, where there is ClickHouse.
    unfoldable pub write_to : Option Writer → SessionMeta → Result CloseError (Option SessionMeta)
    write_to none m = ok none
    write_to (some w) m =
        if w.create_session_table
        then (if w.write_session m then ok (some m) else err unwritten)
        else err no_table

    module _ {Db : Type 0} (b : Buffers Db) (p : Parsers) (ch : Option Writer) where
      abbrev failed : CloseError → Db → Closing Db
      failed e db = record { db = db; written = none; result = err e }

      abbrev after_del :
          Option SessionMeta → SessionMeta → List T → Db × Option (Unit {0}) → Closing Db
      after_del written m traces (db, none) = record {
        db = db;
        written = written;
        result = err undeleted;
      }
      after_del written m traces (db, some _) = record {
        db = db;
        written = written;
        result = ok (m, traces);
      }

      -- CloseSession once the traces are decoded.
      unfoldable pub store_session : String → SessionMeta → List T → Db → Closing Db
      store_session id m traces db = elim (write_to ch m) [
        | err e ↦ failed e db
        | ok written ↦ after_del written m traces (b.del (meta_key id) (traces_key id) db)
      ]

      unfoldable pub close_session : String → Db → Closing Db
      close_session id db = elim (b.hgetall (meta_key id) db) [
        | none ↦ failed meta_unread db
        | some meta ↦ elim (b.lrange (traces_key id) db) [
          | none ↦ failed traces_unread db
          | some raws ↦ elim (decode_all raws) [
            | none ↦ failed bad_trace db
            | some traces ↦ store_session id (meta_of p id meta traces) traces db
          ]
        ]
      ]

      unfoldable pub get_turns : String → Db → Option (List T)
      get_turns id db = elim (b.lrange (traces_key id) db) [
        | none ↦ none
        | some raws ↦ some (turns_of raws)
      ]
