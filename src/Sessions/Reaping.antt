-- ===== src/Sessions/Reaping.antt =====
-- reapExpired of internal/sessions/session.go. The replies to SCAN are given, up to the first with the
-- cursor 0 or the first error, and so are the replies to HGET; times are in nanoseconds, and the timeout
-- is not negative.
use Prim.Native.String.{slice, len}
use text.Mathlib.Text.{starts_with}
use ajah.Prelude.{
  ℕ, ◌-◌, String, List, [], ◌∷◌, ◌++◌, Option, none, some, ok, err, ltb, leb, str_eq, ◌&&◌,
  if◌then◌else◌,
}
use ajah.Text.{Bytes}
use ajah.Float.{Float64}
use ajah.Sessions.Closing.{Buffers, Writer, Parsers, Closing, close_session}

-- strings.TrimPrefix and strings.TrimSuffix
abbrev without_prefix : String → String → String
without_prefix s p = if starts_with s p then slice s (len p) (len s) else s

abbrev without_suffix : String → String → String
without_suffix s p =
    if leb (len p) (len s) && str_eq (slice s (len s - len p) (len s)) p
    then slice s 0 (len s - len p)
    else s

unfoldable pub session_id_of : String → String
session_id_of key = without_suffix (without_prefix key "session:") ":meta"

module _ (f : Float64) {T : Type 0} (decode : Bytes → Option T) (quality_score : T → f.F)
    {Db : Type 0} (b : Buffers Db) (p : Parsers f) (ch : Option (Writer f))
    (hget : String → Db → Option String) (timeout now : ℕ) where
  -- What is left in Redis, and the sessions that were closed.
  pub record Reaped : Type 0 where
    pub db : Db
    pub closed : List String

  abbrev counted : Closing f decode quality_score Db → String → List String → List String
  counted c id ids = elim c.result [ err e ↦ ids | ok summary ↦ ids ++ id ∷ [] ]

  -- One key of a page: an error passes it over.
  unfoldable pub reap_key : String → Reaped → Reaped
  reap_key key r = elim (hget key r.db) [
    | none ↦ r
    | some text ↦ elim (p.parse_int text) [
      | none ↦ r
      | some seen ↦
          let c : Closing f decode quality_score Db =
            close_session f decode quality_score b p ch (session_id_of key) r.db in
          if ltb timeout (now - seen)
          then record { db = c.db; closed = counted c (session_id_of key) r.closed }
          else r
    ]
  ]

  unfoldable pub reap_page : List String → Reaped → Reaped
  reap_page [] r = r
  reap_page (key ∷ keys) r = reap_page keys (reap_key key r)

  -- The pages in order; an error ends it.
  unfoldable pub reap_expired : List (Option (List String)) → Reaped → Reaped
  reap_expired [] r = r
  reap_expired (none ∷ pages) r = r
  reap_expired (some keys ∷ pages) r = reap_expired pages (reap_page keys r)
