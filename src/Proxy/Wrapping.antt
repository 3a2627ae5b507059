-- ===== src/Proxy/Wrapping.antt =====
-- ServeHTTP where the limit of a body is the largest int64, so that `MaxRequestBodyBytes + 1` wraps around.
use ajah.Prelude.{
  ℕ, ◌≡◌, refl, ap, ◌∙◌, sym, [], String, Option, some, arith, Result, ok, err, none, Result-cases,
  inl, inr,
}
use ajah.Text.{Bytes}
use ajah.Float.{Float64}
use ajah.Http.{Http, header_get}
use ajah.Proxy.Providers.{detect_provider}
use ajah.Redis.{Redis}
use ajah.Security.{Compile}
use ajah.Fallback.{Manager}
use ajah.Proxy.Payload.{Codec}
use ajah.Proxy.Admission.{
  Incoming, Setting, admit, check_provider, check_body, read_body, read_limit, max_int64, Admitted,
  Reply,
}
use ajah.Proxy.Forwarding.{forward, pass_over, call_primary, on_answer, on_network_error}
use ajah.Proxy.Guards.{outcome}
use ajah.Proxy.{serve_http, finish, event_of, request_id_of, Outcome}

abbrev pub with_body : Incoming → Bytes → Incoming
with_body q sent = record q { body = some sent }

read_body-max_int64 : (limit : ℕ) (sent : Bytes) → limit ≡ max_int64 → read_body limit sent ≡ []
unfolding read_body read_limit
read_body-max_int64 limit sent h = ground arith

module _ (f : Float64) (compile : Compile) (r : Redis) (json : Codec) (digest : Bytes → String)
    (s : Setting f compile) where
  check_body-read :
      (id provider : String) (one other : Bytes) (db : r.Db)
      → read_body s.config.max_request_body_bytes one
        ≡ read_body s.config.max_request_body_bytes other
      → check_body f compile r json digest s id provider (some one) db
        ≡ check_body f compile r json digest s id provider (some other) db
  unfolding check_body
  check_body-read id provider one other db h = ground arith

  check_provider-read :
      (id : String) (q : Incoming) (one other : Bytes) (db : r.Db)
      → read_body s.config.max_request_body_bytes one
        ≡ read_body s.config.max_request_body_bytes other
      → check_provider f compile r json digest s id (with_body q one) db
        ≡ check_provider f compile r json digest s id (with_body q other) db
  unfolding check_provider
  check_provider-read id q one other db h =
      elim (Result-cases (detect_provider (header_get "Authorization" q.headers))) [
        | inl (e, is_err) ↦ rw (is_err, check_provider) refl
        | inr (provider, is_ok) ↦
            rw (is_ok, check_provider) (check_body-read id provider one other db h)
      ]

  admit-read :
      (id : String) (q : Incoming) (one other : Bytes) (db : r.Db)
      → read_body s.config.max_request_body_bytes one
        ≡ read_body s.config.max_request_body_bytes other
      → admit f compile r json digest s id (with_body q one) db
        ≡ admit f compile r json digest s id (with_body q other) db
  unfolding admit
  admit-read id q one other db h = ground (arith, check_provider-read id q one other db h)

  module _ (http : Http) (manager : Option Manager) (path_of : Bytes → Option Bytes)
      (provider_urls : String → Bytes) where
    -- The rest of ServeHTTP behind the guards.
    abbrev rest :
        String
        → Incoming
        → r.Db
        → Result (Reply f compile) (Admitted f compile)
        → Outcome f compile http r json digest s manager path_of provider_urls
    rest id q db x = elim x [
      | err reply ↦ record { db = db; contacts = []; reply = some reply; event = none }
      | ok a ↦ finish f compile http r json digest s manager path_of provider_urls id q a (
          forward http r s.config digest s.has_redis json manager path_of provider_urls q a.provider
            a.body db)
    ]

    rest-body :
        (id : String) (q : Incoming) (one other : Bytes) (db : r.Db)
        (x : Result (Reply f compile) (Admitted f compile))
        → rest id (with_body q one) db x ≡ rest id (with_body q other) db x
    unfolding finish event_of forward pass_over call_primary on_answer on_network_error
    rest-body id q one other db (err reply) = refl
    rest-body id q one other db (ok a) = refl

    -- Where the limit of a body is the largest int64, no byte of a body is read: two requests that differ
    -- only in their bodies have the same outcome, whatever the bodies are.
    pub serve_http-unread :
        s.config.max_request_body_bytes ≡ max_int64
        → (fresh_id : String) (q : Incoming) (one other : Bytes) (db : r.Db)
        → outcome f compile r json digest s http manager path_of provider_urls fresh_id
            (with_body q one)
            db
          ≡ outcome f compile r json digest s http manager path_of provider_urls fresh_id
              (with_body q other)
              db
    unfolding serve_http request_id_of
    serve_http-unread max fresh_id q one other db =
        let id : String = request_id_of fresh_id q in
        let same : read_body s.config.max_request_body_bytes one
            ≡ read_body s.config.max_request_body_bytes other =
          read_body-max_int64 s.config.max_request_body_bytes one max
          ∙ sym (read_body-max_int64 s.config.max_request_body_bytes other max) in
        ap (rest id (with_body q one) db) (admit-read id q one other db same)
        ∙ rest-body id q one other db (admit f compile r json digest s id (with_body q other) db)
