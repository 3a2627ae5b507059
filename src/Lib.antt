-- ===== src/Lib.antt =====
-- The decision logic of the ajah gateway, an observability proxy in front of LLM providers.
-- A request passes through the proxy handler, which scans its prompt, forwards it and emits an
-- event; workers take the events, score and flag the response, verify it with a second model, and
-- record it.
--
-- Prelude            shared names, lists, loops and results.
-- Text               strings that are walked byte by byte; strings.TrimSpace.
-- Float              float64 as an interface with the facts of IEEE 754 that are used; Float/Scaled
--                    is an instance in thousandths, on which the tests run.
-- Flagging           internal/flagging/flagger.go: Evaluate is `evaluate`, its three helpers have
--                    their own names, the numeric and text arguments are the record `Scores`.
-- Security           internal/security/detector.go: New and its table are `new` and
--                    `default_patterns`, Scan is `scan`, its loop `try_patterns`, and what follows
--                    the loop `conclude`. The regexp engine is a parameter that gives the span of a
--                    first match.
-- Crossmodel         internal/crossmodel/verifier.go: levenshteinDist and minOf3 in Distance, the
--                    ratio, the classification, callSecondary, compareResponses and Verify as
--                    `verify`. net/http and encoding/json are the record `Peer`. An index out of
--                    range is `none`, and is shown not to occur.
-- Events             internal/events/emitter.go: the state is the channel, the workers and the history;
--                    New and Start are `start`, Emit is `emit`, a worker's loop is the other
--                    constructors of `Step`, and a run is `Steps`.
-- Redis              the commands that the gateway sends, as a record, with what they do while the
--                    server can be reached; Redis/Store is an instance.
-- Fallback           internal/fallback/manager.go: the methods of Manager under their own names (a
--                    round of HealthStatus is `status_of`), rewriteModel in Rewrite. What the keys
--                    promise of a provider is `run_health` in Health.
-- Http               net/http as a record, and header maps.
-- Proxy              internal/proxy/handler.go: ServeHTTP is `serve_http`; its guards up to the scan are
--                    `admit` in Admission, the upstream call and the fallback `forward` in Forwarding,
--                    and the rest `finish`. detectProvider, buildTargetURL and copyHeaders are in
--                    Providers, the extract functions in Payload. The limit of a body is an int64 whose
--                    increment wraps around in `read_limit`.
-- Sessions           internal/sessions/session.go: AddTrace is `add_trace`, the pipeline it sends
--                    `commands`, and its circuit breaker `check_limits`; CheckDeadStep is
--                    `check_dead_step` in DeadSteps, CloseSession `close_session` and GetTurns
--                    `get_turns` in Closing, reapExpired `reap_expired` in Reaping.
--                    Redis/Pipeline says what a pipeline and a deletion do to hashes, Redis/Hashes is an
--                    instance.
-- Config             internal/config/config.go: Load is `load`, Validate is `validate`.
-- Masking            internal/masking/masker.go: New's table is `pii_patterns`, Mask is `mask`.
-- Attribution        internal/attribution/engine.go: Process is `process`, publishCost `publish_cost`,
--                    checkRetryLoop `check_retry_loop`; the keys are in Keys. Redis/Counters says what
--                    the commands on counters do, Redis/Tallies is an instance.
-- Anomaly            internal/anomaly/detector.go: Detect is `detect`, RefreshBaselines
--                    `refresh_baselines`.
-- Db                 internal/db/postgres.go: Accounts has the tables of organisations, users and logins, and
--                    their statements, Settings the settings of features and users, and the maps that
--                    RefreshCache and RefreshUserCache fill.
-- Auth               cmd/gateway/auth_handlers.go: the handlers are `register`, `login`, `logout`, `me` and
--                    `list_team`; internal/auth/middleware.go: RequireAuth is `require_auth`, with
--                    its lookup as a parameter: it is installed on no route.
-- Gateway            cmd/gateway: sendWebhook of main.go is `send_webhook` in Webhooks, callScorer
--                    `call_scorer` in Scoring; rateLimitMiddleware of handlers.go is `limit_rate` in
--                    Limits, the handlers of a session's circuit breaker are in Circuits. Of the
--                    processing of an event in main.go, `judge` in Judging is the flag of a response,
--                    from the scorer to the second model, and `settle` in Settling what follows the
--                    costs: their counters, the counter of the traces, the alerts of Alerts.
--
-- The proxy handler uses the fallback manager through its own methods, and shares Redis with it and
-- with the sessions: what is left there is part of each result. The processing of an event uses the
-- attribution engine, the flagger, the verifier and the settings through their own functions.
--
-- Strings that are compared or joined whole are native strings, those that are walked are lists of
-- bytes or of runes. The strings of a fixed set (levels, verdicts, kinds) are data types. Logging
-- and the timeouts of clients are left out. Loops are recursions over the rounds or the list, so that
-- no fuel is needed.
--
-- Not modelled: the rest of the gateway and of internal/db; other SQL, metrics and
-- the dashboard are I/O or other languages.
pub mod Prelude
pub mod Text
pub mod Float
pub mod Flagging
pub mod Security
pub mod Crossmodel
pub mod Events
pub mod Http
pub mod Redis
pub mod Fallback
pub mod Sessions
pub mod Config
pub mod Masking
pub mod Proxy
pub mod Attribution
pub mod Anomaly
pub mod Db
pub mod Auth
pub mod Gateway
