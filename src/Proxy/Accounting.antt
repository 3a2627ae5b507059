-- ===== src/Proxy/Accounting.antt =====
-- What an exchange leaves of its provider's health.
use Prim.Native.String.{◌++◌ as str_append, slice}
use text.Mathlib.TextPositions.{slice-append_left}
use text.Mathlib.TextLemmas.{append_assoc}
use mathlib.Core.Bool.{true≢false}
use ajah.Prelude.{
  ℕ, ◌++◌, ◌≡◌, sym, ap, ◌∙◌, ◌≢◌, Bool, true, false, String, str_eq, eq_iff, List, [], ◌∷◌, Option,
  none, some, Result, ok, err, if◌then◌else◌, arith, inl, inr, Result-cases, Bool-cases,
}
use ajah.Text.{Bytes, ascii}
use ajah.Http.{Http}
use ajah.Redis.{Redis, IsReachable}
use ajah.Fallback.{Manager, is_enabled, is_degraded_status_code, record_failure, record_success}
use ajah.Fallback.Keys.{fail_key, degraded_key}
use ajah.Fallback.Health.{
  Health, Health-ext, Call, failed, succeeded, step_health, view, view-failed, view-succeeded,
}
use ajah.Proxy.Providers.{build_target_url, upstream_headers}
use ajah.Proxy.Payload.{Codec, extract_model}
use ajah.Proxy.Admission.{Incoming, Config, cache_key}
use ajah.Proxy.Forwarding.{
  Contact, primary, Answer, Exchange, forward, call_primary, pass_over, on_network_error, on_answer,
  store_answer, note_failure, note_success, primary_degraded, try_backup, choose_answer,
  contacts_with,
}

-- Texts that begin with different letters differ.
unlike : (s t : String) → str_append "c" s ≢ str_append "a" t
unlike s t h =
    let same : ◌≡◌ {A = String} "c" "a" =
      sym (slice-append_left "c" s) ∙ ap (λ v. slice v 0 1) h ∙ slice-append_left "a" t in
    true≢false (ap (λ v. str_eq v "c") same)

cache_key-unlike_fail_key :
    (digest : Bytes → String) (provider p : String) (body : Bytes)
    → str_eq (cache_key digest provider body) (fail_key p) ≡ false
unfolding cache_key fail_key
cache_key-unlike_fail_key digest provider p body =
    let sum : String = digest (ascii provider ++ (ascii ":" ++ body)) in
    ground (
      arith,
      eq_iff (cache_key digest provider body) (fail_key p),
      (λ (h : cache_key digest provider body ≡ fail_key p).
          unlike (str_append "ache:" sum) (str_append "jah:fallback:failures:" p)
            (sym (append_assoc "c" "ache:" sum) ∙ h ∙ append_assoc "a" "jah:fallback:failures:" p)),
    )

cache_key-unlike_degraded_key :
    (digest : Bytes → String) (provider p : String) (body : Bytes)
    → str_eq (cache_key digest provider body) (degraded_key p) ≡ false
unfolding cache_key degraded_key
cache_key-unlike_degraded_key digest provider p body =
    let sum : String = digest (ascii provider ++ (ascii ":" ++ body)) in
    ground (
      arith,
      eq_iff (cache_key digest provider body) (degraded_key p),
      (λ (h : cache_key digest provider body ≡ degraded_key p).
          unlike (str_append "ache:" sum) (str_append "jah:fallback:degraded:" p)
            (sym (append_assoc "c" "ache:" sum) ∙ h ∙ append_assoc "a" "jah:fallback:degraded:" p)),
    )

-- What the result of the provider's call means for its health: a network error is a failure, unless the
-- client is gone, and so is the status 429 or 5xx of an answer that is read; any other is a success.
abbrev pub call_of : {E : Type 0} → Bool → String → Result E (ℕ × Result E Bytes) → Option Call
call_of cancelled provider (err e) = if cancelled then none else some (failed provider)
call_of cancelled provider (ok (status, err e)) = none
call_of cancelled provider (ok (status, ok answer)) =
    if is_degraded_status_code status then some (failed provider) else some (succeeded provider)

abbrev pub health_after : String → Option Call → Health → Health
health_after p none h = h
health_after p (some c) h = step_health p c h

module _ (http : Http) (r : Redis) (config : Config) (digest : Bytes → String) (has_redis : Bool)
    (json : Codec) (m : Manager) (path_of : Bytes → Option Bytes)
    (provider_urls : String → Bytes) where
  open r use {Db}

  abbrev manager : Option Manager
  manager = some m

  module _ (law : IsReachable r) (enabled : is_enabled m ≡ true)
      (connected : m.connected ≡ true) where
    -- The cache leaves every provider's health alone.
    view-store_answer :
        (p provider : String) (body : Bytes) (db : Db) (cs : List Contact) (own : Answer)
        → view r law m p
            (store_answer http r config digest has_redis json manager path_of provider_urls provider
              body db cs own).db
          ≡ view r law m p db
    unfolding store_answer
    view-store_answer p provider body db cs own =
        Health-ext
          (ground (
            arith,
            law.counter-set (cache_key digest provider body) own.body config.cache_ttl_seconds db
                (fail_key p),
            cache_key-unlike_fail_key digest provider p body,
          ))
          (ground (
            arith,
            law.holds-set (cache_key digest provider body) own.body config.cache_ttl_seconds db
                (degraded_key p),
            cache_key-unlike_degraded_key digest provider p body,
          ))

    pass_over-db :
        (q : Incoming) (body : Bytes) (db : Db)
        → (pass_over http r config digest has_redis json manager path_of provider_urls q body db).db
          ≡ db
    unfolding pass_over
    pass_over-db q body db = ground arith

    view-on_network_error :
        (p : String) (q : Incoming) (provider : String) (body : Bytes) (db : Db) (e : http.E)
        → view r law m p
            (on_network_error http r config digest has_redis json manager path_of provider_urls q
              provider body db).db
          ≡ health_after p (call_of q.cancelled provider (err e)) (view r law m p db)
    unfolding on_network_error note_failure
    view-on_network_error p q provider body db e =
        ground (arith, view-failed r law m enabled connected p provider db)

    view-on_answer :
        (p : String) (q : Incoming) (provider : String) (body : Bytes) (db : Db) (status : ℕ)
        (answer : Bytes)
        → view r law m p
            (on_answer http r config digest has_redis json manager path_of provider_urls q provider
              body db status answer).db
          ≡ health_after p
              (call_of {E = http.E} q.cancelled provider (ok (status, ok answer)))
              (view r law m p db)
    unfolding on_answer note_failure note_success
    view-on_answer p q provider body db status answer =
        let own : Answer = record {
          body = answer;
          status_code = status;
          model = extract_model json body;
          used_fallback = false;
          through_cache = false;
        } in
        let tried = try_backup http manager body q.uri in
        elim (Bool-cases (is_degraded_status_code status)) [
          | inl degraded ↦
              let chosen : Answer =
                choose_answer http r config digest has_redis json manager path_of provider_urls own
                  tried in
              let contacts : List Contact =
                contacts_with http r config digest has_redis json manager path_of provider_urls
                  tried in
              let same : on_answer http r config digest has_redis json manager path_of provider_urls
                    q provider body db status answer
                  ≡ store_answer http r config digest has_redis json manager path_of provider_urls
                      provider body (record_failure r m provider db) contacts chosen =
                ground arith in
              ap (λ (x : Exchange Db). view r law m p x.db) same
              ∙ view-store_answer p provider body (record_failure r m provider db) contacts chosen
              ∙ view-failed r law m enabled connected p provider db
              ∙ ground arith
          | inr fine ↦
              let same : on_answer http r config digest has_redis json manager path_of provider_urls
                    q provider body db status answer
                  ≡ store_answer http r config digest has_redis json manager path_of provider_urls
                      provider body (record_success r m provider db) (primary ∷ []) own =
                ground arith in
              ap (λ (x : Exchange Db). view r law m p x.db) same
              ∙ view-store_answer p provider body (record_success r m provider db) (primary ∷ [])
                  own
              ∙ view-succeeded r law m enabled connected p provider db
              ∙ ground arith
        ]

    view-call_primary :
        (p : String) (q : Incoming) (provider : String) (body : Bytes) (db : Db)
        (request : http.Outgoing)
        → view r law m p
            (call_primary http r config digest has_redis json manager path_of provider_urls q
              provider body db request).db
          ≡ health_after p
              (call_of q.cancelled provider (http.do_request request))
              (view r law m p db)
    unfolding call_primary
    view-call_primary p q provider body db request =
        let after : Result http.E (ℕ × Result http.E Bytes) → Health =
          λ o. health_after p (call_of q.cancelled provider o) (view r law m p db) in
        elim (Result-cases (http.do_request request)) [
          | inl (e, failing) ↦
              let same : call_primary http r config digest has_redis json manager path_of
                    provider_urls q provider body db request
                  ≡ on_network_error http r config digest has_redis json manager path_of
                      provider_urls q provider body db =
                ground arith in
              ap (λ (x : Exchange Db). view r law m p x.db) same
              ∙ view-on_network_error p q provider body db e
              ∙ ap after (sym failing)
          | inr ((status, err e), replied) ↦
              let same : (call_primary http r config digest has_redis json manager path_of
                    provider_urls q provider body db request).db
                  ≡ db =
                ground arith in
              ap (view r law m p) same ∙ ap after (sym replied)
          | inr ((status, ok answer), replied) ↦
              let same : call_primary http r config digest has_redis json manager path_of
                    provider_urls q provider body db request
                  ≡ on_answer http r config digest has_redis json manager path_of provider_urls q
                      provider body db status answer =
                ground arith in
              ap (λ (x : Exchange Db). view r law m p x.db) same
              ∙ view-on_answer p q provider body db status answer
              ∙ ap after (sym replied)
        ]

    -- With a configured fallback and a connected client, while Redis can be reached, and for a request
    -- that can be built: an exchange changes the health of its provider alone. If the provider cools
    -- down it stays as it is; else a network error counts as a failure, unless the client is gone, and
    -- so does an answer with status 429 or 5xx, any other answer is a success, and an answer whose body
    -- cannot be read counts as nothing. The fallback's result and the cache have no part in it.
    pub view-forward :
        (p : String) (q : Incoming) (provider : String) (body : Bytes) (db : Db)
        (request : http.Outgoing)
        → http.new_request q.method
            (build_target_url path_of (provider_urls provider) q.uri)
            body
            (upstream_headers q.headers)
          ≡ ok request
        → view r law m p
            (forward http r config digest has_redis json manager path_of provider_urls q provider
              body db).db
          ≡ (if primary_degraded r manager provider db
              then view r law m p db
              else health_after p
                  (call_of q.cancelled provider (http.do_request request))
                  (view r law m p db))
    unfolding forward
    view-forward p q provider body db request built =
        elim (Bool-cases (primary_degraded r manager provider db)) [
          | inl degraded ↦
              let same : forward http r config digest has_redis json manager path_of provider_urls q
                    provider body db
                  ≡ pass_over http r config digest has_redis json manager path_of provider_urls q
                      body db =
                ground arith in
              ap (λ (x : Exchange Db). view r law m p x.db) same
              ∙ ap (view r law m p) (pass_over-db q body db)
              ∙ ground arith
          | inr working ↦
              let same : forward http r config digest has_redis json manager path_of provider_urls q
                    provider body db
                  ≡ call_primary http r config digest has_redis json manager path_of provider_urls q
                      provider body db request =
                ground arith in
              ap (λ (x : Exchange Db). view r law m p x.db) same
              ∙ view-call_primary p q provider body db request
              ∙ ground arith
        ]
