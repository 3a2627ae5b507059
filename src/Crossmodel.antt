-- ===== src/Crossmodel.antt =====
-- internal/crossmodel/verifier.go. The HTTP client and the JSON codec are parameters; a response's
-- text is the list of its runes where the edit distance walks it.
pub mod Distance
pub mod Table
pub mod Edits
pub mod Verifying
mod Examples
use Prim.Native.String.{◌++◌ as str_append}
use ajah.Prelude.{
  Result, ok, err, ℕ, ◌+◌, ◌-◌, Bool, true, false, ◌&&◌, ◌||◌, List, [], ◌∷◌, Option, none, some,
  String, leb, ltb, ◌==◌, if◌then◌else◌, length, take, ◌>>=◌,
}
use ajah.Float.{Float64}
use Distance.{levenshtein_dist}

abbrev pub Runes : Type 0
Runes = List ℕ

-- The strings "agree", "partial" and "disagree", and the risk that goes with each.
pub data Verdict : Type 0 where
  agree partial disagree : Verdict

pub data Risk : Type 0 where
  low medium high : Risk

-- ra[:1000], where ra is longer than that
unfoldable pub cap_runes : Runes → Runes
cap_runes r = if ltb 1000 (length r) then take 1000 r else r

-- The errors of callSecondary.
pub data CallError : Type 0 where
  unencodable bad_url unreachable unreadable bad_json no_choices : CallError
  bad_status : ℕ → CallError

module _ (f : Float64) where
  open f use {F, lit, of_int, sub, div, leb as float_leb}

  pub record VerificationResult : Type 0 where
    pub primary_model : String
    pub secondary_model : String
    pub primary_response : String
    pub secondary_response : String
    pub agreement_score : F
    pub disagreements : List String
    pub verdict : Verdict
    pub risk_level : Risk

  unfoldable pub classify : F → Verdict × Risk
  classify score =
      if float_leb (lit 80 2) score
      then (agree, low)
      else if float_leb (lit 50 2) score
      then (partial, medium)
      else (disagree, high)

  -- The ratio of two texts that are short enough. `none` is an index out of range.
  unfoldable pub ratio_of : Runes → Runes → Option F
  ratio_of ra rb =
      let la = length ra in
      let lb = length rb in
      let max_len = if ltb la lb then lb else la in
      let full = levenshtein_dist ra rb >>= λ dist.
      some (sub (lit 10 1) (div (of_int dist) (of_int max_len))) in
      if la == 0 && lb == 0
      then some (lit 10 1)
      else if la == 0 || lb == 0
      then some (lit 0 0)
      else full

  unfoldable pub levenshtein_ratio : Runes → Runes → Option F
  levenshtein_ratio a b = ratio_of (cap_runes a) (cap_runes b)

  -- What the verifier calls: encoding/json, net/http and the conversion of a string to runes.
  pub record Peer : Type 1 where
    -- The bytes of a request or of a response.
    pub Body : Type 0
    -- json.Marshal of a chatReq with this model and prompt, and of a compareReq.
    pub encode_chat : String → String → Option Body
    pub encode_compare : String → String → String → Option Body
    -- http.NewRequestWithContext accepts the URL.
    pub is_url : String → Bool
    -- client.Do of a POST to the URL, with a bearer token: `none` is a transport error, and a status
    -- without a body is an error in reading it.
    pub post : String → Option String → Body → Option (ℕ × Option Body)
    -- json.Unmarshal: the contents of the choices; the score and, unless null or absent, the points
    -- of disagreement. An absent score is 0.
    pub decode_chat : Body → Option (List String)
    pub decode_compare : Body → Option (F × Option (List String))
    pub runes : String → Runes

  module _ (peer : Peer) (scorer_url : String) where
    open peer use {encode_chat, encode_compare, is_url, post, decode_chat, decode_compare, runes}

    -- Reads the reply of the secondary provider.
    read_choice : ℕ → peer.Body → Result CallError String
    read_choice status raw =
        if status == 200
        then (elim (decode_chat raw) [
          | none ↦ err bad_json
          | some [] ↦ err no_choices
          | some (content ∷ _) ↦ ok content
        ])
        else err (bad_status status)

    unfoldable pub call_secondary : String → String → String → String → Result CallError String
    unfolding read_choice
    call_secondary prompt provider_url api_key model = elim (encode_chat model prompt) [
      | none ↦ err unencodable
      | some body ↦
          if is_url (str_append provider_url "/chat/completions")
          then (elim (post (str_append provider_url "/chat/completions") (some api_key) body) [
            | none ↦ err unreachable
            | some (status, none) ↦ err unreadable
            | some (status, some raw) ↦ read_choice status raw
          ])
          else err bad_url
    ]

    -- The score and the points of disagreement; the status of the scorer's reply is not read.
    score_reply : ℕ × Option peer.Body → Option (F × List String)
    score_reply (status, none) = none
    score_reply (status, some raw) = elim (decode_compare raw) [
      | none ↦ none
      | some (score, none) ↦ some (score, [])
      | some (score, some points) ↦ some (score, points)
    ]

    -- What the scorer says, `none` on each of the failures that are logged.
    unfoldable pub ask_scorer : String → String → String → Option (F × List String)
    unfolding score_reply
    ask_scorer prompt a b = elim (encode_compare a b prompt) [
      | none ↦ none
      | some body ↦
          if is_url (str_append scorer_url "/compare")
          then (elim (post (str_append scorer_url "/compare") none body) [
            | none ↦ none
            | some reply ↦ score_reply reply
          ])
          else none
    ]

    unfoldable pub compare_responses : String → String → String → Option (F × List String)
    compare_responses prompt a b = elim (ask_scorer prompt a b) [
      | some answer ↦ some answer
      | none ↦ levenshtein_ratio (runes a) (runes b) >>= λ ratio. some (ratio, [])
    ]

    abbrev pub report : String → String → String → String → F × List String → VerificationResult
    report primary_model model primary_response secondary (score, points) = record {
      primary_model = primary_model;
      secondary_model = model;
      primary_response = primary_response;
      secondary_response = secondary;
      agreement_score = score;
      disagreements = points;
      verdict = (classify score).0;
      risk_level = (classify score).1;
    }

    -- `none` is an index out of range.
    unfoldable pub verify :
        (prompt primary_response primary_model provider_url api_key model : String)
        → Option (Result CallError VerificationResult)
    verify prompt primary_response primary_model provider_url api_key model =
        elim (call_secondary prompt provider_url api_key model) [
          | err e ↦ some (err e)
          | ok secondary ↦ compare_responses prompt primary_response secondary >>= λ answer.
              some (ok (report primary_model model primary_response secondary answer))
        ]
