-- ===== src/Security.antt =====
-- internal/security/detector.go. The regular expressions are compiled by a parameter: what matters
-- of one is the span of its first match.
pub mod Scores
pub mod Blocking
pub mod Threats
mod Examples
use ajah.Prelude.{
  ℕ, ◌+◌, ◌-◌, max, min, Bool, true, false, ◌&&◌, String, List, [], ◌∷◌, ◌++◌, Option, none, some,
  ltb, if◌then◌else◌, length,
}
use ajah.Text.{Bytes, slice, is_empty, trim_space}
use ajah.Float.{Float64}

pub data ThreatKind : Type 0 where
  prompt_injection jailbreak data_exfiltration : ThreatKind

pub record ThreatMatch : Type 0 where
  pub kind : ThreatKind
  pub label : String
  pub snippet : Bytes

-- The strings "clean", "suspicious" and "blocked".
pub data Verdict : Type 0 where
  clean suspicious blocked : Verdict

-- regexp.MustCompile(source), as the function FindStringIndex of its value.
abbrev pub Compile : Type 0
Compile = String → Bytes → Option (ℕ × ℕ)

-- The 20 bytes on either side of a match, trimmed, and cut after 80 with an ellipsis.
unfoldable pub snippet_at : Bytes → ℕ → ℕ → Bytes
snippet_at prompt start end =
    let snippet = trim_space (slice prompt (start - 20) (min (length prompt) (end + 20))) in
    if ltb 80 (length snippet) then slice snippet 0 80 ++ 0xe2 ∷ 0x80 ∷ 0xa6 ∷ [] else snippet

module _ (f : Float64) (compile : Compile) where
  open f use {F, lit, add, ltb as float_ltb, leb, fmin, fmax}

  pub record Pattern : Type 0 where
    pub kind : ThreatKind
    pub label : String
    pub re : Bytes → Option (ℕ × ℕ)
    pub weight : F

  pub record Detector : Type 0 where
    pub patterns : List Pattern
    pub block_thresh : F

  pub record ScanResult : Type 0 where
    pub threats : List ThreatMatch
    pub injection_risk : F
    pub jailbreak_risk : F
    pub exfil_risk : F
    pub verdict : Verdict
    pub should_block : Bool

  abbrev pattern_of : ThreatKind → String → String → F → Pattern
  pattern_of kind label source weight = record {
    kind = kind;
    label = label;
    re = compile source;
    weight = weight;
  }

  unfoldable pub default_patterns : List Pattern
  default_patterns =
      pattern_of prompt_injection "ignore_previous"
        "(?i)ignore\\s+(all\\s+)?(previous|prior|above|earlier)\\s+(instructions?|prompts?|directives?|context|rules?)"
        (lit 9 1)
      ∷ pattern_of prompt_injection "disregard_instructions"
          "(?i)(disregard|forget|override|bypass|skip)\\s+(all\\s+)?(your\\s+)?(instructions?|rules?|guidelines?|constraints?|limitations?|restrictions?)"
          (lit 85 2)
      ∷ pattern_of prompt_injection "new_instructions"
          "(?i)(new|updated|revised|actual|real)\\s+instructions?\\s*[:：]" (lit 75 2)
      ∷ pattern_of prompt_injection "system_override"
          "(?i)\\[?(system|sys)\\]?\\s*[:：]\\s*(ignore|you are now|disregard|override)" (lit 9 1)
      ∷ pattern_of prompt_injection "end_of_prompt_marker"
          "(?i)(---+|===+|###)\\s*(end\\s+of\\s+(prompt|instructions?|context)|new\\s+task|actual\\s+task|real\\s+instructions?)\\s*(---+|===+|###)?"
          (lit 8 1)
      ∷ pattern_of prompt_injection "inject_via_translation"
          "(?i)(translate|translat\\w+).{0,40}(ignore|disregard|forget)\\s+(previous|prior|above)"
          (lit 85 2)
      ∷ pattern_of jailbreak "dan_pattern"
          "(?i)\\b(DAN|do\\s+anything\\s+now|jailbreak(ed)?|jail\\s*break)\\b" (lit 95 2)
      ∷ pattern_of jailbreak "developer_mode"
          "(?i)(developer\\s+mode|dev\\s+mode|debug\\s+mode)\\s+(enabled|activated|on|unlocked)"
          (lit 9 1)
      ∷ pattern_of jailbreak "no_restrictions"
          "(?i)(pretend|act|behave|respond)\\s+(as\\s+if|like)\\s+(you\\s+)?(have\\s+)?(no\\s+)?(restrictions?|limits?|rules?|guidelines?|ethics?|filters?|constraints?)"
          (lit 85 2)
      ∷ pattern_of jailbreak "you_are_now"
          "(?i)you\\s+are\\s+now\\s+(a|an)?\\s*(unrestricted|uncensored|unfiltered|evil|malicious|hacker|villain)"
          (lit 9 1)
      ∷ pattern_of jailbreak "fictional_framing_escape"
          "(?i)(in\\s+(this\\s+)?fiction|for\\s+a\\s+(story|novel|game|roleplay)|hypothetically\\s+speaking).{0,60}(how\\s+to\\s+(make|build|create|synthesize|hack)|step.by.step)"
          (lit 8 1)
      ∷ pattern_of jailbreak "token_smuggling"
          "(?i)(base64|rot13|hex.encoded|encoded\\s+version)\\s*(of|for)?.{0,30}(instructions?|prompt|command|payload)"
          (lit 85 2)
      ∷ pattern_of jailbreak "grandma_exploit"
          "(?i)(my\\s+)?(grandma|grandmother|late\\s+\\w+)\\s+(used\\s+to\\s+)?(tell|read|recite|explain).{0,60}(how\\s+to|instructions?\\s+for|steps?\\s+to)"
          (lit 75 2)
      ∷ pattern_of data_exfiltration "reveal_system_prompt"
          "(?i)(print|show|display|output|repeat|reveal|tell\\s+me|what\\s+is)\\s+(your\\s+)?(system\\s+prompt|initial\\s+prompt|base\\s+prompt|original\\s+instructions?|context\\s+window|full\\s+prompt)"
          (lit 9 1)
      ∷ pattern_of data_exfiltration "training_data_probe"
          "(?i)(what\\s+(data|information|content)\\s+(were\\s+you|was\\s+used)\\s+trained\\s+on|repeat\\s+your\\s+training\\s+data|verbatim.{0,20}training)"
          (lit 8 1)
      ∷ pattern_of data_exfiltration "other_users_data"
          "(?i)(what\\s+(did|do|have)\\s+(other\\s+)?(users?|people|customers?)\\s+(ask|say|query|request|tell)|previous\\s+(user|customer|conversation)s?\\s+(said|asked|told|shared))"
          (lit 85 2)
      ∷ pattern_of data_exfiltration "api_key_probe"
          "(?i)(what\\s+is\\s+(your|the)\\s+(api\\s+key|secret|token|password|credential)|print\\s+(your\\s+)?(api\\s+key|access\\s+token|secret\\s+key))"
          (lit 95 2)
      ∷ pattern_of data_exfiltration "memory_dump"
          "(?i)(dump\\s+(your\\s+)?(memory|context|prompt|state)|output\\s+everything\\s+(you\\s+know|in\\s+your\\s+context|from\\s+your\\s+memory))"
          (lit 85 2)
      ∷ []

  unfoldable pub new : F → Detector
  new block_threshold = record { patterns = default_patterns; block_thresh = block_threshold }

  -- The variables of the loop.
  pub record Tally : Type 0 where
    pub inj_matches : List ThreatMatch
    pub jail_matches : List ThreatMatch
    pub exfil_matches : List ThreatMatch
    pub inj_score : F
    pub jail_score : F
    pub exfil_score : F

  abbrev no_matches : Tally
  no_matches = record {
    inj_matches = [];
    jail_matches = [];
    exfil_matches = [];
    inj_score = lit 0 0;
    jail_score = lit 0 0;
    exfil_score = lit 0 0;
  }

  -- The switch on the kind of the pattern.
  unfoldable pub count_match : ThreatKind → ThreatMatch → F → Tally → Tally
  count_match prompt_injection m weight t = record t {
    inj_matches = t.inj_matches ++ m ∷ [];
    inj_score = fmin (lit 10 1) (add t.inj_score weight);
  }
  count_match jailbreak m weight t = record t {
    jail_matches = t.jail_matches ++ m ∷ [];
    jail_score = fmin (lit 10 1) (add t.jail_score weight);
  }
  count_match data_exfiltration m weight t = record t {
    exfil_matches = t.exfil_matches ++ m ∷ [];
    exfil_score = fmin (lit 10 1) (add t.exfil_score weight);
  }

  abbrev match_of : Bytes → Pattern → ℕ × ℕ → ThreatMatch
  match_of prompt p loc = record {
    kind = p.kind;
    label = p.label;
    snippet = snippet_at prompt loc.0 loc.1;
  }

  -- One round of the loop.
  unfoldable pub try_pattern : Bytes → Pattern → Tally → Tally
  try_pattern prompt p t = elim (p.re prompt) [
    | none ↦ t
    | some loc ↦ count_match p.kind (match_of prompt p loc) p.weight t
  ]

  unfoldable pub try_patterns : Bytes → List Pattern → Tally → Tally
  try_patterns prompt [] t = t
  try_patterns prompt (p ∷ ps) t = try_patterns prompt ps (try_pattern prompt p t)

  -- What Scan makes of the variables after the loop.
  unfoldable pub conclude : F → Tally → ScanResult
  conclude block_thresh t =
      let combined = fmax t.inj_score (fmax t.jail_score t.exfil_score) in
      let should_block = float_ltb (lit 0 0) block_thresh && leb block_thresh combined in
      record {
        threats = (t.inj_matches ++ t.jail_matches) ++ t.exfil_matches;
        injection_risk = t.inj_score;
        jailbreak_risk = t.jail_score;
        exfil_risk = t.exfil_score;
        verdict =
            if should_block then blocked else if leb (lit 5 1) combined then suspicious else clean;
        should_block = should_block;
      }

  abbrev blank_result : ScanResult
  blank_result = record {
    threats = [];
    injection_risk = lit 0 0;
    jailbreak_risk = lit 0 0;
    exfil_risk = lit 0 0;
    verdict = clean;
    should_block = false;
  }

  unfoldable pub scan : Detector → Bytes → ScanResult
  scan d prompt =
      if is_empty (trim_space prompt)
      then blank_result
      else conclude d.block_thresh (try_patterns prompt d.patterns no_matches)
