-- ===== src/Security/Threats.antt =====
-- The threats that a scan reports, and the snippets around them.

use ajah.Prelude.{
  ℕ, ◌+◌, ◌-◌, min, ◌≤◌, ◌≡◌, sym, ap, ◌∙◌, inl, inr, Bool-cases, Bool, true, false, List, [], ◌∷◌,
  ◌++◌, none, some, Option-cases, ltb, length, length-append, length-take, take, if◌then◌else◌,
  arith,
}
use mathlib.Core.List.{append-nil, append_assoc}
use ajah.Text.{Bytes, is_empty, slice, trim_space}
use ajah.Float.{Float64}
use ajah.Security.{
  ThreatKind, prompt_injection, jailbreak, data_exfiltration, ThreatMatch, Compile, Pattern, Tally,
  Detector, snippet_at, match_of, count_match, try_pattern, try_patterns, no_matches, conclude,
  scan,
}

-- A snippet has at most 80 bytes and the three of an ellipsis.
pub length-snippet_at : (prompt : Bytes) (start end : ℕ) → length (snippet_at prompt start end) ≤ 83
unfolding snippet_at
length-snippet_at prompt start end =
    cut (trim_space (slice prompt (start - 20) (min (length prompt) (end + 20))))
  where
    cut :
        (s : Bytes)
        → length (if ltb 80 (length s) then take 80 s ++ 0xe2 ∷ 0x80 ∷ 0xa6 ∷ [] else s) ≤ 83
    cut s = elim (Bool-cases (ltb 80 (length s))) [
      | inl h ↦ rw h (omega (arith, length-append (take 80 s), length-take 80 s))
      | inr h ↦ rw h (ground (arith, h))
    ]

-- The tally's list for a kind.
abbrev of_kind : {f : Float64} {compile : Compile} → ThreatKind → Tally f compile → List ThreatMatch
of_kind prompt_injection t = t.inj_matches
of_kind jailbreak t = t.jail_matches
of_kind data_exfiltration t = t.exfil_matches

abbrev is_kind : ThreatKind → ThreatKind → Bool
is_kind prompt_injection prompt_injection = true
is_kind jailbreak jailbreak = true
is_kind data_exfiltration data_exfiltration = true
is_kind _ _ = false

module _ (f : Float64) (compile : Compile) where
  -- The first match of a pattern of the kind, if it has one.
  match_list : ThreatKind → Bytes → Pattern f compile → List ThreatMatch
  match_list k prompt p = elim (p.re prompt) [
    | none ↦ []
    | some loc ↦ if is_kind k p.kind then match_of f compile prompt p loc ∷ [] else []
  ]

  -- The same of a table, in its order.
  unfoldable pub matches_of : ThreatKind → Bytes → List (Pattern f compile) → List ThreatMatch
  unfolding match_list
  matches_of k prompt [] = []
  matches_of k prompt (p ∷ ps) = match_list k prompt p ++ matches_of k prompt ps

  of_kind-count_match :
      (k j : ThreatKind) (m : ThreatMatch) (w : f.F) (t : Tally f compile)
      → of_kind k (count_match f compile j m w t)
        ≡ of_kind k t ++ (if is_kind k j then m ∷ [] else [])
  unfolding count_match
  of_kind-count_match prompt_injection j m w t = ground (arith, append-nil t.inj_matches)
  of_kind-count_match jailbreak j m w t = ground (arith, append-nil t.jail_matches)
  of_kind-count_match data_exfiltration j m w t = ground (arith, append-nil t.exfil_matches)

  round :
      (k : ThreatKind) (prompt : Bytes) (p : Pattern f compile) (t : Tally f compile)
      → of_kind k (try_pattern f compile prompt p t) ≡ of_kind k t ++ match_list k prompt p
  unfolding try_pattern match_list
  round k prompt p t = elim (Option-cases (p.re prompt)) [
    | inl e ↦ rw (e, try_pattern, match_list) (sym (append-nil _))
    | inr (loc, e) ↦
        rw (e, try_pattern, match_list)
          (of_kind-count_match k p.kind (match_of f compile prompt p loc) p.weight t)
  ]

  of_kind-try_patterns :
      (k : ThreatKind) (prompt : Bytes) (ps : List (Pattern f compile)) (t : Tally f compile)
      → of_kind k (try_patterns f compile prompt ps t) ≡ of_kind k t ++ matches_of k prompt ps
  unfolding try_patterns matches_of
  of_kind-try_patterns k prompt [] t = sym (append-nil _)
  of_kind-try_patterns k prompt (p ∷ ps) t =
      of_kind-try_patterns k prompt ps (try_pattern f compile prompt p t)
      ∙ ap (λ xs. xs ++ matches_of k prompt ps) (round k prompt p t)
      ∙ append_assoc (of_kind k t) (match_list k prompt p) (matches_of k prompt ps)

  -- The threats of a prompt that is not blank: one for each pattern that matches it, those of the
  -- injection patterns first, then jailbreaks, then exfiltration, each in the order of the table.
  pub scan-threats :
      (d : Detector f compile) (prompt : Bytes)
      → is_empty (trim_space prompt) ≡ false
      → (scan f compile d prompt).threats
        ≡ matches_of prompt_injection prompt d.patterns
          ++ (matches_of jailbreak prompt d.patterns
              ++ matches_of data_exfiltration prompt d.patterns)
  unfolding scan conclude
  scan-threats d prompt h =
      let t = try_patterns f compile prompt d.patterns (no_matches f compile) in
      let found =
        λ (k : ThreatKind). of_kind-try_patterns k prompt d.patterns (no_matches f compile) in
      let inj : t.inj_matches ≡ matches_of prompt_injection prompt d.patterns =
        found prompt_injection in
      let jail : t.jail_matches ≡ matches_of jailbreak prompt d.patterns = found jailbreak in
      let exfil : t.exfil_matches ≡ matches_of data_exfiltration prompt d.patterns =
        found data_exfiltration in
      rw (h, inj, jail, exfil, append_assoc)
