-- ===== src/Security/Validation/Markers.antt =====
-- Which outputs the validator lets pass.
use Prim.Native.Char.{code}
use text.Mathlib.TextEquality.{Char-path}
use tiny_mite.Crates.{Crates}
use tiny_mite.Security.Validation.{
  Lowercase, OutputValidator, injection_patterns, flag_patterns, replace_char, sanitize, is_empty,
  find_issues, validate,
}
use tiny_mite.Tools.Definition.{ToolResult}
use tiny_mite.Prelude.{
  byte_length, ℕ, ◌≡◌, refl, ap, ◌⊎◌, ◌↔◌, ◌≤◌, Bool, true, false, not, ◌&&◌, ◌||◌, String, some,
  none, List, [], ◌∷◌, arith, ltb, contains_text, lacks, strip_prefix-lacks, Bool-cases, inl, inr,
  ◌==◌, first_is, text_length, any,
}

-- A text that lacks a character of the needle does not contain it.
contains_text-lacks :
    (b : ℕ) (n s : String) → lacks b n ≡ false → lacks b s ≡ true → contains_text n s ≡ false
contains_text-lacks b n String.[] h k = rw (strip_prefix-lacks b n String.[] h k) refl
contains_text-lacks b n (String.◌∷◌ c s) h k =
    rw (strip_prefix-lacks b n (String.◌∷◌ c s) h k) (contains_text-lacks b n s h (ground arith))

replace_char-same :
    (b : ℕ) (new s : String)
    → first_is b new ≡ true
    → text_length new ≡ 1
    → replace_char b new s ≡ s
unfolding replace_char
replace_char-same b String.[] s h k = absurd (omega arith)
replace_char-same b (String.◌∷◌ w (String.◌∷◌ x t)) s h k = absurd (omega arith)
replace_char-same b (String.◌∷◌ w String.[]) String.[] h k = refl
replace_char-same b (String.◌∷◌ w String.[]) (String.◌∷◌ c s) h k =
    let rest = replace_char-same b (String.◌∷◌ w String.[]) s h k in
    elim (Bool-cases (code c == b)) [
      | inl e ↦ rw (e, rest) (ap (λ d. String.◌∷◌ d s) (Char-path w c (ground arith)))
      | inr e ↦ rw (e, rest) refl
    ]

sanitize_lem : (s : String) → sanitize s ≡ s
unfolding sanitize
sanitize_lem s =
    rw (replace_char-same b'<' "<" s refl refl) (replace_char-same b'>' ">" s refl refl)

flag_patterns-is_empty :
    (ps : List String) (s : String)
    → is_empty (flag_patterns ps s) ≡ not (any (λ p. contains_text p s) ps)
unfolding flag_patterns
flag_patterns-is_empty [] s = refl
flag_patterns-is_empty (p ∷ ps) s = elim (Bool-cases (contains_text p s)) [
  | inl e ↦ rw (e, flag_patterns) refl
  | inr e ↦ rw (e, flag_patterns) (flag_patterns-is_empty ps s)
]

verdict_iff :
    (limit size : ℕ) (bad : Bool)
    → (((not (ltb limit size) && not bad) || false) ≡ true) ↔ ((size ≤ limit) × (bad ≡ false))
verdict_iff limit size bad = ground arith

-- The patterns that a text in lower case can contain.
abbrev pub lower_patterns : List String
lower_patterns =
    "ignore all previous instructions" ∷ "ignore previous instructions" ∷ "you are now"
    ∷ "forget everything" ∷ "system prompt:" ∷ "<|im_start|>system" ∷ []

module _ (X : Crates) (L : Lowercase) where
  -- The marker `<<SYS>>` is never flagged, whatever the output: the output is searched in lower
  -- case, so that the list of patterns does what the list without the marker would do.
  pub sys_marker_missed :
      (output : String)
      → flag_patterns injection_patterns (L.lower output)
        ≡ flag_patterns lower_patterns (L.lower output)
  unfolding flag_patterns
  sys_marker_missed output =
      let upper = L.lacks-lower b'S' output (omega arith) (omega arith) in
      let absent = contains_text-lacks b'S' "<<SYS>>" (L.lower output) refl upper in rw absent refl

  -- With sanitization switched on, every output is valid, however many issues it has, and what is
  -- handed on as sanitized is the output itself.
  pub sanitize_accepts :
      (v : OutputValidator) (r : ToolResult X)
      → v.sanitize_html ≡ true
      → ((validate X L v r).valid ≡ true)
        × (((validate X L v r).sanitized_output ≡ none)
            ⊎ ((validate X L v r).sanitized_output ≡ some r.output))
  unfolding validate
  sanitize_accepts v r h = elim (Bool-cases (is_empty (find_issues X L v r.output))) [
    | inl e ↦ rw (e, validate) (ground arith)
    | inr e ↦ rw (e, validate, h) (refl, inr (ap some (sanitize_lem r.output)))
  ]

  issues_empty :
      (v : OutputValidator) (output : String)
      → is_empty (find_issues X L v output) ≡ (
          not (ltb v.max_output_size (byte_length output))
          && not (
              v.detect_injection && any (λ p. contains_text p (L.lower output)) injection_patterns))
  unfolding find_issues
  issues_empty v output =
      let flagged = flag_patterns-is_empty injection_patterns (L.lower output) in
      elim (Bool-cases (ltb v.max_output_size (byte_length output))) [
        | inl e ↦ rw (e, find_issues) refl
        | inr e ↦ elim (Bool-cases v.detect_injection) [
          | inl f ↦ rw (e, find_issues, f) flagged
          | inr f ↦ rw (e, find_issues, f) refl
        ]
      ]

  -- Without sanitization, an output is valid exactly if it is no longer than the limit, in bytes,
  -- and, where injections are looked for, contains none of the patterns in lower case.
  pub valid_iff :
      (v : OutputValidator) (r : ToolResult X)
      → v.sanitize_html ≡ false
      → ((validate X L v r).valid ≡ true) ↔ (
          (byte_length r.output ≤ v.max_output_size)
          × ((v.detect_injection
                && any (λ p. contains_text p (L.lower r.output)) injection_patterns)
              ≡ false))
  unfolding validate
  valid_iff v r h =
      let found = issues_empty v r.output in
      let bad =
        v.detect_injection && any (λ p. contains_text p (L.lower r.output)) injection_patterns in
      rw (found, validate, h) (verdict_iff v.max_output_size (byte_length r.output) bad)
