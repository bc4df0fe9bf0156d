-- ===== src/Security/Validation.antt =====
-- crates/tiny-mite-security/src/validation.rs: the validation of what a tool returns.
pub mod Markers
use Prim.Native.Char.{code}
use Prim.Native.String
use tiny_mite.Crates.{Crates}
use tiny_mite.Tools.Definition.{ToolResult}
use tiny_mite.Prelude.{
  byte_length, ℕ, ◌+◌, ◌≡◌, ◌≤◌, Bool, true, false, not, ◌&&◌, ◌||◌, String, Option, some, none,
  List, [], ◌∷◌, ◌++◌, ltb, ◌==◌, if◌then◌else◌, concat, contains_text, lacks,
}

-- `str::to_lowercase`, which leaves no capital letter of ASCII, and `usize`'s `Display`.
pub record Lowercase : Type 0 where
  pub lower : String → String
  pub number_text : ℕ → String
  pub lacks-lower : (b : ℕ) (s : String) → 65 ≤ b → b ≤ 90 → lacks b (lower s) ≡ true

-- `replace` of a character by a text.
unfoldable pub replace_char : ℕ → String → String → String
replace_char b new String.[] = String.[]
replace_char b new (String.◌∷◌ c s) =
    let rest = replace_char b new s in if code c == b then concat new rest else String.◌∷◌ c rest

pub record ValidationResult : Type 0 where
  pub valid : Bool
  pub issues : List String
  pub sanitized : Bool
  pub sanitized_output : Option String

pub record OutputValidator : Type 0 where
  pub max_output_size : ℕ
  pub detect_injection : Bool
  pub sanitize_html : Bool

-- `OutputValidator::new`.
abbrev pub new_validator : OutputValidator
new_validator = record { max_output_size = 1000000; detect_injection = true; sanitize_html = false }

unfoldable pub with_max_size : OutputValidator → ℕ → OutputValidator
with_max_size v bytes = record v { max_output_size = bytes }

abbrev pub injection_patterns : List String
injection_patterns =
    "ignore all previous instructions" ∷ "ignore previous instructions" ∷ "you are now"
    ∷ "forget everything" ∷ "system prompt:" ∷ "<<SYS>>" ∷ "<|im_start|>system" ∷ []

-- The loop over the patterns, on the text in lower case.
unfoldable pub flag_patterns : List String → String → List String
flag_patterns [] lowered = []
flag_patterns (pattern ∷ patterns) lowered =
    let rest = flag_patterns patterns lowered in
    if contains_text pattern lowered
    then concat "Potential prompt injection detected: '" (concat pattern "'") ∷ rest
    else rest

abbrev pub is_empty : List String → Bool
is_empty [] = true
is_empty (_ ∷ _) = false

-- The replacements of the sanitization, as the source writes them.
unfoldable pub sanitize : String → String
sanitize output = replace_char b'>' ">" (replace_char b'<' "<" output)

module _ (X : Crates) (L : Lowercase) where
  unfoldable pub find_issues : OutputValidator → String → List String
  find_issues v output =
      (if ltb v.max_output_size (byte_length output)
        then concat "Output too large: " (
            concat (L.number_text (byte_length output))
              (concat " bytes (max " (concat (L.number_text v.max_output_size) ")")))
          ∷ []
        else [])
      ++ (if v.detect_injection then flag_patterns injection_patterns (L.lower output) else [])

  unfoldable pub validate : OutputValidator → ToolResult X → ValidationResult
  validate v r =
      let issues = find_issues v r.output in
      let sanitized = v.sanitize_html && not (is_empty issues) in
      record {
        valid = is_empty issues || sanitized;
        issues = issues;
        sanitized = sanitized;
        sanitized_output = if sanitized then some (sanitize r.output) else none;
      }
