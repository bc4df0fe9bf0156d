-- ===== src/Agents/ToolParser.antt =====
-- crates/tiny-mite-agents/src/tool_parser.rs: how tool calls are read from a model's answer.
pub mod Brackets
pub mod Fallbacks
pub mod Loop
pub mod Names
pub mod Roundtrip
use tiny_mite.Agents.ToolParser.Brackets.{matched}
use mathlib.Core.Option
use Prim.Native.Char.{code}
use tiny_mite.Prelude.{
  ℕ, zero, suc, Bool, true, false, not, ◌||◌, ◌==◌, ◌===◌, string_eq, if◌then◌else◌, is_some,
  unwrap_or, or_else, String, Option, some, none, List, [], ◌∷◌, ◌++◌, map, retain, concat, cut,
  contains_text, remove_all, trim, trim_matches, split_text, text_length, contains,
}

-- `ParsedToolCall`.
pub record ParsedToolCall : Type 0 where
  pub name : String
  pub args : List String

-- `serde_json` on the texts and values that the parser reads: `from_str` at three types, `get`,
-- `as_str` and `as_object`, whose `get` is that of the value.
pub record Serde : Type 1 where
  pub Value : Type 0
  pub strings : String → Option (List String)
  pub value : String → Option Value
  pub values : String → Option (List Value)
  pub field : String → Value → Option Value
  pub as_str : Value → Option String
  pub is_object : Value → Bool

-- `format!("<{tag}>")` and `format!("</{tag}>")`.
abbrev pub open_tag : String → String
open_tag tag = concat "<" (concat tag ">")

abbrev pub close_tag : String → String
close_tag tag = concat "</" (concat tag ">")

-- The first text between the two tags, and what stands behind them.
unfoldable pub between : String → String → String → Option (String × String)
between start end text = elim (cut start text) [ none ↦ none | some (_, after) ↦ cut end after ]

unfoldable pub extract_xml_content : String → String → Option String
extract_xml_content text tag =
    Option.map (λ (p : String × String). p.0) (between (open_tag tag) (close_tag tag) text)

-- The names that `find_direct_tool_name` knows, with their canonical forms.
abbrev pub known_names : List (String × String)
known_names =
    ("write_file", "write_file")
    ∷ ("file_write", "write_file")
    ∷ ("read_file", "read_file")
    ∷ ("file_read", "read_file")
    ∷ ("shell", "shell")
    ∷ ("bash", "shell")
    ∷ ("compile", "compile")
    ∷ ("run_tests", "run_tests")
    ∷ ("search", "search")
    ∷ ("list_files", "list_files")
    ∷ []

unfoldable pub first_known : String → List (String × String) → Option String
first_known body [] = none
first_known body ((tag, canonical) ∷ known) =
    let rest = first_known body known in
    if contains_text (concat "<" tag) body then some canonical else rest

unfoldable pub find_direct_tool_name : String → Option String
unfolding first_known
find_direct_tool_name body = first_known body known_names

unfoldable pub first_args : String → List (String × String) → String
first_args body [] = ""
first_args body ((tag, _) ∷ known) = elim (extract_xml_content body tag) [
  | some args ↦ trim args
  | none ↦ first_args body known
]

unfoldable pub extract_direct_tool_args : String → String
unfolding first_args
extract_direct_tool_args body = first_args body known_names

-- The tags of the direct format, with the names they stand for.
abbrev pub direct_names : List (String × String)
direct_names =
    ("write_file", "write_file")
    ∷ ("read_file", "read_file")
    ∷ ("shell", "shell")
    ∷ ("compile", "compile")
    ∷ ("run_tests", "run_tests")
    ∷ ("search", "search")
    ∷ ("file_write", "write_file")
    ∷ ("file_read", "read_file")
    ∷ ("bash", "shell")
    ∷ []

-- The characters that surround the arguments of a plain list.
abbrev pub is_bracket : ℕ → Bool
is_bracket c = c == b'[' || c == b']' || c == b'"'

abbrev pub is_quote : ℕ → Bool
is_quote c = c == b'"'

module _ (J : Serde) where
  unfoldable pub parse_args_string : String → List String
  parse_args_string raw = elim (J.strings (trim raw)) [
    | some args ↦ args
    | none ↦
        retain (λ s. not (s === ""))
          (map (λ s. trim_matches is_quote (trim s))
            (split_text b',' (trim_matches is_bracket (trim raw))))
  ]

  -- The call in the body of a `<tool_call>` block.
  unfoldable pub body_call : String → ParsedToolCall
  body_call body = record {
    name = elim (extract_xml_content body "name") [
      | some n ↦ trim n
      | none ↦ unwrap_or (find_direct_tool_name body) "unknown"
    ];
    args = parse_args_string (elim (extract_xml_content body "args") [
      | some a ↦ trim a
      | none ↦ extract_direct_tool_args body
    ]);
  }

  -- The loop over the blocks: the calls, and the text behind the last block. The number bounds the
  -- rounds.
  unfoldable pub tagged_calls : ℕ → String → List ParsedToolCall × String
  tagged_calls zero rest = ([], rest)
  tagged_calls (suc n) rest = elim (between "<tool_call>" "</tool_call>" rest) [
    | none ↦ ([], rest)
    | some (body, after) ↦ let more = tagged_calls n after in (body_call body ∷ more.0, more.1)
  ]

  -- The loop over the direct tags: each is looked for in what the ones before it have left.
  unfoldable pub direct_calls : List (String × String) → String → List ParsedToolCall × String
  direct_calls [] rest = ([], rest)
  direct_calls ((tag, name) ∷ known) rest = elim (between (open_tag tag) (close_tag tag) rest) [
    | none ↦ direct_calls known rest
    | some (body, after) ↦
        let more = direct_calls known after in
        (record { name = name; args = parse_args_string (trim body) } ∷ more.0, more.1)
  ]
