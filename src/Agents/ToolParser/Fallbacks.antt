-- ===== src/Agents/ToolParser/Fallbacks.antt =====
-- crates/tiny-mite-agents/src/tool_parser.rs: the formats that are tried when no tag is found, and
-- `parse_tool_calls`.
use tiny_mite.Agents.ToolParser.{ParsedToolCall, Serde, tagged_calls, direct_names, direct_calls}
use tiny_mite.Agents.ToolParser.Brackets.{matched}
use mathlib.Core.Option
use tiny_mite.Prelude.{
  string_eq, if◌then◌else◌, or_else, String, Option, some, none, List, [], ◌∷◌, ◌++◌, concat, cut,
  remove_all, text_length, contains,
}

-- The text from the first place of the needle on.
unfoldable pub find_from : String → String → Option String
find_from n text = Option.map (λ (p : String × String). concat n p.1) (cut n text)

-- `find_json_array`.
unfoldable pub find_json_array : String → Option String
find_json_array text = elim (find_from "[" text) [
  | none ↦ none
  | some remaining ↦ matched b'[' b']' remaining
]

-- The patterns of `fuzzy_parse`, with their canonical names.
abbrev pub patterns : List (String × String)
patterns =
    ("write_file", "write_file")
    ∷ ("file_write", "write_file")
    ∷ ("read_file", "read_file")
    ∷ ("file_read", "read_file")
    ∷ ("shell", "shell")
    ∷ ("bash", "shell")
    ∷ ("compile", "compile")
    ∷ ("run_tests", "run_tests")
    ∷ ("search", "search")
    ∷ ("list_files", "list_files")
    ∷ []

-- A `match` on the name of a tool: the alternatives of an arm, and its canonical name; every other
-- name stays.
abbrev pub rename : List (List String × String) → String → String
rename [] s = s
rename ((names, canonical) ∷ arms) s =
    let rest = rename arms s in if contains names s then canonical else rest

-- The arms of `try_json_tool_call`.
abbrev pub json_arms : List (List String × String)
json_arms =
    ("file_write" ∷ "write_file" ∷ [], "write_file")
    ∷ ("file_read" ∷ "read_file" ∷ [], "read_file")
    ∷ ("shell" ∷ "bash" ∷ "execute" ∷ "run" ∷ [], "shell")
    ∷ ("compile" ∷ "build" ∷ [], "compile")
    ∷ ("test" ∷ "run_tests" ∷ "pytest" ∷ [], "run_tests")
    ∷ ("search" ∷ "find" ∷ "grep" ∷ [], "search")
    ∷ ("ls" ∷ "list" ∷ "list_files" ∷ "dir" ∷ [], "list_files")
    ∷ []

-- The arms of `try_openai_function_call`.
abbrev pub openai_arms : List (List String × String)
openai_arms =
    ("file_write" ∷ "write_file" ∷ "writeFile" ∷ [], "write_file")
    ∷ ("file_read" ∷ "read_file" ∷ "readFile" ∷ [], "read_file")
    ∷ ("shell" ∷ "bash" ∷ "execute" ∷ "run" ∷ "runCommand" ∷ [], "shell")
    ∷ ("compile" ∷ "build" ∷ [], "compile")
    ∷ ("test" ∷ "run_tests" ∷ "runTests" ∷ "pytest" ∷ [], "run_tests")
    ∷ ("search" ∷ "find" ∷ "grep" ∷ "searchCode" ∷ [], "search")
    ∷ ("ls" ∷ "list" ∷ "list_files" ∷ "listFiles" ∷ "dir" ∷ [], "list_files")
    ∷ ("git" ∷ "git_status" ∷ "gitStatus" ∷ [], "git_status")
    ∷ []

unfoldable pub json_name : String → String
json_name s = rename json_arms s

unfoldable pub openai_name : String → String
openai_name s = rename openai_arms s

-- `if let Some(v) = v { args.push(v) }`.
abbrev pub push_some : Option String → List String
push_some none = []
push_some (some v) = v ∷ []

-- `if calls.is_empty()`.
abbrev pub or_calls : List ParsedToolCall → List ParsedToolCall → List ParsedToolCall
or_calls [] later = later
or_calls (c ∷ cs) later = c ∷ cs

-- The removal of the code fences.
unfoldable pub strip_fences : String → String
strip_fences text =
    remove_all "```" (remove_all "\n```" (remove_all "```json" (remove_all "```json\n" text)))

-- A call without arguments is no call.
abbrev pub call_with : String → List String → List ParsedToolCall
call_with name [] = []
call_with name (a ∷ as') = record { name = name; args = a ∷ as' } ∷ []

module _ (J : Serde) where
  -- The first pattern with a readable array behind its first place.
  unfoldable pub fuzzy_calls : List (String × String) → String → List ParsedToolCall
  fuzzy_calls [] text = []
  fuzzy_calls ((tool, name) ∷ more) text = elim (cut tool text) [
    | none ↦ fuzzy_calls more text
    | some (_, after_tool) ↦ elim (find_json_array after_tool) [
      | none ↦ fuzzy_calls more text
      | some array ↦ elim (J.strings array) [
        | none ↦ fuzzy_calls more text
        | some args ↦ record { name = name; args = args } ∷ []
      ]
    ]
  ]

  unfoldable pub fuzzy_parse : String → List ParsedToolCall
  unfolding fuzzy_calls
  fuzzy_parse text = fuzzy_calls patterns text

  -- `get(key).and_then(|v| v.as_str())`.
  unfoldable pub text_field : String → J.Value → Option String
  text_field k v = elim (J.field k v) [ none ↦ none | some w ↦ J.as_str w ]

  -- `get(a).or_else(|| get(b)).and_then(|v| v.as_str())`.
  unfoldable pub either_field : String → String → J.Value → Option String
  either_field a b v = elim (or_else (J.field a v) (J.field b v)) [
    | none ↦ none
    | some w ↦ J.as_str w
  ]

  unfoldable pub json_args : J.Value → List String
  json_args v =
      push_some (text_field "path" v)
      ++ push_some (text_field "content" v)
      ++ push_some (either_field "command" "cmd" v)
      ++ push_some (either_field "query" "pattern" v)

  unfoldable pub try_json_tool_call : String → List ParsedToolCall
  try_json_tool_call text =
      elim (or_else (find_from "{\"tool\"" text) (find_from "{ \"tool\"" text)) [
        | none ↦ []
        | some remaining ↦ elim (matched b'{' b'}' remaining) [
          | none ↦ []
          | some json_str ↦ elim (J.value json_str) [
            | none ↦ []
            | some parsed ↦ elim (text_field "tool" parsed) [
              | none ↦ []
              | some tool_name ↦ call_with (json_name tool_name) (json_args parsed)
            ]
          ]
        ]
      ]

  unfoldable pub openai_args : J.Value → List String
  openai_args m =
      push_some
        (or_else (text_field "path" m) (or_else (text_field "file" m) (text_field "filename" m)))
      ++ push_some
          (or_else (text_field "content" m) (or_else (text_field "text" m) (text_field "data" m)))
      ++ push_some (either_field "command" "cmd" m)
      ++ push_some (either_field "query" "pattern" m)

  -- The arguments of an entry; those that are no object are none.
  unfoldable pub entry_args : J.Value → List String
  entry_args entry = elim (or_else (J.field "arguments" entry) (J.field "args" entry)) [
    | none ↦ []
    | some m ↦ if J.is_object m then openai_args m else []
  ]

  unfoldable pub openai_calls : List J.Value → List ParsedToolCall
  openai_calls [] = []
  openai_calls (entry ∷ entries) =
      let rest = openai_calls entries in
      elim (text_field "name" entry) [
        | none ↦ rest
        | some tool_name ↦ call_with (openai_name tool_name) (entry_args entry) ++ rest
      ]

  unfoldable pub try_openai_function_call : String → List ParsedToolCall
  try_openai_function_call text =
      elim (or_else (find_from "[{\"name\"" text) (find_from "[{ \"name\"" text)) [
        | none ↦ []
        | some remaining ↦ elim (matched b'[' b']' remaining) [
          | none ↦ []
          | some json_str ↦ elim (J.values json_str) [
            | none ↦ []
            | some entries ↦ openai_calls entries
          ]
        ]
      ]

  -- The direct tags are tried if there is no block.
  unfoldable pub tag_calls : String → List ParsedToolCall × String
  tag_calls cleaned =
      let blocks = tagged_calls J (text_length cleaned) cleaned in
      elim blocks.0 [ [] ↦ direct_calls J direct_names blocks.1 | _ ∷ _ ↦ blocks ]

  unfoldable pub parse_tool_calls : String → List ParsedToolCall
  parse_tool_calls text =
      let tags = tag_calls (strip_fences text) in
      or_calls tags.0 (
        or_calls (fuzzy_parse text)
          (or_calls (try_json_tool_call tags.1) (try_openai_function_call tags.1)))
