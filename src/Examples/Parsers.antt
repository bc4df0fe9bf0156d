-- ===== src/Examples/Parsers.antt =====
-- The parser of tool calls at concrete texts, with a JSON library that knows one array.
use tiny_mite.Agents.ToolParser.{ParsedToolCall, Serde, between, tagged_calls}
use tiny_mite.Agents.ToolParser.Brackets.{step_walk, walk, matched}
use tiny_mite.Agents.ToolParser.Loop.{tagged_calls-stops}
use tiny_mite.Prelude.{
  ◌≡◌, refl, true, String, some, none, [], ◌∷◌, arith, ◌===◌, string_eq, if◌then◌else◌, text_length,
}

abbrev one_array : Serde
one_array = record {
  Value = String;
  strings = λ s. if s === "[\"a.rs\"]" then some ("a.rs" ∷ []) else none;
  value = λ s. some s;
  values = λ s. some (s ∷ []);
  field = λ k v. if k === "tool" then some "ls" else if k === "path" then some "." else none;
  as_str = λ v. some v;
  is_object = λ v. true;
}

abbrev read_call : ParsedToolCall
read_call = record { name = "read_file"; args = "a.rs" ∷ [] }

abbrev two_blocks : String
two_blocks = "<tool_call><name>ls</name></tool_call> and <tool_call>[</tool_call> or <tool_call>"

tagged_calls-stops_example :
    between "<tool_call>" "</tool_call>"
      (tagged_calls one_array (text_length two_blocks) two_blocks).1
    ≡ none
tagged_calls-stops_example =
    tagged_calls-stops one_array (text_length two_blocks) two_blocks (omega arith)

nested_matched : matched b'[' b']' "[1,[\"]\"]] tail" ≡ some "[1,[\"]\"]]"
unfolding walk step_walk
nested_matched = refl
