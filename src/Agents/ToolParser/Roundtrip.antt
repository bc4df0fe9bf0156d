-- ===== src/Agents/ToolParser/Roundtrip.antt =====
-- Calls that are written as blocks are read back.
use tiny_mite.Agents.ToolParser.{ParsedToolCall, Serde}
use tiny_mite.Prelude.{◌≡◌, true, String, some, List, [], ◌∷◌, lacks, concat, trim, All}

module _ (J : Serde) where
  -- The text stands for the arguments of the call: `serde_json` reads it, and neither it nor the
  -- name has white space around it, an angle bracket or a back quote.
  pub record WrittenAs (c : ParsedToolCall) (a : String) : Type 0 where
    pub reads : J.strings a ≡ some c.args
    pub trimmed : trim a ≡ a
    pub name_trimmed : trim c.name ≡ c.name
    pub no_bracket : lacks b'<' a ≡ true
    pub name_no_bracket : lacks b'<' c.name ≡ true
    pub no_quote : lacks b'`' a ≡ true
    pub name_no_quote : lacks b'`' c.name ≡ true

-- A block in front of a text, with the name and the text of the arguments.
abbrev pub block : String → String → String → String
block name a tail =
    concat "<tool_call><name>"
      (concat name (concat "</name><args>" (concat a (concat "</args></tool_call>" tail))))

abbrev pub body_of : String → String → String
body_of name a = concat "<name>" (concat name (concat "</name><args>" (concat a "</args>")))

-- Blocks one behind the other; each call stands with the text of its arguments.
unfoldable pub write_calls : List (ParsedToolCall × String) → String
write_calls [] = ""
write_calls ((c, a) ∷ ws) = block c.name a (write_calls ws)

module _ (J : Serde) where
  abbrev pub AllWritten : List (ParsedToolCall × String) → Type 0
  AllWritten = All (λ p. WrittenAs J p.0 p.1)
