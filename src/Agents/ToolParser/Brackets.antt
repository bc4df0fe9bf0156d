-- ===== src/Agents/ToolParser/Brackets.antt =====
-- crates/tiny-mite-agents/src/tool_parser.rs: the walk to the matching bracket, which the program
-- writes out three times.
pub mod Whole
use Prim.Native.Char.{code}
use tiny_mite.Prelude.{
  ℕ, ◌+◌, ◌-◌, Bool, true, false, not, ◌==◌, if◌then◌else◌, String, Option, some, none, concat,
}
use mathlib.Core.Option
use Prim.Native.String

-- The state of the walk.
pub record Walk : Type 0 where
  pub depth : ℕ
  pub in_string : Bool
  pub escaped : Bool

-- One character, given by its code; the flag says that the matching bracket is read. The depth
-- starts at 0 before the opening bracket, so it is never decreased at 0.
unfoldable pub step_walk : ℕ → ℕ → Walk → ℕ → Walk × Bool
step_walk left right w c =
    if w.escaped
    then (record w { escaped = false }, false)
    else if c == b'\\'
    then (if w.in_string then (record w { escaped = true }, false) else (w, false))
    else if c == b'"'
    then (record w { in_string = not w.in_string }, false)
    else if w.in_string
    then (w, false)
    else if c == left
    then (record w { depth = w.depth + 1 }, false)
    else if c == right
    then (record w { depth = w.depth - 1 }, w.depth - 1 == 0)
    else (w, false)

-- The text up to the matching bracket, that one included.
unfoldable pub walk : ℕ → ℕ → Walk → String → Option String
walk left right w String.[] = none
walk left right w (String.◌∷◌ c s) =
    let next = step_walk left right w (code c) in
    elim next.1 [
      | true ↦ some (String.◌∷◌ c String.[])
      | false ↦ Option.map (String.◌∷◌ c) (walk left right next.0 s)
    ]

abbrev pub matched : ℕ → ℕ → String → Option String
matched left right = walk left right (record { depth = 0; in_string = false; escaped = false })
