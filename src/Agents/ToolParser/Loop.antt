-- ===== src/Agents/ToolParser/Loop.antt =====
-- The loop over the blocks of tool calls ends by itself.
use tiny_mite.Agents.ToolParser.{Serde, between, tagged_calls}
use tiny_mite.Prelude.{
  ℕ, zero, suc, ◌+◌, ◌≤◌, ◌≡◌, String, some, none, arith, Option-cases, inl, inr, cut, cut-length,
  text_length,
}

between-length :
    (start end s body after : String)
    → between start end s ≡ some (body, after)
    → text_length after + text_length start ≤ text_length s
unfolding between
between-length start end s body after h = elim (Option-cases (cut start s)) [
  | inl e ↦ ground arith
  | inr ((a, b), e) ↦
      omega (arith, cut-length start s a b e, cut-length end b body after (ground arith))
]

module _ (J : Serde) where
  -- With a bound of at least the length of the text, the loop over the blocks stops because no
  -- block is left, never because of the bound.
  pub tagged_calls-stops :
      (n : ℕ) (s : String)
      → text_length s ≤ n
      → between "<tool_call>" "</tool_call>" (tagged_calls J n s).1 ≡ none
  unfolding tagged_calls
  tagged_calls-stops zero s h = elim (Option-cases (between "<tool_call>" "</tool_call>" s)) [
    | inl e ↦ e
    | inr ((body, after), e) ↦
        absurd (omega (arith, between-length "<tool_call>" "</tool_call>" s body after e))
  ]
  tagged_calls-stops (suc n) s h = elim (Option-cases (between "<tool_call>" "</tool_call>" s)) [
    | inl e ↦ rw (e, tagged_calls) e
    | inr ((body, after), e) ↦
        let shorter = between-length "<tool_call>" "</tool_call>" s body after e in
        rw (e, tagged_calls) (tagged_calls-stops n after (omega (arith, shorter)))
  ]
