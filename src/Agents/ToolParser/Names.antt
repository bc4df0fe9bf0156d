-- ===== src/Agents/ToolParser/Names.antt =====
-- The canonical names of tools, and the arguments that a call needs.
use tiny_mite.Agents.ToolParser.{ParsedToolCall, Serde}
use tiny_mite.Agents.ToolParser.Fallbacks.{
  rename, json_arms, openai_arms, json_name, openai_name, call_with, try_json_tool_call,
  openai_calls, try_openai_function_call, text_field, find_from, entry_args, json_args,
}
use tiny_mite.Agents.ToolParser.Brackets.{matched}
use tiny_mite.Prelude.{
  ◌≡◌, refl, ap, ◌⊎◌, Bool, true, false, String, Option, some, none, List, [], ◌∷◌, arith, all,
  all-append, IsIn, here, there, not_in_nil, IsIn-cases, inl, inr, ◌===◌, string_eq, eq_iff,
  contains, Bool-cases, Option-cases, or_else,
}

rename-cases :
    (arms : List (List String × String)) (s : String)
    → (rename arms s ≡ s) ⊎ ((e : List String × String) × IsIn e arms × (rename arms s ≡ e.1))
rename-cases [] s = inl refl
rename-cases ((names, canonical) ∷ arms) s = elim (Bool-cases (contains names s)) [
  | inl e ↦ inr ((names, canonical), here refl, rw e refl)
  | inr e ↦ elim (rename-cases arms s) [
    | inl same ↦ inl (rw e same)
    | inr (a, m, f) ↦ inr (a, there m, rw e f)
  ]
]

-- Every canonical name stands for itself.
abbrev closed : List (List String × String) → List (List String × String) → Bool
closed arms part = all (λ e. rename arms e.1 === e.1) part

closed_at :
    (arms part : List (List String × String)) (e : List String × String)
    → closed arms part ≡ true
    → IsIn e part
    → rename arms e.1 ≡ e.1
closed_at arms [] e h m = absurd (not_in_nil m)
closed_at arms (a ∷ part) e h m = elim (IsIn-cases m) [
  | inl same ↦ rw same ((eq_iff (rename arms a.1) a.1).0 (ground arith))
  | inr later ↦ closed_at arms part e (ground arith) later
]

rename-rename :
    (arms : List (List String × String)) (s : String)
    → closed arms arms ≡ true
    → rename arms (rename arms s) ≡ rename arms s
rename-rename arms s h = elim (rename-cases arms s) [
  | inl same ↦ ap (rename arms) same
  | inr (e, m, f) ↦ rw f (closed_at arms arms e h m)
]

-- The name that either JSON format gives a tool is canonical: it is given itself.
pub names_canonical :
    (s : String)
    → (json_name (json_name s) ≡ json_name s) × (openai_name (openai_name s) ≡ openai_name s)
unfolding json_name openai_name
names_canonical s = (rename-rename json_arms s refl, rename-rename openai_arms s refl)

abbrev pub has_args : ParsedToolCall → Bool
has_args c = elim c.args [ [] ↦ false | _ ∷ _ ↦ true ]

module _ (J : Serde) where
  call_with_args : (name : String) (xs : List String) → all has_args (call_with name xs) ≡ true
  call_with_args name [] = refl
  call_with_args name (x ∷ xs) = refl

  openai_calls_args : (es : List J.Value) → all has_args (openai_calls J es) ≡ true
  unfolding openai_calls
  openai_calls_args [] = refl
  openai_calls_args (e ∷ es) = elim (Option-cases (text_field J "name" e)) [
    | inl f ↦ rw (f, openai_calls) (openai_calls_args es)
    | inr (n, f) ↦
        rw
          (
            f,
            openai_calls,
            all-append has_args (call_with (openai_name n) (entry_args J e)) (openai_calls J es),
            call_with_args (openai_name n) (entry_args J e),
          )
          (openai_calls_args es)
  ]

  json_object_args :
      (v : Option J.Value)
      → all has_args (elim v [
        | none ↦ []
        | some parsed ↦ elim (text_field J "tool" parsed) [
          | none ↦ []
          | some tool_name ↦ call_with (json_name tool_name) (json_args J parsed)
        ]
      ])
        ≡ true
  json_object_args none = refl
  json_object_args (some v) = elim (Option-cases (text_field J "tool" v)) [
    | inl e ↦ rw e refl
    | inr (n, e) ↦ rw e (call_with_args (json_name n) (json_args J v))
  ]

  -- Neither JSON format gives a call without arguments, whatever the model has written.
  pub json_calls_have_args :
      (text : String)
      → (all has_args (try_json_tool_call J text) ≡ true)
        × (all has_args (try_openai_function_call J text) ≡ true)
  unfolding try_json_tool_call try_openai_function_call
  json_calls_have_args text = (
    elim (Option-cases (or_else (find_from "{\"tool\"" text) (find_from "{ \"tool\"" text))) [
      | inl e ↦ rw (e, try_json_tool_call) refl
      | inr (r, e) ↦ elim (Option-cases (matched b'{' b'}' r)) [
        | inl f ↦ rw (e, try_json_tool_call, f) refl
        | inr (j, f) ↦ rw (e, try_json_tool_call, f) (json_object_args (J.value j))
      ]
    ],
    elim (Option-cases (or_else (find_from "[{\"name\"" text) (find_from "[{ \"name\"" text))) [
      | inl e ↦ rw (e, try_openai_function_call) refl
      | inr (r, e) ↦ elim (Option-cases (matched b'[' b']' r)) [
        | inl f ↦ rw (e, try_openai_function_call, f) refl
        | inr (j, f) ↦ elim (Option-cases (J.values j)) [
          | inl g ↦ rw (e, try_openai_function_call, f, g) refl
          | inr (es, g) ↦ rw (e, try_openai_function_call, f, g) (openai_calls_args es)
        ]
      ]
    ],
  )
