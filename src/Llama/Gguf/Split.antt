-- ===== src/Llama/Gguf/Split.antt =====
-- `detect_split` of crates/tiny-mite-llama-cpp/src/gguf.rs: the parts of a model by its file name.
use tiny_mite.Prelude.{
  ℕ, ◌+◌, ◌-◌, ◌*◌, ◌&&◌, String, Option, none, some, List, length, drop, split_first, ltb, leb,
  ◌==◌, if◌then◌else◌, split_text, string_eq,
}
use Prim.Native.Char.{code}

-- `str::parse::<u32>`: digits with an optional plus sign, at most `u32::MAX`.
unfoldable pub parse_digits : ℕ → String → Option ℕ
parse_digits acc String.[] = some acc
parse_digits acc (String.◌∷◌ c s) =
    let next = acc * 10 + (code c - 48) in
    let rest = parse_digits next s in
    if leb 48 (code c) && leb (code c) 57 && leb next 4294967295 then rest else none

unfoldable pub parse_unsigned : String → Option ℕ
parse_unsigned String.[] = none
parse_unsigned (String.◌∷◌ c s) = parse_digits 0 (String.◌∷◌ c s)

unfoldable pub parse_u32 : String → Option ℕ
parse_u32 String.[] = none
parse_u32 (String.◌∷◌ c s) =
    if code c == b'+' then parse_unsigned s else parse_unsigned (String.◌∷◌ c s)

-- `trim_end_matches` of a text.
unfoldable pub trim_suffix : String → String → String
trim_suffix p String.[] = String.[]
trim_suffix p (String.◌∷◌ c s) =
    let rest = String.◌∷◌ c (trim_suffix p s) in if string_eq.beq rest p then "" else rest

-- `parts[i]`.
unfoldable pub part_at : List String → ℕ → String
part_at parts i = elim (split_first (drop i parts)) [ none ↦ "" | some (part, _) ↦ part ]

unfoldable pub detect_split : String → Option ℕ × Option ℕ
detect_split file_name =
    let parts = split_text b'-' file_name in
    if ltb (length parts) 4
    then (none, none)
    else (elim (parse_u32 (part_at parts (length parts - 3))) [
      | none ↦ (none, none)
      | some idx ↦ elim (parse_u32 (trim_suffix ".gguf" (part_at parts (length parts - 1)))) [
        | none ↦ (none, none)
        | some total ↦ (some total, some (idx - 1))
      ]
    ])
