-- ===== src/Domain/Ids.antt =====
-- crates/tiny-mite-domain/src/id.rs: the identifiers that the macro `typed_id!` declares.
use tiny_mite.Crates.{Crates}
use tiny_mite.Prelude.{
  ◌≡◌, String, Option, some, concat, strip_prefix, strip_prefix-concat, unwrap_or,
}

module _ (X : Crates) where
  open X use {Uuid, uuid_text, parse_str}

  -- `impl Display` of the identifiers with the given prefix.
  unfoldable pub id_text : String → Uuid → String
  id_text prefix u = concat (concat prefix "_") (uuid_text u)

  -- `impl TryFrom<&str>`: the prefix is optional.
  unfoldable pub id_of_text : String → String → Option Uuid
  id_of_text prefix s = parse_str (unwrap_or (strip_prefix (concat prefix "_") s) s)

  -- Every identifier is read back from its text, whatever the prefix of its type.
  pub id_of_text-id_text :
      (prefix : String) (u : Uuid) → id_of_text prefix (id_text prefix u) ≡ some u
  unfolding id_of_text id_text
  id_of_text-id_text prefix u =
      rw (strip_prefix-concat (concat prefix "_") (uuid_text u), id_of_text, id_text)
        (X.parse_str-uuid_text u)
