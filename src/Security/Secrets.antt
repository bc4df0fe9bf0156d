-- ===== src/Security/Secrets.antt =====
-- crates/tiny-mite-security/src/secrets.rs: secrets, how they are printed, and the store of secrets.
-- The clearing of the memory on drop has no counterpart here.
pub mod Redaction
use tiny_mite.Prelude.{
  ℕ, String, Option, some, none, List, [], ◌∷◌, concat, lookup, insert, remove, length, string_eq,
}

pub record Secret : Type 0 where
  pub value : String
  pub label : String

abbrev pub new_secret : String → String → Secret
new_secret value label = record { value = value; label = label }

unfoldable pub expose : Secret → String
expose s = s.value

-- `impl Display`.
unfoldable pub display_secret : Secret → String
display_secret s = concat "Secret(" (concat s.label ")")

-- `impl Serialize`.
unfoldable pub serialize_secret : Secret → String
serialize_secret s = "***REDACTED***"

-- `impl Deserialize`, from the text that is read.
unfoldable pub deserialize_secret : String → Secret
deserialize_secret raw = record { value = raw; label = "deserialized_secret" }

-- `SecretStore`: the secrets by key, as a `HashMap` has them.
abbrev pub SecretStore : Type 0
SecretStore = List (String × Secret)

unfoldable pub set_secret : String → String → String → SecretStore → SecretStore
set_secret key value label m = insert key (new_secret value label) m

unfoldable pub get_secret : String → SecretStore → Option Secret
get_secret key m = lookup key m

-- `remove` returns the secret, too.
unfoldable pub remove_secret : String → SecretStore → Option Secret × SecretStore
remove_secret key m = (lookup key m, remove key m)

unfoldable pub count_secrets : SecretStore → ℕ
count_secrets m = length m

-- `Debug` of the standard library: of a text, and of a map whose values are printed already.
module _ (debug_text : String → String) (debug_map : List (String × String) → String) where
  -- `impl Debug for Secret`.
  unfoldable pub debug_secret : Secret → String
  debug_secret s = concat "Secret { label: " (concat (debug_text s.label) " }")

  -- The entries in the order in which the iterator of the map visits their keys.
  unfoldable pub debug_entries : List String → SecretStore → List (String × String)
  debug_entries [] m = []
  debug_entries (k ∷ order) m =
      let rest = debug_entries order m in
      elim (lookup k m) [ none ↦ rest | some s ↦ (k, debug_secret s) ∷ rest ]

  -- `derive(Debug)` on the store. The order of a `HashMap` is that of the instance: two maps with the
  -- same keys may be visited in different orders.
  unfoldable pub debug_store : List String → SecretStore → String
  debug_store order m =
      concat "SecretStore { secrets: " (concat (debug_map (debug_entries order m)) " }")
