-- ===== src/Tools/Registry.antt =====
-- crates/tiny-mite-tools/src/registry.rs: the tool registry.
use tiny_mite.Crates.{Crates}
use tiny_mite.Tools.Definition.{ToolDefinition}
use tiny_mite.Prelude.{
  String, Option, List, [], map, contains, retain, insert, lookup, remove, string_eq,
}

module _ (X : Crates) where
  pub record ToolRegistry : Type 0 where
    pub tools : List (X.Uuid × ToolDefinition X)

  unfoldable pub new_registry : ToolRegistry
  new_registry = record { tools = [] }

  unfoldable pub register : ToolRegistry → ToolDefinition X → ToolRegistry
  register r tool = record { tools = insert ⦃e = X.uuid_eq⦄ tool.id tool r.tools }

  unfoldable pub get : ToolRegistry → X.Uuid → Option (ToolDefinition X)
  get r id = lookup ⦃e = X.uuid_eq⦄ id r.tools

  unfoldable pub unregister : ToolRegistry → X.Uuid → Option (ToolDefinition X) × ToolRegistry
  unregister r id =
      (lookup ⦃e = X.uuid_eq⦄ id r.tools, record { tools = remove ⦃e = X.uuid_eq⦄ id r.tools })

  unfoldable pub find_by_capability : ToolRegistry → String → List (ToolDefinition X)
  find_by_capability r cap = retain (λ t. contains t.capabilities cap) (map (λ e. e.1) r.tools)
