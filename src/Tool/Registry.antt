-- ===== src/Tool/Registry.antt =====
-- pkg/tool/registry.go, without its lock: each operation is one step.
use gm_agent.Prelude.{
  String, ◌≡◌, Option, none, some, List, [], ◌∷◌, ◌==◌, ◌<+>◌, inl, inr, ◌≢◌, if◌then◌else◌,
  Option-cases,
}
use gm_agent.Prelude.Dict.{Dict, lookup, insert, lookup-insert}
use gm_agent.Prelude.Result.{Result, ok, err, message}
use gm_agent.Types.Tool.{Tool}

pub record Registry : Type 0 where
  pub tools : Dict Tool

unfoldable pub new_registry : Registry
new_registry = record { tools = [] }

-- An error leaves the registry as it was.
unfoldable pub register : Tool → Registry → Result Registry
register tool r = elim (lookup tool.name r.tools) [
  | some _ ↦ err (message ("tool " <+> tool.name <+> " already registered"))
  | none ↦ ok (record { tools = insert tool.name tool r.tools })
]

unfoldable pub get : String → Registry → Option Tool
get name r = lookup name r.tools

values : Dict Tool → List Tool
values [] = []
values ((k, t) ∷ m) = t ∷ values m

unfoldable pub list_tools : Registry → List Tool
unfolding values
list_tools r = values r.tools

-- A tool is registered exactly if its name is free; from then on `get` finds it under its name, and
-- under every other name what it found before.
pub get-register :
    (tool : Tool) (r : Registry)
    → (get tool.name r ≢ none → (e : String) × (register tool r ≡ err (message e)))
      × (get tool.name r ≡ none
          → (r' : Registry) × (register tool r ≡ ok r')
            × ((name : String)
                → get name r' ≡ (if tool.name == name then some tool else get name r)))
unfolding get register
get-register tool r = (
  λ taken. (
    "tool " <+> tool.name <+> " already registered",
    elim (Option-cases (lookup tool.name r.tools)) [
      | inl free ↦ absurd (taken free)
      | inr (t, found) ↦ rw (found, register)
    ],
  ),
  λ free. (
    record { tools = insert tool.name tool r.tools },
    rw (free, register, get),
    λ name. lookup-insert tool.name name tool r.tools,
  ),
)
