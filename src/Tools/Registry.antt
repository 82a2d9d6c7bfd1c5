-- ===== src/Tools/Registry.antt =====
-- internal/tools/registry.go and the interfaces of internal/tools/tool.go: a tool is what its
-- methods answer. `Target` is the session state that a ContextModifier changes.
use workhorse_agent.Prelude.{
  ℕ, Bool, Option, Text, is_empty, is_some, if◌then◌else◌, Dict, lookup, insert, delete,
}

-- What Apply leaves; an error of it is only logged.
pub record Result (Target : Type 0) : Type 0 where
  pub output : Text
  pub is_error : Bool
  pub modifier : Option (Target → Target)

-- How a call of Run ends.
pub data Outcome (Target : Type 0) : Type 0 where
  returned : Option (Result Target) → Outcome Target
  deadline_exceeded canceled : Outcome Target
  failed panicked : Text → Outcome Target

pub record Tool (Target : Type 0) : Type 0 where
  pub name : Text
  pub can_run_in_parallel : Bool
  pub default_timeout : ℕ
  pub run : Text → Target → Outcome Target

-- The first error a call meets.
pub data RegistryError : Type 0 where
  empty_name already_registered : RegistryError

pub data Registered (Target : Type 0) : Type 0 where
  registered : Dict (Tool Target) → Registered Target
  refused : RegistryError → Registered Target

module _ {Target : Type 0} where
  unfoldable pub register : Tool Target → Dict (Tool Target) → Registered Target
  register t r =
      if is_empty t.name
      then refused empty_name
      else if is_some (lookup t.name r)
      then refused already_registered
      else registered (insert t.name t r)

  unfoldable pub replace : Tool Target → Dict (Tool Target) → Registered Target
  replace t r = if is_empty t.name then refused empty_name else registered (insert t.name t r)

  unfoldable pub unregister : Text → Dict (Tool Target) → Dict (Tool Target)
  unregister name r = delete name r

  unfoldable pub get : Text → Dict (Tool Target) → Option (Tool Target)
  get name r = lookup name r
