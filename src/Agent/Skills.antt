-- ===== src/Agent/Skills.antt =====
-- internal/agent/skill_registry.go: the tools that agents may name. The type of a tool and what building
-- one gives are parameters.
pub mod Registered
use blender_shot_preview.Prelude.{
  String, Bool, true, false, Option, none, some, List, [], ◌∷◌, Result, ok, err, ◌==◌,
  if◌then◌else◌, lookup, insert,
}
use blender_shot_preview.Agent.ToolGuard.{ToolKind, read, write, irreversible, other}
use blender_shot_preview.Agent.Types.{AgentError, invalid, skill_not_found, failure}

-- What calling a builder gives.
abbrev pub Built : Type 0 → Type 0
Built Tool = Result String Tool

pub record RegisteredSkill (Tool : Type 0) : Type 0 where
  pub kind : ToolKind
  pub build : Built Tool

-- One of the three kinds of tools.
abbrev pub is_known : ToolKind → Bool
is_known read = true
is_known write = true
is_known irreversible = true
is_known (other kind) = false

module _ {Tool : Type 0} where
  -- MemorySkillRegistry, given by its map of builders
  abbrev pub new_registry : List (String × RegisteredSkill Tool)
  new_registry = []

  abbrev pub is_there : Option (RegisteredSkill Tool) → Bool
  is_there none = false
  is_there (some skill) = true

  -- Exists
  unfoldable pub exists : String → List (String × RegisteredSkill Tool) → Bool
  exists skill_id builders = is_there (lookup skill_id builders)

  -- RegisterWithKind; none is a nil builder
  unfoldable pub register_with_kind :
      String
      → ToolKind
      → Option (Built Tool)
      → List (String × RegisteredSkill Tool)
      → Result AgentError (List (String × RegisteredSkill Tool))
  register_with_kind skill_id kind none builders = err invalid
  register_with_kind skill_id kind (some build) builders =
      if skill_id == ""
      then err invalid
      else if is_known kind
      then (if exists skill_id builders
          then err invalid
          else ok (insert skill_id (record { kind = kind; build = build }) builders))
      else err invalid

  -- Register
  abbrev pub register :
      String
      → Option (Built Tool)
      → List (String × RegisteredSkill Tool)
      → Result AgentError (List (String × RegisteredSkill Tool))
  register skill_id build builders = register_with_kind skill_id read build builders

  abbrev pub resolved : String → Option (RegisteredSkill Tool) → Result AgentError Tool
  resolved skill_id none = err (skill_not_found skill_id)
  resolved skill_id (some skill) = built skill.build
    where
      built : Built Tool → Result AgentError Tool
      built (err e) = err (failure e)
      built (ok tool) = ok tool

  -- Resolve
  unfoldable pub resolve : String → List (String × RegisteredSkill Tool) → Result AgentError Tool
  resolve skill_id builders = resolved skill_id (lookup skill_id builders)

  abbrev pub kind_or : String → Option (RegisteredSkill Tool) → Result AgentError ToolKind
  kind_or skill_id none = err (skill_not_found skill_id)
  kind_or skill_id (some skill) = ok skill.kind

  -- Kind
  unfoldable pub kind_of :
      String → List (String × RegisteredSkill Tool) → Result AgentError ToolKind
  kind_of skill_id builders = kind_or skill_id (lookup skill_id builders)
