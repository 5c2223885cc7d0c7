-- ===== src/Agent/Repository/Definitions.antt =====
-- MemoryDefinitionRepository of internal/agent/repository.go. List gives the map's values in some order.
use blender_shot_preview.Prelude.{
  String, List, [], ◌∷◌, Result, ok, err, lookup, insert, if◌then◌else◌,
}
use blender_shot_preview.Agent.Types.{
  AgentDefinition, RepositoryError, invalid_definition, agent_not_found,
}
use blender_shot_preview.Agent.Repository.{exists, or_fail}

pub record DefinitionRepository : Type 0 where
  pub items : List (String × AgentDefinition)

unfoldable pub empty : DefinitionRepository
empty = record { items = [] }

unfoldable pub create :
    AgentDefinition → DefinitionRepository → Result RepositoryError DefinitionRepository
create definition r =
    if exists (lookup definition.id r.items)
    then err invalid_definition
    else ok (record { items = insert definition.id definition r.items })

unfoldable pub get : String → DefinitionRepository → Result RepositoryError AgentDefinition
get id r = or_fail agent_not_found (lookup id r.items)

abbrev pub values : List (String × AgentDefinition) → List AgentDefinition
values [] = []
values ((id, definition) ∷ items) = definition ∷ values items

unfoldable pub list : DefinitionRepository → List AgentDefinition
list r = values r.items

unfoldable pub update :
    AgentDefinition → DefinitionRepository → Result RepositoryError DefinitionRepository
update definition r =
    if exists (lookup definition.id r.items)
    then ok (record { items = insert definition.id definition r.items })
    else err agent_not_found
