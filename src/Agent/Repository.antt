-- ===== src/Agent/Repository.antt =====
-- What the two memory repositories of internal/agent/repository.go share. Values are copied on the
-- way in and out, as cloneDefinition and cloneRun do, and the maps are association lists.
pub mod Definitions
pub mod Runs
use blender_shot_preview.Prelude.{Bool, true, false, Option, none, some, Result, ok, err}
use blender_shot_preview.Agent.Types.{RepositoryError}

-- `_, exists := m[k]`
abbrev pub exists {ℓ} : {A : Type ℓ} → Option A → Bool
exists none = false
exists (some a) = true

abbrev pub or_fail {ℓ} : {A : Type ℓ} → RepositoryError → Option A → Result RepositoryError A
or_fail e none = err e
or_fail e (some a) = ok a
