-- ===== src/Agent/DefinitionService/Bounds.antt =====
-- What every definition of the repository satisfies, whatever was asked of the DefinitionService.
use mathlib.Core.Option.{some-injective}
use blender_shot_preview.Prelude.{
  ℕ, ◌≤◌, ℤ, pos, negsuc, String, Bool, true, false, ◌||◌, Option, none, some, List, [], ◌∷◌, ◌≡◌,
  inl, inr, refl, ap, sym, subst, ◌∙◌, Result, ok, err, ok-injective, Ensures, Ensures-ok,
  Ensures->>=, Ensures-refuse_if, ◌==◌, ltb, eqb, if◌then◌else◌, arith, All, ==-eq, Distinct,
  lookup, insert, lookup-insert, Bool-cases,
}
use blender_shot_preview.Prelude.Text.{trim_space}
use blender_shot_preview.Prelude.Text.Trim.{trim_space_twice}
use blender_shot_preview.Agent.Types
use blender_shot_preview.Agent.Types.{
  AgentDefinition, AgentError, AgentStatus, AgentFields, invalid,
}
use blender_shot_preview.Agent.Repository.Definitions.{DefinitionRepository}
use blender_shot_preview.Agent.Repository.Definitions
use blender_shot_preview.Agent.Repository.{or_fail}
use blender_shot_preview.Agent.DefinitionService.{
  Registries, validate, bounded, check_skills, unique_trimmed, create, update, set_status, get,
  answer,
}
use blender_shot_preview.Agent.DefinitionService.Unique.{unique_trimmed-lem}

-- A number within its bounds.
abbrev pub IsWithin : ℕ → ℕ → ℤ → Type 0
IsWithin least most (pos n) = (least ≤ n) × (n ≤ most)
IsWithin least most (negsuc n) = ⊥

-- What validate promises of a definition.
abbrev pub IsValid : Registries → AgentDefinition → Type 0
IsValid s d =
    (trim_space d.id ≡ d.id)
    × ((d.id == "") ≡ false)
    × ((d.name == "") ≡ false)
    × ((d.system_prompt == "") ≡ false)
    × (s.model_exists d.model_profile ≡ true)
    × Distinct d.skill_ids
    × All (λ skill_id. s.skill_exists skill_id ≡ true) d.skill_ids
    × IsWithin 1 40 d.max_steps
    × IsWithin 1 8192 d.max_output_tokens
    × IsWithin 1000000000 2400000000000 d.timeout

bounded-IsWithin :
    (default least most : ℕ) (n : ℤ) → Ensures (IsWithin least most) (bounded default least most n)
unfolding bounded
bounded-IsWithin default least most (negsuc n) = record { value = λ m e. cc }
bounded-IsWithin default least most (pos n) = go (if eqb n 0 then default else n)
  where
    go :
        (v : ℕ)
        → Ensures
            (IsWithin least most)
            (if ltb v least || ltb most v then err invalid else ok (pos v))
    go v = elim (Bool-cases (ltb v least || ltb most v)) [
      | inl e ↦ rw e (record { value = λ m x. cc })
      | inr e ↦ rw e (Ensures-ok (pos v) (ground arith, ground arith))
    ]

check_skills-exist :
    (s : Registries) (ids : List String)
    → check_skills s ids ≡ ok tt
    → All (λ skill_id. s.skill_exists skill_id ≡ true) ids
unfolding check_skills
check_skills-exist s [] h = tt
check_skills-exist s (id ∷ ids) h =
    let (there, rest) = both (s.skill_exists id) (check_skills s ids) h in
    (there, check_skills-exist s ids rest)
  where
    both :
        (b : Bool) (rest : Result AgentError (Unit {0}))
        → (if b then rest else err (Types.skill_not_found id)) ≡ ok tt
        → (b ≡ true) × (rest ≡ ok tt)
    both true rest e = (refl, e)
    both false rest e = cc

validate-IsValid : (s : Registries) (d : AgentDefinition) → Ensures (IsValid s) (validate s d)
unfolding validate
validate-IsValid s d = Ensures-refuse_if _ _ _ (λ filled. Ensures-refuse_if _ _ _ (λ model.
    Ensures->>= _ _ (λ done skills. Ensures->>= _ _ (λ steps e1. Ensures->>= _ _ (λ tokens e2.
      Ensures->>= _ _ (λ timeout e3. Ensures->>= _ _ (λ done1 e4. Ensures->>= _ _ (λ done2 e5.
        Ensures-ok _ (
          trim_space_twice d.id,
          ground arith,
          ground arith,
          ground arith,
          ground arith,
          (unique_trimmed-lem d.skill_ids).0,
          check_skills-exist s (unique_trimmed d.skill_ids) skills,
          (bounded-IsWithin 12 1 40 d.max_steps).value steps e1,
          (bounded-IsWithin 4096 1 8192 d.max_output_tokens).value tokens e2,
          (bounded-IsWithin 2400000000000 1000000000 2400000000000 d.timeout).value timeout e3,
        )))))))))

-- Every definition of the repository is valid, and under its own identifier.
abbrev pub AllValid : Registries → DefinitionRepository → Type 0
AllValid s r =
    (id : String) (d : AgentDefinition) → lookup id r.items ≡ some d → IsValid s d × (d.id ≡ id)

inserted-AllValid :
    (s : Registries) (r : DefinitionRepository) (d : AgentDefinition)
    → IsValid s d
    → AllValid s r
    → AllValid s (record { items = insert d.id d r.items })
inserted-AllValid s r d h all id c e =
    go (d.id == id) refl (sym (lookup-insert d.id id d r.items) ∙ e)
  where
    go :
        (b : Bool)
        → (d.id == id) ≡ b
        → (if b then some d else lookup id r.items) ≡ some c
        → IsValid s c × (c.id ≡ id)
    go true own same =
        subst (λ x. IsValid s x × (x.id ≡ id)) (some-injective _ _ same) (h, ==-eq d.id id own)
    go false own found = all id c found

-- What the repository's Create and Update leave.
written-AllValid :
    (s : Registries) (r : DefinitionRepository) (d : AgentDefinition)
    → IsValid s d
    → AllValid s r
    → Ensures (AllValid s) (answer (Definitions.create d r))
      × Ensures (AllValid s) (answer (Definitions.update d r))
unfolding Definitions.create Definitions.update
written-AllValid s r d h all = (go_create _, go_update _)
  where
    inserted : AllValid s (record { items = insert d.id d r.items })
    inserted = inserted-AllValid s r d h all

    go_create :
        (b : Bool)
        → Ensures (AllValid s) (
            answer (
              if b
              then err Types.invalid_definition
              else ok (record { items = insert d.id d r.items })))
    go_create true = record { value = λ r' e. cc }
    go_create false = Ensures-ok _ inserted

    go_update :
        (b : Bool)
        → Ensures (AllValid s) (
            answer (
              if b
              then ok (record { items = insert d.id d r.items })
              else err Types.agent_not_found))
    go_update true = Ensures-ok _ inserted
    go_update false = record { value = λ r' e. cc }

pub get-found :
    (r : DefinitionRepository) (id : String) (d : AgentDefinition)
    → get id r ≡ ok d
    → lookup (trim_space id) r.items ≡ some d
unfolding get Definitions.get
get-found r id d = go (lookup (trim_space id) r.items)
  where
    go : (o : Option AgentDefinition) → answer (or_fail Types.agent_not_found o) ≡ ok d → o ≡ some d
    go none e = cc
    go (some c) e = ap some (ok-injective e)

-- The repositories that calls of the service lead to, from an empty one.
pub data Managed (s : Registries) : DefinitionRepository → Type 0 where
  none_yet : Managed s (record { items = [] })
  creates :
      {r : DefinitionRepository} (now : ℕ) (request : AgentFields) (d : AgentDefinition)
      (r' : DefinitionRepository)
      → create s now request r ≡ ok (d, r')
      → Managed s r
      → Managed s r'
  updates :
      {r : DefinitionRepository} (now : ℕ) (request : AgentFields) (d : AgentDefinition)
      (r' : DefinitionRepository)
      → update s now request r ≡ ok (d, r')
      → Managed s r
      → Managed s r'
  sets :
      {r : DefinitionRepository} (now : ℕ) (id : String) (status : AgentStatus)
      (r' : DefinitionRepository)
      → set_status now id status r ≡ ok r'
      → Managed s r
      → Managed s r'

create-AllValid :
    (s : Registries) (now : ℕ) (request : AgentFields) (r : DefinitionRepository)
    → AllValid s r
    → Ensures (λ (d, r'). AllValid s r') (create s now request r)
unfolding create
create-AllValid s now request r all = Ensures->>= _ _ (λ d valid. Ensures->>= _ _ (λ r' stored.
    Ensures-ok _
      ((written-AllValid s r d ((validate-IsValid s _).value d valid) all).0.value r' stored)))

update-AllValid :
    (s : Registries) (now : ℕ) (request : AgentFields) (r : DefinitionRepository)
    → AllValid s r
    → Ensures (λ (d, r'). AllValid s r') (update s now request r)
unfolding update
update-AllValid s now request r all = Ensures->>= _ _ (λ old found. Ensures->>= _ _ (λ d valid.
    Ensures->>= _ _ (λ r' stored.
      Ensures-ok _
        ((written-AllValid s r d ((validate-IsValid s _).value d valid) all).1.value r' stored))))

set_status-AllValid :
    (s : Registries) (now : ℕ) (id : String) (status : AgentStatus) (r : DefinitionRepository)
    → AllValid s r
    → Ensures (AllValid s) (set_status now id status r)
unfolding set_status
set_status-AllValid s now id status r all = Ensures->>= _ _ (λ d found.
    (written-AllValid s r (record d { status = status; updated_at = now })
      (all (trim_space id) d (get-found r id d found)).0 all).1)

pub Managed-AllValid : (s : Registries) (r : DefinitionRepository) → Managed s r → AllValid s r
unfolding lookup
Managed-AllValid s r none_yet = λ id d e. cc
Managed-AllValid s r' (creates {r = r} now request d _ e m) =
    (create-AllValid s now request r (Managed-AllValid s r m)).value (d, r') e
Managed-AllValid s r' (updates {r = r} now request d _ e m) =
    (update-AllValid s now request r (Managed-AllValid s r m)).value (d, r') e
Managed-AllValid s r' (sets {r = r} now id status _ e m) =
    (set_status-AllValid s now id status r (Managed-AllValid s r m)).value r' e

-- Whatever sequence of accepted Create, Update, Enable and Disable calls built the repository, every
-- definition that Get returns has an identifier without space around it, an identifier, a name
-- and a system prompt that are not empty, a model profile that exists, skills that exist and of which none stands twice, from 1 to 40 steps,
-- from 1 to 8192 output tokens, and a timeout from 1 second to 40 minutes.
pub get-IsValid :
    (s : Registries) (r : DefinitionRepository) (id : String) (d : AgentDefinition)
    → Managed s r
    → get id r ≡ ok d
    → IsValid s d
get-IsValid s r id d m e = (Managed-AllValid s r m (trim_space id) d (get-found r id d e)).0
