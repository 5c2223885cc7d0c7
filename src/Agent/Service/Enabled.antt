-- ===== src/Agent/Service/Enabled.antt =====
-- The definitions and the service together: an agent that is disabled does not run.
use mathlib.Core.Option.{some-injective}
use blender_shot_preview.Prelude.{
  ℕ, String, Bool, true, false, Option, some, List, [], ◌≡◌, ◌⊎◌, inl, inr, refl, sym, ap, subst,
  ◌∙◌, ok, err, ◌>>=◌, ◌==◌, ==-eq, ==_self, if◌then◌else◌, lookup, insert, lookup-insert, Ensures,
  Ensures-ok, Ensures->>=, Ensures-refuse_if, Bool-cases,
}
use blender_shot_preview.Prelude.Text.{trim_space, is_blank}
use blender_shot_preview.Agent.Types.{
  AgentDefinition, AgentStatus, disabled, AgentFields, AgentRequest, AgentRun, agent_disabled,
}
use blender_shot_preview.Agent.Types
use blender_shot_preview.Agent.Repository.{exists}
use blender_shot_preview.Agent.Repository.Definitions.{DefinitionRepository}
use blender_shot_preview.Agent.Repository.Definitions
use blender_shot_preview.Agent.DefinitionService.{
  Registries, validate, create, update, set_status, get, answer, overwritten,
}
use blender_shot_preview.Agent.DefinitionService.Bounds.{
  AllValid, Managed, creates, updates, sets, Managed-AllValid, get-found,
}
use blender_shot_preview.Agent.Service.{Service, prepare, is_some_skill, is_disabled}
use blender_shot_preview.Agent.Service.Json.{Codec}

-- The repository has a disabled definition under the identifier.
abbrev pub IsDisabled : String → DefinitionRepository → Type 0
IsDisabled id r = (d : AgentDefinition) × (lookup id r.items ≡ some d) × (d.status ≡ disabled)

validate_keeps :
    (s : Registries) (d : AgentDefinition)
    → Ensures (λ v. (v.id ≡ trim_space d.id) × (v.status ≡ d.status)) (validate s d)
unfolding validate
validate_keeps s d = Ensures-refuse_if _ _ _ (λ filled. Ensures-refuse_if _ _ _ (λ model.
    Ensures->>= _ _ (λ done skills. Ensures->>= _ _ (λ steps e1. Ensures->>= _ _ (λ tokens e2.
      Ensures->>= _ _ (λ timeout e3.
        Ensures->>= _ _ (λ done1 e4. Ensures->>= _ _ (λ done2 e5. Ensures-ok _ (refl, refl)))))))))

-- A write of a definition that is disabled, or is not the one under the identifier.
inserted-IsDisabled :
    (r : DefinitionRepository) (id : String) (d : AgentDefinition)
    → ((d.id == id) ≡ true → d.status ≡ disabled)
    → IsDisabled id r
    → IsDisabled id (record { items = insert d.id d r.items })
inserted-IsDisabled r id d h (old, found, off) = elim (Bool-cases (d.id == id)) [
  | inl own ↦ (
    d,
    lookup-insert d.id id d r.items ∙ ap (λ b. if b then some d else lookup id r.items) own,
    h own,
  )
  | inr other ↦ (
    old,
    lookup-insert d.id id d r.items
        ∙ ap (λ b. if b then some d else lookup id r.items) other
        ∙ found,
    off,
  )
]

created-IsDisabled :
    (r : DefinitionRepository) (id : String) (d : AgentDefinition)
    → IsDisabled id r
    → Ensures (IsDisabled id) (answer (Definitions.create d r))
unfolding Definitions.create
created-IsDisabled r id d h = go (exists (lookup d.id r.items)) refl
  where
    not_there : exists (lookup d.id r.items) ≡ false → (d.id == id) ≡ true → d.status ≡ disabled
    not_there free own =
        let hit : lookup d.id r.items ≡ some h.0 =
          subst (λ k. lookup k r.items ≡ some h.0) (sym (==-eq d.id id own)) h.1 in
        let there : exists (lookup d.id r.items) ≡ true = ap exists hit in cc

    go :
        (b : Bool)
        → exists (lookup d.id r.items) ≡ b
        → Ensures (IsDisabled id) (
            answer (
              if b
              then err Types.invalid_definition
              else ok (record { items = insert d.id d r.items })))
    go true e = record { value = λ r' x. cc }
    go false free = Ensures-ok _ (inserted-IsDisabled r id d (not_there free) h)

updated-IsDisabled :
    (r : DefinitionRepository) (id : String) (d : AgentDefinition)
    → ((d.id == id) ≡ true → d.status ≡ disabled)
    → IsDisabled id r
    → Ensures (IsDisabled id) (answer (Definitions.update d r))
unfolding Definitions.update
updated-IsDisabled r id d h off = go (exists (lookup d.id r.items))
  where
    go :
        (b : Bool)
        → Ensures (IsDisabled id) (
            answer (
              if b
              then ok (record { items = insert d.id d r.items })
              else err Types.agent_not_found))
    go true = Ensures-ok _ (inserted-IsDisabled r id d h off)
    go false = record { value = λ r' x. cc }

-- The definition under a key is the disabled one where its identifier says so.
found-disabled :
    (s : Registries) (r : DefinitionRepository) (id key : String) (old : AgentDefinition)
    → AllValid s r
    → lookup key r.items ≡ some old
    → IsDisabled id r
    → (old.id == id) ≡ true
    → old.status ≡ disabled
found-disabled s r id key old all found (d, there, off) own =
    let at : lookup id r.items ≡ some old =
      subst (λ k. lookup k r.items ≡ some old) (sym (all key old found).1 ∙ ==-eq old.id id own)
        found in
    let one : d ≡ old = some-injective _ _ (sym there ∙ at) in
    subst (λ x. x.status ≡ disabled) one off

-- The repositories that calls of the DefinitionService lead to, none of which enables the agent `id`.
pub data NotEnabled (s : Registries) (id : String) (first : DefinitionRepository)
    : DefinitionRepository → Type 0 where
  as_it_was : NotEnabled s id first first
  then_create :
      {r : DefinitionRepository} (now : ℕ) (request : AgentFields) (d : AgentDefinition)
      (r' : DefinitionRepository)
      → create s now request r ≡ ok (d, r')
      → NotEnabled s id first r
      → NotEnabled s id first r'
  then_update :
      {r : DefinitionRepository} (now : ℕ) (request : AgentFields) (d : AgentDefinition)
      (r' : DefinitionRepository)
      → update s now request r ≡ ok (d, r')
      → NotEnabled s id first r
      → NotEnabled s id first r'
  then_set :
      {r : DefinitionRepository} (now : ℕ) (key : String) (status : AgentStatus)
      (r' : DefinitionRepository)
      → (status ≡ disabled) ⊎ ((trim_space key == id) ≡ false)
      → set_status now key status r ≡ ok r'
      → NotEnabled s id first r
      → NotEnabled s id first r'

create-IsDisabled :
    (s : Registries) (now : ℕ) (request : AgentFields) (r : DefinitionRepository) (id : String)
    → IsDisabled id r
    → Ensures (λ (d, r'). IsDisabled id r') (create s now request r)
unfolding create
create-IsDisabled s now request r id h = Ensures->>= _ _ (λ d valid.
    Ensures->>= _ _ (λ r' stored. Ensures-ok _ ((created-IsDisabled r id d h).value r' stored)))

update-IsDisabled :
    (s : Registries) (now : ℕ) (request : AgentFields) (r : DefinitionRepository) (id : String)
    → AllValid s r
    → IsDisabled id r
    → Ensures (λ (d, r'). IsDisabled id r') (update s now request r)
unfolding update
update-IsDisabled s now request r id all h = Ensures->>= _ _ (λ old found.
    Ensures->>= _ _ (λ d valid. Ensures->>= _ _ (λ r' stored.
      Ensures-ok _ ((updated-IsDisabled r id d (off old found d valid) h).value r' stored))))
  where
    off :
        (old : AgentDefinition)
        → get request.id r ≡ ok old
        → (d : AgentDefinition) → validate s (overwritten now request old) ≡ ok d
        → (d.id == id) ≡ true
        → d.status ≡ disabled
    off old found d valid own =
        let at = get-found r request.id old found in
        let (named, kept) = (validate_keeps s (overwritten now request old)).value d valid in
        let trimmed : trim_space old.id ≡ old.id = (all (trim_space request.id) old at).0.0 in
        kept
        ∙ found-disabled s r id (trim_space request.id) old all at h
            (subst (λ i. (i == id) ≡ true) (named ∙ trimmed) own)

set_status-IsDisabled :
    (s : Registries) (now : ℕ) (key : String) (status : AgentStatus) (r : DefinitionRepository)
    (id : String)
    → (status ≡ disabled) ⊎ ((trim_space key == id) ≡ false)
    → AllValid s r
    → IsDisabled id r
    → Ensures (IsDisabled id) (set_status now key status r)
unfolding set_status
set_status-IsDisabled s now key status r id which all h = Ensures->>= _ _ (λ d found.
    updated-IsDisabled r id (record d { status = status; updated_at = now }) (off which d found) h)
  where
    off :
        (status ≡ disabled) ⊎ ((trim_space key == id) ≡ false)
        → (d : AgentDefinition) → get key r ≡ ok d
        → (d.id == id) ≡ true
        → status ≡ disabled
    off (inl e) d found own = e
    off (inr elsewhere) d found own =
        let hit : (trim_space key == id) ≡ true =
          subst (λ i. (i == id) ≡ true) (all (trim_space key) d (get-found r key d found)).1 own in
        cc

NotEnabled-IsDisabled :
    (s : Registries) (id : String) (first r : DefinitionRepository)
    → Managed s first
    → IsDisabled id first
    → NotEnabled s id first r
    → Managed s r × IsDisabled id r
NotEnabled-IsDisabled s id first r m h as_it_was = (m, h)
NotEnabled-IsDisabled s id first r' m h (then_create {r = r} now request d _ e before) =
    let (managed, off) = NotEnabled-IsDisabled s id first r m h before in
    (creates now request d r' e managed, (create-IsDisabled s now request r id off).value (d, r') e)
NotEnabled-IsDisabled s id first r' m h (then_update {r = r} now request d _ e before) =
    let (managed, off) = NotEnabled-IsDisabled s id first r m h before in
    (
      updates now request d r' e managed,
      (update-IsDisabled s now request r id (Managed-AllValid s r managed) off).value (d, r') e,
    )
NotEnabled-IsDisabled s id first r' m h (then_set {r = r} now key status _ which e before) =
    let (managed, off) = NotEnabled-IsDisabled s id first r m h before in
    (
      sets now key status r' e managed,
      (set_status-IsDisabled s now key status r id which (Managed-AllValid s r managed) off).value
          r' e,
    )

-- Disable leaves a disabled definition.
disable-IsDisabled :
    (s : Registries) (now : ℕ) (key : String) (r : DefinitionRepository)
    → AllValid s r
    → Ensures (IsDisabled (trim_space key)) (set_status now key disabled r)
unfolding set_status Definitions.update
disable-IsDisabled s now key r all = Ensures->>= _ _ (λ d found.
    go d (all (trim_space key) d (get-found r key d found)).1 (exists (lookup d.id r.items)))
  where
    go :
        (d : AgentDefinition)
        → d.id ≡ trim_space key
        → (b : Bool)
        → Ensures (IsDisabled (trim_space key)) (
            answer (
              if b
              then ok (record {
                items = insert d.id (record d { status = disabled; updated_at = now }) r.items;
              })
              else err Types.agent_not_found))
    go d own false = record { value = λ r' x. cc }
    go d own true =
        let off : AgentDefinition = record d { status = disabled; updated_at = now } in
        Ensures-ok _ (
          off,
          lookup-insert d.id (trim_space key) off r.items
              ∙ ap (λ k. if d.id == k then some off else lookup (trim_space key) r.items) (sym own)
              ∙ ap (λ b. if b then some off else lookup (trim_space key) r.items) (==_self d.id),
          refl,
        )

-- After Disable of an agent, and any further calls of the DefinitionService of which none enables that
-- agent, Run and Stream refuse every request for it that has an input and names no skills, with
-- ErrAgentDisabled. The repository is one that the DefinitionService has built.
pub disabled_refused :
    (s : Registries) (now : ℕ) (agent_id : String) (first r0 r : DefinitionRepository) (c : Codec)
    (at : ℕ) (id_bytes : Option (List ℕ)) (request : AgentRequest) (service : Service)
    → Managed s first
    → set_status now agent_id disabled first ≡ ok r0
    → NotEnabled s (trim_space agent_id) r0 r
    → service.definitions ≡ r
    → trim_space request.agent_id ≡ trim_space agent_id
    → is_blank request.agent_id ≡ false
    → is_blank request.input ≡ false
    → request.skill_ids ≡ []
    → prepare c at id_bytes request service ≡ err agent_disabled
unfolding prepare get Definitions.get ◌>>=◌
disabled_refused s now agent_id first r0 r c at id_bytes request service m disables later uses names
      named given plain =
    let off =
      (disable-IsDisabled s now agent_id first (Managed-AllValid s first m)).value r0 disables in
    let (managed, (d, found, status)) =
      NotEnabled-IsDisabled s (trim_space agent_id) r0 r (sets now agent_id disabled r0 disables m)
        off later in
    let hit : lookup (trim_space request.agent_id) service.definitions.items ≡ some d =
      subst (λ k. lookup k service.definitions.items ≡ some d) (sym names)
        (subst (λ x. lookup (trim_space agent_id) x.items ≡ some d) (sym uses) found) in
    let none_named : is_some_skill request.skill_ids ≡ false = ap is_some_skill plain in
    let stopped : is_disabled d.status ≡ true = ap is_disabled status in
    rw (named, given, none_named, hit, stopped) refl
