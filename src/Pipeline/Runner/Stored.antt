-- ===== src/Pipeline/Runner/Stored.antt =====
-- The tasks that a runner has stored, through its methods.
use blender_shot_preview.Prelude.{
  String, Option, none, some, ◌≡◌, refl, sym, ◌∙◌, inl, inr, Result, ok, err, ◌==◌, if◌then◌else◌,
  lookup, insert, lookup-insert, Bool-cases, subst, ap,
}
use mathlib.Core.Option.{some-injective}
use blender_shot_preview.Pipeline.Types.{Task, Error, nil_repository}
use blender_shot_preview.Pipeline.Task.Invariant.{Inv}
use blender_shot_preview.Pipeline.Repository.{Repository, replace, create_or_replay, found_or_error}
use blender_shot_preview.Pipeline.Repository
use blender_shot_preview.Pipeline.Runner.{
  Runner, write_back, applied, apply_to, given_repository, with_task,
}

-- Every stored task satisfies the invariant.
abbrev pub HasSound : Repository → Type 0
HasSound repository =
    (id : String) (task : Task) → lookup id repository.tasks ≡ some task → Inv task

abbrev pub IsSoundIn : Option Repository → Type 0
IsSoundIn none = Unit
IsSoundIn (some repository) = HasSound repository

abbrev pub IsSound : Runner → Type 0
IsSound r = IsSoundIn r.repository

pub insert-HasSound :
    (task : Task) (repository repository' : Repository)
    → repository'.tasks ≡ insert task.id task repository.tasks
    → Inv task
    → HasSound repository
    → HasSound repository'
insert-HasSound task repository repository' same v h id found e =
    let at_id : (if task.id == id then some task else lookup id repository.tasks) ≡ some found =
      sym (lookup-insert task.id id task repository.tasks) ∙ ap (λ m. lookup id m) (sym same) ∙ e in
    elim (Bool-cases (task.id == id)) [
      | inl hit ↦ subst Inv (some-injective _ _ (rw hit at at_id)) v
      | inr miss ↦ h id found (rw miss at at_id)
    ]

replace-HasSound :
    (task : Task) (repository : Repository) (old : Option Task)
    → Inv task
    → HasSound repository
    → HasSound (replace task repository old).1
replace-HasSound task repository none v h = h
replace-HasSound task repository (some old) v h =
    insert-HasSound task repository (replace task repository (some old)).1 refl v h

write_back-IsSound {ℓ} :
    {A : Type ℓ} (r : Runner) (repository : Repository) (a : A)
    (q : Result Error (Unit {0}) × Repository)
    → HasSound q.1
    → IsSound (write_back r repository a q).1
write_back-IsSound r repository a (ok u, repository') h = h
write_back-IsSound r repository a (err e, repository') h = h

pub update-IsSound {ℓ} :
    {A : Type ℓ} (r : Runner) (repository : Repository) (a : A) (task : Task)
    → Inv task
    → HasSound repository
    → IsSound (write_back r repository a (Repository.update task repository)).1
unfolding Repository.update
update-IsSound r repository a task v h =
    write_back-IsSound r repository a (Repository.update task repository)
      (replace-HasSound task repository (lookup task.id repository.tasks) v h)

read_sound :
    (id : String) (repository : Repository) (o : Option Task) (task : Task)
    → HasSound repository
    → lookup id repository.tasks ≡ o
    → found_or_error o ≡ ok task
    → Inv task
read_sound id repository none task h e found = cc
read_sound id repository (some t) task h e found = h id task (e ∙ ap some (ok_injective found))
  where
    ok_injective : found_or_error (some t) ≡ ok task → t ≡ task
    ok_injective f = cc

pub get_sound :
    (id : String) (repository : Repository) (task : Task)
    → HasSound repository
    → Repository.get id repository ≡ ok task
    → Inv task
unfolding Repository.get
get_sound id repository task h found =
    read_sound id repository (lookup id repository.tasks) task h refl found

applied-IsSound {ℓ} :
    {A : Type ℓ} (r : Runner) (repository : Repository) (changed : Result Error (Task × A))
    → ((u : Task) (a : A) → changed ≡ ok (u, a) → Inv u)
    → IsSound r
    → HasSound repository
    → IsSound (applied r repository changed).1
applied-IsSound r repository (err e) keep s h = s
applied-IsSound r repository (ok (u, a)) keep s h =
    update-IsSound r repository a u (keep u a refl) h

-- An operation that keeps the invariant, on the result of reading the task.
apply_to-IsSound {ℓ} :
    {A : Type ℓ} (r : Runner) (repository : Repository) (operation : Task → Result Error (Task × A))
    (outcome : Result Error Task)
    → ((task : Task) → outcome ≡ ok task → Inv task)
    → ((t u : Task) (a : A) → operation t ≡ ok (u, a) → Inv t → Inv u)
    → IsSound r
    → HasSound repository
    → IsSound (apply_to r repository operation outcome).1
apply_to-IsSound r repository operation (err e) found keep s h = s
apply_to-IsSound r repository operation (ok task) found keep s h =
    applied-IsSound r repository (operation task) (λ u a e. keep task u a e (found task refl)) s h

-- What a method does with the repository, where it has one.
pub given-IsSound {ℓ} :
    {A : Type ℓ} (absent : A × Runner) (use_it : Repository → A × Runner) (o : Option Repository)
    → IsSound absent.1
    → ((repository : Repository) → HasSound repository → IsSound (use_it repository).1)
    → IsSoundIn o
    → IsSound (given_repository absent use_it o).1
given-IsSound absent use_it none a u s = a
given-IsSound absent use_it (some repository) a u s = u repository s

-- withTask keeps every stored task in the invariant if the operation keeps its task there.
pub with_task-IsSound {ℓ} :
    {A : Type ℓ} (id : String) (operation : Task → Result Error (Task × A)) (r : Runner)
    → ((t u : Task) (a : A) → operation t ≡ ok (u, a) → Inv t → Inv u)
    → IsSound r
    → IsSound (with_task id operation r).1
unfolding with_task
with_task-IsSound id operation r keep s =
    given-IsSound (err nil_repository, r) _ r.repository s
      (λ repository h.
        apply_to-IsSound r repository operation (Repository.get id repository)
          (λ task found. get_sound id repository task h found) keep s h)
      s
