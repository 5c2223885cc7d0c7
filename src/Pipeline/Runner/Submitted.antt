-- ===== src/Pipeline/Runner/Submitted.antt =====
-- What Submit leaves for Get.
use blender_shot_preview.Prelude.{
  ℕ, String, Bool, true, false, not, Option, none, some, List, ◌∷◌, ◌≡◌, ◌≢◌, refl, sym, ap, subst,
  ◌∙◌, Result, ok, err, ok-injective, ◌==◌, ==_self, if◌then◌else◌, contains, lookup, insert,
  lookup-insert,
}
use blender_shot_preview.Prelude.Text.{trim_space}
use blender_shot_preview.Pipeline.Types
use blender_shot_preview.Pipeline.Types.{Task, Error, Submission, is_terminal_task}
use blender_shot_preview.Pipeline.Task.Submit.{new_task}
use blender_shot_preview.Pipeline.Repository.{
  Repository, create_or_replay, replay, or_zero, found_or_error,
}
use blender_shot_preview.Pipeline.Repository
use blender_shot_preview.Pipeline.Runner.{
  Runner, Event, Channel, broadcast, offered, start, submit, submitted, stored, given_repository,
  get, read_from, plain_event, task_started,
}

pub broadcast-repository :
    (event : Event) (r : Runner) → (broadcast event r).repository ≡ r.repository
unfolding broadcast
broadcast-repository event r = go (lookup event.task_id r.subscribers)
  where
    go : (o : Option (List Channel)) → (offered event r o).repository ≡ r.repository
    go none = refl
    go (some channels) = refl

started-repository :
    (b : Bool) (id : String) (r : Runner)
    → (if b then (start id r).1 else r).repository ≡ r.repository
unfolding start
started-repository false id r = refl
started-repository true id r = go (contains id r.active)
  where
    go :
        (c : Bool)
        → (if◌then◌else◌ {A = Bool × Runner} c
            (false, r)
            (true, record r { active = id ∷ r.active })).1.repository
          ≡ r.repository
    go true = refl
    go false = refl

-- What submitted leaves as the repository.
submitted-repository :
    (now : ℕ) (r : Runner) (task : Task) (created : Bool) (repository : Repository)
    → (submitted now r (ok (task, created), repository)).1.repository ≡ some repository
submitted-repository now r task created repository =
    started-repository (not (is_terminal_task task.status)) task.id _
    ∙ broadcast-repository (plain_event now task.id task_started "") _

-- An earlier task of the key is not answered as created.
replay-created : (t existing task : Task) → replay t existing ≢ ok (task, true)
replay-created t existing task = go (not (existing.input.json == t.input.json))
  where
    go :
        (b : Bool)
        → if◌then◌else◌ {A = Result Error (Task × Bool)} b
            (err Types.idempotency_conflict)
            (ok (existing, false))
          ≢ ok (task, true)
    go true e = cc
    go false e = cc

submitted-answer :
    (now : ℕ) (r : Runner) (q : Result Error (Task × Bool)) (repository : Repository)
    → (submitted now r (q, repository)).0 ≡ q
submitted-answer now r (err e) repository = refl
submitted-answer now r (ok (task, created)) repository = refl

keyed-get :
    (now : ℕ) (r : Runner) (repository : Repository) (t task : Task) (key : Option String)
    → (submitted now r (create_or_replay t repository key)).0 ≡ ok (task, true)
    → (t ≡ task)
      × (trim_space task.id ≡ task.id
          → read_from task.id (submitted now r (create_or_replay t repository key)).1.repository
            ≡ ok task)
unfolding Repository.get
keyed-get now r repository t task (some earlier) e = absurd (
    replay-created t (or_zero (lookup earlier repository.tasks)) task (
      sym (submitted-answer now r (replay t (or_zero (lookup earlier repository.tasks))) repository)
      ∙ e))
keyed-get now r repository t task none e =
    let one : t ≡ task = ap (λ p. p.0) (ok-injective e) in
    let found : found_or_error (lookup t.id (insert t.id t repository.tasks)) ≡ ok t =
      ap found_or_error (
        lookup-insert t.id t.id t repository.tasks
        ∙ ap (λ b. if b then some t else lookup t.id repository.tasks) (==_self t.id)) in
    (
      one,
      λ trims.
          ap (read_from task.id) (submitted-repository now r t true _)
          ∙ ap (λ k. found_or_error (lookup k (insert t.id t repository.tasks))) trims
          ∙ subst (λ x. found_or_error (lookup x.id (insert t.id t repository.tasks)) ≡ ok x) one
              found,
    )

-- A task that Submit created, and not an earlier one, is the new task of the submission, and Get finds
-- it under its identifier, where this has no space around it.
pub submit-get :
    (now : ℕ) (id : Option String) (submission : Submission) (r : Runner) (task : Task)
    → (submit now id submission r).0 ≡ ok (task, true)
    → (new_task now id submission ≡ ok task)
      × (trim_space task.id ≡ task.id → get task.id (submit now id submission r).1 ≡ ok task)
unfolding submit get Repository.create_if_absent
submit-get now id submission r task = given r.repository
  where
    made :
        (repository : Repository) (m : Result Error Task)
        → (stored now r repository m).0 ≡ ok (task, true)
        → (m ≡ ok task)
          × (trim_space task.id ≡ task.id
              → read_from task.id (stored now r repository m).1.repository ≡ ok task)
    made repository (err e) h = cc
    made repository (ok t) h =
        let (one, there) =
          keyed-get now r repository t task (lookup t.idempotency_key repository.by_idempotency_key)
            h in
        (ap ok one, there)

    given :
        (o : Option Repository)
        → (given_repository
            (err (Types.invalid_submission Types.repository_required), r)
            (λ repository. stored now r repository (new_task now id submission))
            o).0
          ≡ ok (task, true)
        → (new_task now id submission ≡ ok task)
          × (trim_space task.id ≡ task.id
              → read_from task.id
                  (given_repository
                    (err (Types.invalid_submission Types.repository_required), r)
                    (λ repository. stored now r repository (new_task now id submission))
                    o).1.repository
                ≡ ok task)
    given none h = cc
    given (some repository) h = made repository (new_task now id submission) h
