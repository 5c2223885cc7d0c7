-- ===== src/Pipeline/Runner/Lives.antt =====
-- A runner over its life: the methods that workers and clients call, one after the other.
use blender_shot_preview.Prelude.{
  Bool, true, false, ◌&&◌, if◌then◌else◌, without, ℕ, String, Option, none, some, List, [], ◌∷◌,
  ◌≡◌, refl, inl, inr, Result, ok, err, >>=-eq-ok, lookup, Bool-cases, subst,
}
use blender_shot_preview.Prelude.Text.{trim_space}
use blender_shot_preview.Pipeline.Types.{
  Task, Snapshot, Error, task_not_found, nil_repository, invalid_submission, repository_required,
  Submission,
}
use blender_shot_preview.Pipeline.Task
use blender_shot_preview.Pipeline.Task.{Failure, Verdict}
use blender_shot_preview.Pipeline.Task.Invariant.{Inv}
use blender_shot_preview.Pipeline.Task.Preserved.{
  set_task_running-Inv, start_nodes-Inv, finish_node-Inv, confirm_node-Inv, adjust_output-Inv,
}
use blender_shot_preview.Pipeline.Task.Settled.{retry-Inv, recover-Inv, complete_if_blocked-Inv}
use blender_shot_preview.Pipeline.Repository
use blender_shot_preview.Pipeline.Repository.{Repository, empty_repository}
use blender_shot_preview.Pipeline.Runner
use blender_shot_preview.Pipeline.Runner.{
  Runner, read_from, new_runner, with_task, start, is_active, subscribe, unsubscribe, worker_ended,
  is_unfinished, submit,
}
use blender_shot_preview.Pipeline.Runner.Stored.{
  HasSound, IsSound, IsSoundIn, update-IsSound, get_sound, given-IsSound, with_task-IsSound,
}
use blender_shot_preview.Pipeline.Runner.Calls.{
  announce_started-IsSound, confirmed-IsSound, adjusted-IsSound, completed-IsSound,
  finished-IsSound, start-IsSound, submit-IsSound, cancel-IsSound,
}
use blender_shot_preview.Pipeline.Runner.Methods
use blender_shot_preview.Pipeline.Runner.Methods.{
  retried, retry_task, requeue_changed, requeue_stored, requeue_task, after_requeue, recover_each,
}

retried-IsSound :
    (id : String) (q : Result Error Task × Runner) → IsSound q.1 → IsSound (retried id q).1
retried-IsSound id (err e, r) s = s
retried-IsSound id (ok task, r) s = start-IsSound id r s

retry_task-Inv : (now : ℕ) (t u v : Task) → retry_task now t ≡ ok (u, v) → Inv t → Inv u
retry_task-Inv now t u v e h =
    let (w, again, same) = >>=-eq-ok (Task.retry now t) (λ w. ok (w, w)) e in
    let is_w : w ≡ u = cc (same) in subst Inv is_w (retry-Inv now t w again h)

retry-IsSound :
    (now : ℕ) (id : String) (r : Runner) → IsSound r → IsSound (Methods.retry now id r).1
unfolding Methods.retry
retry-IsSound now id r s =
    given-IsSound (err task_not_found, r) _ r.repository s
      (λ repository h.
        retried-IsSound (trim_space id) (with_task (trim_space id) (retry_task now) r) (
          with_task-IsSound (trim_space id) (retry_task now) r
            (λ t u v e k. retry_task-Inv now t u v e k) s))
      s

requeue_changed-IsSound :
    (r : Runner) (repository : Repository) (changed : Option Task)
    → ((task : Task) → changed ≡ some task → Inv task)
    → IsSound r
    → HasSound repository
    → IsSound (requeue_changed r repository changed).1
requeue_changed-IsSound r repository none v s h = s
requeue_changed-IsSound r repository (some task) v s h =
    update-IsSound r repository tt task (v task refl) h

requeue_stored-IsSound :
    (now : ℕ) (r : Runner) (repository : Repository) (read : Result Error Task)
    → ((task : Task) → read ≡ ok task → Inv task)
    → IsSound r
    → HasSound repository
    → IsSound (requeue_stored now r repository read).1
requeue_stored-IsSound now r repository (err e) v s h = s
requeue_stored-IsSound now r repository (ok task) v s h =
    requeue_changed-IsSound r repository (Task.recover now task)
      (λ t e. recover-Inv now task t e (v task refl)) s h

requeue_task-IsSound :
    (now : ℕ) (id : String) (r : Runner) → IsSound r → IsSound (requeue_task now id r).1
requeue_task-IsSound now id r s =
    given-IsSound (err nil_repository, r) _ r.repository s
      (λ repository h.
        requeue_stored-IsSound now r repository (Repository.get id repository)
          (λ task found. get_sound id repository task h found) s h)
      s

after_requeue-IsSound :
    (q rest : Result Error (Unit {0}) × Runner)
    → IsSound q.1
    → IsSound rest.1
    → IsSound (after_requeue q rest).1
after_requeue-IsSound (err e, r) rest s t = s
after_requeue-IsSound (ok u, r) rest s t = t

recover_each-IsSound :
    (now : ℕ) (tasks : List Task) (r : Runner) → IsSound r → IsSound (recover_each now tasks r).1
unfolding recover_each
recover_each-IsSound now [] r s = s
recover_each-IsSound now (task ∷ tasks) r s =
    let requeued = requeue_task-IsSound now task.id r s in
    let next = recover_each-IsSound now tasks _ (start-IsSound task.id _ requeued) in
    elim (Bool-cases (is_active task.id r)) [
      | inl active ↦ rw active (recover_each-IsSound now tasks r s)
      | inr idle ↦ rw idle (after_requeue-IsSound (requeue_task now task.id r) _ requeued next)
    ]

recover-IsSound : (now : ℕ) (r : Runner) → IsSound r → IsSound (Methods.recover now r).1
unfolding Methods.recover
recover-IsSound now r s =
    given-IsSound (err (invalid_submission repository_required), r) _ r.repository s
      (λ repository h. recover_each-IsSound now (Repository.list_incomplete repository) r s) s

worker_ended-IsSound :
    (recheck : Bool) (id : String) (r : Runner) → IsSound r → IsSound (worker_ended recheck id r)
unfolding worker_ended
worker_ended-IsSound recheck id r s = go (recheck && is_unfinished (Runner.get id freed))
  where
    freed : Runner
    freed = record r { active = without id r.active }

    go : (b : Bool) → IsSound (if b then (start id freed).1 else freed)
    go true = start-IsSound id freed s
    go false = s

-- One call of a method, by a client or by a worker, or the end of a worker; the waiting for a
-- confirmation is left out.
pub data Call : Runner → Runner → Type 0 where
  submits :
      {r : Runner} (now : ℕ) (id : Option String) (submission : Submission)
      → Call r (submit now id submission r).1
  runs : {r : Runner} (now : ℕ) (id : String) → Call r (Methods.set_task_running now id r).1
  starts :
      {r : Runner} (now : ℕ) (id : String) (ready : List String)
      → Call r (Methods.start_nodes now id ready r).1
  finishes :
      {r : Runner} (now : ℕ) (id node_id : String) (outcome : Result Failure Snapshot)
      → Call r (Methods.finish_node now id node_id outcome r).1
  confirms :
      {r : Runner} (now : ℕ) (id node_id : String) (adjustment : Option Snapshot)
      → Call r (Methods.confirm_node now id node_id adjustment r).1
  adjusts :
      {r : Runner} (now : ℕ) (id node_id : String) (output : Snapshot)
      → Call r (Methods.adjust_node_output now id node_id output r).1
  completes : {r : Runner} (now : ℕ) (id : String) → Call r (Methods.complete_if_blocked now id r).1
  cancels : {r : Runner} (now : ℕ) (id : String) → Call r (Methods.cancel now id r).1
  retries : {r : Runner} (now : ℕ) (id : String) → Call r (Methods.retry now id r).1
  recovers : {r : Runner} (now : ℕ) → Call r (Methods.recover now r).1
  ends : {r : Runner} (recheck : Bool) (id : String) → Call r (worker_ended recheck id r)

pub data Calls (r : Runner) : Runner → Type 0 where
  no_call : Calls r r
  then_call : {s t : Runner} → Calls r s → Call s t → Calls r t

-- An operation that never refuses keeps the invariant if its task does.
changed-Inv {ℓ} :
    {A : Type ℓ} (q p : Task × A)
    → ◌≡◌ {A = Result Error (Task × A)} (ok q) (ok p)
    → Inv q.0
    → Inv p.0
changed-Inv q p e v = let same : q ≡ p = cc in subst (λ z. Inv z.0) same v

Call-IsSound : {r r' : Runner} → Call r r' → IsSound r → IsSound r'
unfolding Methods.set_task_running Methods.start_nodes Methods.finish_node Methods.confirm_node
    Methods.adjust_node_output Methods.complete_if_blocked
Call-IsSound (submits {r} now id submission) s = submit-IsSound now id submission r s
Call-IsSound (runs {r} now id) s =
    with_task-IsSound id _ r
      (λ t u a e v.
        changed-Inv (Task.set_task_running now t, tt) (u, a) e (set_task_running-Inv now t v))
      s
Call-IsSound (starts {r} now id ready) s = announce_started-IsSound now id _ (
    with_task-IsSound id _ r
      (λ t u a e v.
        changed-Inv (Task.start_nodes now ready t) (u, a) e (start_nodes-Inv now ready t v))
      s)
Call-IsSound (finishes {r} now id node_id outcome) s = finished-IsSound now id node_id _ (
    with_task-IsSound id _ r
      (λ t u a e v.
        changed-Inv (Task.finish_node now node_id outcome t) (u, a) e
          (finish_node-Inv now node_id outcome t v))
      s)
Call-IsSound (confirms {r} now id node_id adjustment) s =
    confirmed-IsSound now id node_id _
      (with_task-IsSound id _ r (λ t u a e v. confirm_node-Inv now node_id adjustment t e v) s)
Call-IsSound (adjusts {r} now id node_id output) s =
    adjusted-IsSound now id node_id output _
      (with_task-IsSound id _ r (λ t u a e v. adjust_output-Inv now node_id output t e v) s)
Call-IsSound (completes {r} now id) s = completed-IsSound now id _ (
    with_task-IsSound id _ r
      (λ t u a e v.
        changed-Inv (Task.complete_if_blocked now t) (u, a) e (complete_if_blocked-Inv now t v))
      s)
Call-IsSound (cancels {r} now id) s = cancel-IsSound now id r s
Call-IsSound (retries {r} now id) s = retry-IsSound now id r s
Call-IsSound (recovers {r} now) s = recover-IsSound now r s
Call-IsSound (ends {r} recheck id) s = worker_ended-IsSound recheck id r s

Calls-IsSound : {r r' : Runner} → Calls r r' → IsSound r → IsSound r'
Calls-IsSound no_call s = s
Calls-IsSound (then_call calls call) s = Call-IsSound call (Calls-IsSound calls s)

new_runner-IsSound : IsSound (new_runner (some empty_repository))
unfolding lookup
new_runner-IsSound id task e = cc

got :
    (id : String) (o : Option Repository) (task : Task)
    → IsSoundIn o
    → read_from id o ≡ ok task
    → Inv task
got id none task s e = cc
got id (some repository) task s e = get_sound (trim_space id) repository task s e

-- Whatever methods clients and workers call on a new runner with an empty memory repository, in any
-- order and with any arguments, the waiting for confirmations left out, a task that Get then returns
-- satisfies the invariant of a task's life.
pub get-Inv :
    {r : Runner} (id : String) (task : Task)
    → Calls (new_runner (some empty_repository)) r
    → Runner.get id r ≡ ok task
    → Inv task
unfolding Runner.get
get-Inv {r} id task calls e = got id r.repository task (Calls-IsSound calls new_runner-IsSound) e
