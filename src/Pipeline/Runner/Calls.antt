-- ===== src/Pipeline/Runner/Calls.antt =====
-- The methods of the runner, called one after the other by workers and clients, keep the tasks that
-- it has stored in the invariant.
use blender_shot_preview.Prelude.{
  ℕ, String, Bool, true, false, Option, none, some, List, [], ◌∷◌, ◌≡◌, refl, inl, inr, Result, ok,
  err, ◌==◌, if◌then◌else◌, lookup, Bool-cases, not, contains,
}
use Prim.Native.String.{◌++◌ as ◌<>◌}
use text.Mathlib.Text.{starts_with}
use blender_shot_preview.Prelude.Text.{trim_space}
use blender_shot_preview.Pipeline.Types.{
  Task, Node, Snapshot, Error, task_not_found, invalid_submission, repository_required, Submission,
  is_terminal_task,
}
use blender_shot_preview.Pipeline.Task
use blender_shot_preview.Pipeline.Task.{
  Failure, Verdict, open_still, success, failure, is_succeeded, is_failed,
}
use blender_shot_preview.Pipeline.Task.Invariant.{Inv}
use blender_shot_preview.Pipeline.Task.Settled.{cancel-Inv}
use blender_shot_preview.Pipeline.Task.Submit.{new_task, new_task-Inv}
use blender_shot_preview.Pipeline.Repository
use blender_shot_preview.Pipeline.Repository.{Repository, create_or_replay, create_if_absent}
use blender_shot_preview.Pipeline.Runner.{
  Runner, Event, Channel, task_started, broadcast, offered, start, submit, submitted, stored,
  plain_event,
}
use blender_shot_preview.Pipeline.Runner.Stored.{
  HasSound, IsSound, insert-HasSound, update-IsSound, get_sound, given-IsSound,
}
use blender_shot_preview.Pipeline.Runner.Methods
use blender_shot_preview.Pipeline.Runner.Methods.{
  announce, announce_started, confirmed, announce_adjusted, announce_finished, finished,
  announce_verdict, completed, signalled, signal_confirm, signal_all, write_cancelled,
  cancel_stored, signal_cancelled, retried, retry_task, requeue_changed, requeue_stored,
  requeue_task, after_requeue, recover_each, confirm_key,
}

offered-IsSound :
    (event : Event) (r : Runner) (o : Option (List Channel))
    → IsSound r
    → IsSound (offered event r o)
offered-IsSound event r none s = s
offered-IsSound event r (some channels) s = s

broadcast-IsSound : (event : Event) (r : Runner) → IsSound r → IsSound (broadcast event r)
unfolding broadcast
broadcast-IsSound event r s = offered-IsSound event r (lookup event.task_id r.subscribers) s

announce-IsSound :
    (now : ℕ) (id : String) (nodes : List Node) (r : Runner)
    → IsSound r
    → IsSound (announce now id nodes r)
unfolding announce
announce-IsSound now id [] r s = s
announce-IsSound now id (n ∷ nodes) r s = announce-IsSound now id nodes _ (broadcast-IsSound _ r s)

pub announce_started-IsSound :
    (now : ℕ) (id : String) (q : Result Error (List Node) × Runner)
    → IsSound q.1
    → IsSound (announce_started now id q).1
announce_started-IsSound now id (err e, r) s = s
announce_started-IsSound now id (ok nodes, r) s = announce-IsSound now id nodes r s

signalled-IsSound :
    (key : String) (r : Runner) (o : Option ℕ) → IsSound r → IsSound (signalled key r o)
signalled-IsSound key r none s = s
signalled-IsSound key r (some ch) s = s

signal_all-IsSound :
    (id : String) (chans : List (String × ℕ)) (r : Runner)
    → IsSound r
    → IsSound (signal_all id chans r)
unfolding signal_all
signal_all-IsSound id [] r s = s
signal_all-IsSound id ((key, ch) ∷ chans) r s =
    signal_all-IsSound id chans _ (if_sound (starts_with key (id <> ":")))
  where
    if_sound : (b : Bool) → IsSound (if b then signalled key r (some ch) else r)
    if_sound true = s
    if_sound false = s

pub confirmed-IsSound :
    (now : ℕ) (id node_id : String) (q : Result Error Node × Runner)
    → IsSound q.1
    → IsSound (confirmed now id node_id q).1
unfolding signal_confirm
confirmed-IsSound now id node_id (err e, r) s = s
confirmed-IsSound now id node_id (ok node, r) s = broadcast-IsSound _ _ (
    signalled-IsSound (confirm_key id node_id) r (lookup (confirm_key id node_id) r.confirm_chans)
      s)

pub adjusted-IsSound :
    (now : ℕ) (id node_id : String) (output : Snapshot) (q : Result Error Node × Runner)
    → IsSound q.1
    → IsSound (announce_adjusted now id node_id output q).1
adjusted-IsSound now id node_id output (err e, r) s = s
adjusted-IsSound now id node_id output (ok node, r) s = broadcast-IsSound _ r s

verdict-IsSound :
    (now : ℕ) (id : String) (v : Verdict) (r : Runner)
    → IsSound r
    → IsSound (announce_verdict now id v r)
verdict-IsSound now id open_still r s = s
verdict-IsSound now id success r s = broadcast-IsSound _ r s
verdict-IsSound now id (failure node) r s = broadcast-IsSound _ r s

pub completed-IsSound :
    (now : ℕ) (id : String) (q : Result Error Verdict × Runner)
    → IsSound q.1
    → IsSound (completed now id q).1
completed-IsSound now id (err e, r) s = s
completed-IsSound now id (ok v, r) s = verdict-IsSound now id v r s

announce_finished-IsSound :
    (now : ℕ) (id node_id : String) (o : Option Node) (r : Runner)
    → IsSound r
    → IsSound (announce_finished now id node_id o r)
announce_finished-IsSound now id node_id none r s = s
announce_finished-IsSound now id node_id (some node) r s =
    elim (Bool-cases (is_succeeded node.status)) [
      | inl done ↦ rw done (broadcast-IsSound _ r s)
      | inr undone ↦ elim (Bool-cases (is_failed node.status)) [
        | inl failed ↦ rw (undone, failed) (broadcast-IsSound _ r s)
        | inr again ↦ rw (undone, again) s
      ]
    ]

pub finished-IsSound :
    (now : ℕ) (id node_id : String) (q : Result Error (Option Node) × Runner)
    → IsSound q.1
    → IsSound (finished now id node_id q).1
finished-IsSound now id node_id (err e, r) s = s
finished-IsSound now id node_id (ok node, r) s = announce_finished-IsSound now id node_id node r s

pub start-IsSound : (id : String) (r : Runner) → IsSound r → IsSound (start id r).1
unfolding start
start-IsSound id r s = elim (Bool-cases (contains id r.active)) [
  | inl active ↦ rw active s
  | inr idle ↦ rw idle s
]

submitted-IsSound :
    (now : ℕ) (r : Runner) (q : Result Error (Task × Bool) × Repository)
    → HasSound q.1
    → IsSound (submitted now r q).1
submitted-IsSound now r (err e, repository) h = h
submitted-IsSound now r (ok (task, created), repository) h =
    begun (not (is_terminal_task task.status))
  where
    noted : IsSound (
        broadcast
          (plain_event now task.id task_started "")
          (record r { repository = some repository }))
    noted = broadcast-IsSound _ (record r { repository = some repository }) h

    begun :
        (b : Bool)
        → let r' =
            broadcast
              (plain_event now task.id task_started "")
              (record r { repository = some repository }) in
          IsSound (if b then (start task.id r').1 else r')
    begun true = start-IsSound task.id _ noted
    begun false = noted

create-HasSound :
    (task : Task) (repository : Repository) (o : Option String)
    → Inv task
    → HasSound repository
    → HasSound (create_or_replay task repository o).1
create-HasSound task repository none v h =
    insert-HasSound task repository (create_or_replay task repository none).1 refl v h
create-HasSound task repository (some id) v h = h

stored-IsSound :
    (now : ℕ) (r : Runner) (repository : Repository) (made : Result Error Task)
    → ((task : Task) → made ≡ ok task → Inv task)
    → IsSound r
    → HasSound repository
    → IsSound (stored now r repository made).1
unfolding create_if_absent
stored-IsSound now r repository (err e) v s h = s
stored-IsSound now r repository (ok task) v s h = submitted-IsSound now r _ (
    create-HasSound task repository (lookup task.idempotency_key repository.by_idempotency_key)
      (v task refl) h)

pub submit-IsSound :
    (now : ℕ) (id : Option String) (submission : Submission) (r : Runner)
    → IsSound r
    → IsSound (submit now id submission r).1
unfolding submit
submit-IsSound now id submission r s =
    given-IsSound (err (invalid_submission repository_required), r) _ r.repository s
      (λ repository h.
        stored-IsSound now r repository (new_task now id submission)
          (λ task made. new_task-Inv now id submission task made) s h)
      s

write_cancelled-IsSound :
    (r : Runner) (repository : Repository) (cancelled : Result Error (Option Task))
    → ((task : Task) → cancelled ≡ ok (some task) → Inv task)
    → IsSound r
    → HasSound repository
    → IsSound (write_cancelled r repository cancelled).1
write_cancelled-IsSound r repository (err e) v s h = s
write_cancelled-IsSound r repository (ok none) v s h = s
write_cancelled-IsSound r repository (ok (some task)) v s h =
    update-IsSound r repository true task (v task refl) h

cancel_stored-IsSound :
    (now : ℕ) (r : Runner) (repository : Repository) (read : Result Error Task)
    → ((task : Task) → read ≡ ok task → Inv task)
    → IsSound r
    → HasSound repository
    → IsSound (cancel_stored now r repository read).1
cancel_stored-IsSound now r repository (err e) v s h = s
cancel_stored-IsSound now r repository (ok task) v s h =
    write_cancelled-IsSound r repository (Task.cancel now task)
      (λ t e. cancel-Inv now task t e (v task refl)) s h

signal_cancelled-IsSound :
    (id : String) (q : Result Error Bool × Runner) → IsSound q.1 → IsSound (signal_cancelled id q).1
signal_cancelled-IsSound id (err e, r) s = s
signal_cancelled-IsSound id (ok false, r) s = s
signal_cancelled-IsSound id (ok true, r) s = signal_all-IsSound id r.confirm_chans r s

pub cancel-IsSound :
    (now : ℕ) (id : String) (r : Runner) → IsSound r → IsSound (Methods.cancel now id r).1
unfolding Methods.cancel
cancel-IsSound now id r s =
    given-IsSound (err task_not_found, r) _ r.repository s
      (λ repository h. named (trim_space id) repository h (trim_space id == "")) s
  where
    named :
        (key : String) (repository : Repository)
        → HasSound repository
        → (b : Bool)
        → IsSound
            (if◌then◌else◌ {A = Result Error (Unit {0}) × Runner} b
              (err task_not_found, r)
              (signal_cancelled key
                (cancel_stored now r repository (Repository.get key repository)))).1
    named key repository h true = s
    named key repository h false =
        signal_cancelled-IsSound key
          (cancel_stored now r repository (Repository.get key repository))
          (cancel_stored-IsSound now r repository (Repository.get key repository)
            (λ task found. get_sound key repository task h found) s h)
