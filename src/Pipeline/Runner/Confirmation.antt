-- ===== src/Pipeline/Runner/Confirmation.antt =====
-- The channel by which ConfirmNode wakes the worker that waits for it.
use blender_shot_preview.Prelude.{
  ℕ, zero, suc, String, true, false, Option, none, some, Result, ok, err, ap, ◌∙◌, List, [], ◌∷◌,
  ◌++◌, ◌≡◌, refl, sym, subst, lookup, lookup-insert, length, set, get_elem?, get_elem?-append,
  ==_self,
}
use blender_shot_preview.Pipeline.Types.{Task, Node, Snapshot, Error, not_waiting}
use blender_shot_preview.Pipeline.Task
use blender_shot_preview.Pipeline.Task.{check_waiting}
use blender_shot_preview.Pipeline.Task.Confirmed.{confirm_node_once}
use blender_shot_preview.Pipeline.Repository
use blender_shot_preview.Pipeline.Repository.{Repository, found_or_error, replace}
use blender_shot_preview.Pipeline.Runner.Accepted.{
  broadcast-confirm_chans, confirm_node-id, put, put-get, with_task-accepted, confirm_node_refused,
}
use blender_shot_preview.Pipeline.Runner.Submitted.{broadcast-repository}
use blender_shot_preview.Pipeline.Runner.{Runner, plain_event, node_succeeded, Event, broadcast}
use blender_shot_preview.Pipeline.Runner.Methods.{
  get_confirm_chan, signal_confirm, registered, confirm_key, confirm_node, confirmed, output_text,
}

get_elem?-set_self {ℓ} :
    {A : Type ℓ} (xs : List A) (i : ℕ) (u v : A)
    → get_elem? xs i ≡ some u
    → get_elem? (set xs i v) i ≡ some v
get_elem?-set_self [] i u v h = cc
get_elem?-set_self (x ∷ xs) zero u v h = refl
get_elem?-set_self (x ∷ xs) (suc i) u v h = get_elem?-set_self xs i u v h

-- Where no channel is registered for a node, a worker that takes one is woken by the next signal for
-- the node: the signal fills the channel that the worker holds.
pub signal-wakes :
    (task_id node_id : String) (r : Runner)
    → lookup (confirm_key task_id node_id) r.confirm_chans ≡ none
    → let (ch, r') = get_confirm_chan task_id node_id r in
      get_elem? (signal_confirm task_id node_id r').signals ch ≡ some true
unfolding get_confirm_chan signal_confirm
signal-wakes task_id node_id r e =
    rw
      (
        e,
        get_confirm_chan,
        registered,
        signal_confirm,
        lookup-insert,
        ==_self (confirm_key task_id node_id),
      )
      (get_elem?-set_self (r.signals ++ false ∷ []) (length r.signals) false true
        (get_elem?-append r.signals false))

-- A worker that takes its channel now gets an empty one, and a confirmation is refused.
abbrev IsStuck : ℕ → String → String → Option Snapshot → Runner → Type 0
IsStuck later id node_id again r1 =
    let (ch, r2) = get_confirm_chan id node_id r1 in
    let (refusal, r3) = confirm_node later id node_id again r2 in
    (get_elem? r2.signals ch ≡ some false)
    × (refusal ≡ err not_waiting)
    × (get_elem? r3.signals ch ≡ some false)

waits_on_new :
    (later : ℕ) (id node_id : String) (again : Option Snapshot) (r : Runner)
    (repository : Repository) (task : Task)
    → r.repository ≡ some repository
    → Repository.get id repository ≡ ok task
    → Task.confirm_node later node_id again task ≡ err not_waiting
    → lookup (confirm_key id node_id) r.confirm_chans ≡ none
    → IsStuck later id node_id again r
unfolding get_confirm_chan
waits_on_new later id node_id again r repository task there found refuses free =
    let key : String = confirm_key id node_id in
    let taken : Runner = (registered key r none).1 in
    let same : registered key r none ≡ get_confirm_chan id node_id r =
      sym (ap (registered key r) free) in
    let refused : confirm_node later id node_id again taken ≡ (err not_waiting, taken) =
      confirm_node_refused later id node_id again taken repository task not_waiting there found
        refuses in
    let empty : get_elem? taken.signals (length r.signals) ≡ some false =
      get_elem?-append r.signals false in
    subst
      (λ (p : ℕ × Runner).
        let (ch, r2) = p in
        let (refusal, r3) = confirm_node later id node_id again r2 in
        (get_elem? r2.signals ch ≡ some false)
        × (refusal ≡ err not_waiting)
        × (get_elem? r3.signals ch ≡ some false))
      same
      (
        empty,
        ap (λ q. q.0) refused,
        ap (λ q. get_elem? q.1.signals (length r.signals)) refused ∙ empty,
      )

-- What ConfirmNode leaves where no channel is registered.
unheard :
    (now : ℕ) (id node_id : String) (adjustment : Option Snapshot) (r : Runner)
    (repository : Repository) (task task' : Task) (node : Node)
    → r.repository ≡ some repository
    → Repository.get id repository ≡ ok task
    → task.id ≡ id
    → Task.confirm_node now node_id adjustment task ≡ ok (task', node)
    → lookup (confirm_key id node_id) r.confirm_chans ≡ none
    → (event : Event) × (confirm_node now id node_id adjustment r
        ≡ (ok tt, broadcast event (record r { repository = some (put task' repository) })))
unfolding confirm_node signal_confirm
unheard now id node_id adjustment r repository task task' node there found named h free =
    let accepted =
      with_task-accepted id (Task.confirm_node now node_id adjustment) r repository task task' node
        there found h (confirm_node-id now node_id adjustment task task' node h ∙ named) in
    (
      record (plain_event now id node_succeeded node_id) { output = output_text node.output },
      ap (confirmed now id node_id) accepted ∙ rw free refl,
    )

-- A confirmation that comes before the worker takes its channel is lost. Where no channel is registered
-- for a node of a stored task, and the task accepts a confirmation of the node, ConfirmNode succeeds;
-- the channel that the worker takes next is empty, and a further ConfirmNode for the node, with any
-- adjustment, is refused and leaves that channel empty.
pub signal_lost :
    (now later : ℕ) (id node_id : String) (adjustment again : Option Snapshot) (r : Runner)
    (repository : Repository) (task task' : Task) (node : Node)
    → r.repository ≡ some repository
    → Repository.get id repository ≡ ok task
    → task.id ≡ id
    → Task.confirm_node now node_id adjustment task ≡ ok (task', node)
    → lookup (confirm_key id node_id) r.confirm_chans ≡ none
    → let (answer, r1) = confirm_node now id node_id adjustment r in
      let (ch, r2) = get_confirm_chan id node_id r1 in
      let (refusal, r3) = confirm_node later id node_id again r2 in
      (answer ≡ ok tt)
      × ((get_elem? r2.signals ch ≡ some false)
          × (refusal ≡ err not_waiting)
          × (get_elem? r3.signals ch ≡ some false))
signal_lost now later id node_id adjustment again r repository task task' node there found named h
      free =
    let (event, unheard_by) =
      unheard now id node_id adjustment r repository task task' node there found named h free in
    let stored : Runner = record r { repository = some (put task' repository) } in
    let stays : task'.id ≡ id = confirm_node-id now node_id adjustment task task' node h ∙ named in
    subst
      (λ (q : Result Error (Unit {0}) × Runner).
        let (answer, r1) = q in (answer ≡ ok tt) × IsStuck later id node_id again r1)
      (sym unheard_by)
      (
        refl,
        waits_on_new later id node_id again (broadcast event stored) (put task' repository) task'
            (broadcast-repository event stored) (put-get id task' repository stays)
            (confirm_node_once now later node_id adjustment again task task' node h).1
            (ap (λ chans. lookup (confirm_key id node_id) chans)
                (broadcast-confirm_chans event stored)
              ∙ free),
      )
