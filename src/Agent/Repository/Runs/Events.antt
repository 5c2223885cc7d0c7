-- ===== src/Agent/Repository/Runs/Events.antt =====
-- The events of a run, as they were appended.
use blender_shot_preview.Prelude.{
  String, true, List, [], ◌∷◌, ◌++◌, ◌≡◌, refl, sym, ap, ◌∙◌, inl, inr, Result, ok, err, ◌==◌,
  lookup, lookup-insert, if◌then◌else◌, Bool-cases, ==-eq,
}
use mathlib.Core.List.{append_assoc, append-nil}
use blender_shot_preview.Agent.Types.{AgentEvent, RepositoryError}
use blender_shot_preview.Agent.Repository.{exists}
use blender_shot_preview.Agent.Repository.Runs.{RunRepository, or_nil, append_event, list_events}

-- The repository after the events are appended one by one; a refused event changes nothing.
abbrev pub or_same : RunRepository → Result RepositoryError RunRepository → RunRepository
or_same r (err e) = r
or_same r (ok r') = r'

abbrev pub append_all : List AgentEvent → RunRepository → RunRepository
append_all [] r = r
append_all (event ∷ events) r = append_all events (or_same r (append_event event r))

abbrev pub of_run : String → List AgentEvent → List AgentEvent
of_run id [] = []
of_run id (event ∷ events) =
    let rest = of_run id events in if event.run_id == id then event ∷ rest else rest

abbrev first_of : String → AgentEvent → List AgentEvent
first_of id event = if event.run_id == id then event ∷ [] else []

appended :
    (event : AgentEvent) (r : RunRepository) (id : String)
    → exists (lookup id r.runs) ≡ true
    → let r' = or_same r (append_event event r) in
      (r'.runs ≡ r.runs)
      × (or_nil (lookup id r'.events) ≡ or_nil (lookup id r.events) ++ first_of id event)
unfolding append_event
appended event r id known = elim (Bool-cases (exists (lookup event.run_id r.runs))) [
  | inl there ↦ rw there (
    refl,
    rw
        (lookup-insert event.run_id id (or_nil (lookup event.run_id r.events) ++ event ∷ [])
          r.events)
        (elim (Bool-cases (event.run_id == id)) [
          | inl same ↦
              rw same
                (ap (λ k. or_nil (lookup k r.events) ++ event ∷ []) (==-eq event.run_id id same))
          | inr other ↦ rw other (sym (append-nil _))
        ]),
  )
  | inr missing ↦ rw missing (
    refl,
    elim (Bool-cases (event.run_id == id)) [
      | inl same ↦ absurd (
          let there : exists (lookup event.run_id r.runs) ≡ true =
            ap (λ k. exists (lookup k r.runs)) (==-eq event.run_id id same) ∙ known in
          cc)
      | inr other ↦ rw other (sym (append-nil _))
    ],
  )
]

of_run-first :
    (id : String) (event : AgentEvent) (events : List AgentEvent)
    → first_of id event ++ of_run id events ≡ of_run id (event ∷ events)
of_run-first id event events = elim (Bool-cases (event.run_id == id)) [
  | inl same ↦ rw same refl
  | inr other ↦ rw other refl
]

-- After any events are appended, ListEvents gives for a run that is there the events it had, and
-- then those appended for this run, in their order.
pub list_events-append_all :
    (events : List AgentEvent) (r : RunRepository) (id : String)
    → exists (lookup id r.runs) ≡ true
    → list_events id (append_all events r) ≡ ok (or_nil (lookup id r.events) ++ of_run id events)
unfolding list_events
list_events-append_all [] r id known = rw (known) (ap ok (sym (append-nil _)))
list_events-append_all (event ∷ events) r id known =
    let r' = or_same r (append_event event r) in
    let (runs, here) = appended event r id known in
    let rest = list_events-append_all events r' id (ap (λ q. exists (lookup id q)) runs ∙ known) in
    rest
    ∙ ap ok (
        ap (λ q. q ++ of_run id events) here
        ∙ append_assoc (or_nil (lookup id r.events)) (first_of id event) (of_run id events)
        ∙ ap (λ q. or_nil (lookup id r.events) ++ q) (of_run-first id event events))
