-- ===== src/Agent/Service/Logged.antt =====
-- The events of an execution: those that were sent are those of the repository, numbered from 1.
use blender_shot_preview.Prelude.{
  ℕ, suc, ◌+◌, pos, String, Bool, true, false, none, some, List, [], ◌∷◌, ◌++◌, ◌≡◌, refl, sym, ap,
  subst, ◌∙◌, Result, ok, err, ◌==◌, ==_self, if◌then◌else◌, arith, All, All-append, length,
  length-append, lookup, insert, lookup-insert,
}
use blender_shot_preview.Agent.Types
use blender_shot_preview.Agent.Types.{
  AgentRun, AgentEvent, AgentEventType, agent_started, message_delta, tool_started, tool_finished,
  agent_complete, agent_failed, agent_canceled,
}
use blender_shot_preview.Agent.Repository.{exists}
use blender_shot_preview.Agent.Repository.Runs.{RunRepository, or_nil}
use blender_shot_preview.Agent.Repository.Runs
use blender_shot_preview.Agent.Service.{
  Execution, Draft, event_of, publish, publish_calls, publish_message, kept, handle, next, consume,
  Role, Message, RunnerEvent, Failure, of_tool, plain, with_output, tool, assistant, other, broken,
  without_output, message_output,
}

-- The numbers of the events go up by 1 from the one after `n`.
abbrev pub Numbered : ℕ → List AgentEvent → Type 0
Numbered n [] = Unit
Numbered n (e ∷ es) = (e.sequence ≡ pos (suc n)) × Numbered (suc n) es

Numbered-append :
    (n : ℕ) (es : List AgentEvent) (e : AgentEvent)
    → Numbered n es
    → e.sequence ≡ pos (suc (n + length es))
    → Numbered n (es ++ e ∷ [])
Numbered-append n [] e h last = (last ∙ ap (λ k. pos (suc k)) (omega arith), tt)
Numbered-append n (d ∷ es) e h last =
    (h.0, Numbered-append (suc n) es e h.1 (last ∙ ap (λ k. pos (suc k)) (omega arith)))

-- An event that does not end a run.
abbrev pub is_progress : AgentEventType → Bool
is_progress agent_started = true
is_progress message_delta = true
is_progress tool_started = true
is_progress tool_finished = true
is_progress agent_complete = false
is_progress agent_failed = false
is_progress agent_canceled = false

-- What holds of an execution between two events. The repository has the run, and for it the events
-- that were sent.
pub record IsLogged (x : Execution) : Type 0 where
  pub there : exists (lookup x.run.id x.runs.runs) ≡ true
  pub same : or_nil (lookup x.run.id x.runs.events) ≡ x.sent
  pub counted : x.sequence ≡ length x.sent
  pub numbered : Numbered 0 x.sent

abbrev pub IsQuiet : Execution → Type 0
IsQuiet x = All (λ e. is_progress e.event_type ≡ true) x.sent

pub publish-IsLogged :
    (clock : ℕ → ℕ) (d : Draft) (x : Execution) → IsLogged x → IsLogged (publish clock d x)
unfolding publish Runs.append_event
publish-IsLogged clock d x h =
    let event : AgentEvent = event_of clock d x.run.id (suc x.sequence) in
    let old : List AgentEvent = or_nil (lookup x.run.id x.runs.events) in
    let stored : RunRepository = record x.runs {
      events = insert x.run.id (old ++ event ∷ []) x.runs.events;
    } in
    let appended : Runs.append_event event x.runs ≡ ok stored =
      ap (λ b. if b then ok stored else err Types.run_not_found) h.there in
    subst
      (λ r.
        IsLogged (record x {
          runs = kept x.runs r;
          sequence = suc x.sequence;
          sent = x.sent ++ event ∷ [];
        }))
      (sym appended)
      (record {
        there = h.there;
        same =
            ap or_nil (lookup-insert x.run.id x.run.id (old ++ event ∷ []) x.runs.events)
            ∙ ap
                (λ b.
                  or_nil (if b then some (old ++ event ∷ []) else lookup x.run.id x.runs.events))
                (==_self x.run.id)
            ∙ ap (λ es. es ++ event ∷ []) h.same;
        counted = ap suc h.counted ∙ sym (length-append x.sent (event ∷ []) ∙ omega arith);
        numbered =
            Numbered-append 0 x.sent event h.numbered
              (ap (λ k. pos (suc k)) (h.counted ∙ omega arith));
      })

-- The run and the repository's run are as before, and the event is one more.
pub publish-IsQuiet :
    (clock : ℕ → ℕ) (d : Draft) (x : Execution)
    → is_progress d.event_type ≡ true
    → IsQuiet x
    → IsQuiet (publish clock d x)
unfolding publish
publish-IsQuiet clock d x progress h =
    All-append (λ e. is_progress e.event_type ≡ true) x.sent _ h (progress, tt)

-- Both, of a state and of the one it leads to, whose run has the same identifier.
abbrev pub IsSound : Execution → Type 0
IsSound x = IsLogged x × IsQuiet x

abbrev pub Keeps : Execution → Execution → Type 0
Keeps x y = (y.run.id ≡ x.run.id) × (IsSound x → IsSound y)

publish-Keeps :
    (clock : ℕ → ℕ) (d : Draft) (x : Execution)
    → is_progress d.event_type ≡ true
    → Keeps x (publish clock d x)
unfolding publish
publish-Keeps clock d x progress =
    (refl, λ (l, q). (publish-IsLogged clock d x l, publish-IsQuiet clock d x progress q))

Keeps-trans : (x y z : Execution) → Keeps x y → Keeps y z → Keeps x z
Keeps-trans x y z (e, f) (e', f') = (e' ∙ e, λ h. f' (f h))

with_output-Keeps : (text : String) (x : Execution) → Keeps x (with_output text x)
with_output-Keeps text x = (
  refl,
  λ (l, q).
      (record { there = l.there; same = l.same; counted = l.counted; numbered = l.numbered }, q),
)

publish_calls-Keeps :
    (clock : ℕ → ℕ) (names : List String) (x : Execution) → Keeps x (publish_calls clock names x)
unfolding publish_calls
publish_calls-Keeps clock [] x = (refl, λ h. h)
publish_calls-Keeps clock (name ∷ names) x =
    let y = publish clock (of_tool tool_started name "") x in
    Keeps-trans x y (publish_calls clock names y)
      (publish-Keeps clock (of_tool tool_started name "") x refl)
      (publish_calls-Keeps clock names y)

publish_message-Keeps :
    (clock : ℕ → ℕ) (role : Role) (name : String) (m : Message) (x : Execution)
    → Keeps x (publish_message clock role name m x)
unfolding publish_message
publish_message-Keeps clock tool name m x =
    publish-Keeps clock (of_tool tool_finished name m.content) x refl
publish_message-Keeps clock assistant name m x =
    let called = publish_calls clock m.tool_calls x in
    let first = publish_calls-Keeps clock m.tool_calls x in
    let spoken = with_output m.content called in
    let done = publish clock (plain message_delta m.content) spoken in
    let second =
      Keeps-trans called spoken done (with_output-Keeps m.content called)
        (publish-Keeps clock (plain message_delta m.content) spoken refl) in
    either_keeps (m.content == "") called done first (Keeps-trans x called done first second)
  where
    either_keeps :
        (b : Bool) (y z : Execution) → Keeps x y → Keeps x z → Keeps x (if b then y else z)
    either_keeps true y z h k = h
    either_keeps false y z h k = k
publish_message-Keeps clock (other role) name m x = (refl, λ h. h)

handle-Keeps : (clock : ℕ → ℕ) (e : RunnerEvent) (x : Execution) → Keeps x (handle clock e x).1
handle-Keeps clock (broken e) x = (refl, λ h. h)
handle-Keeps clock without_output x = (refl, λ h. h)
handle-Keeps clock (message_output role name (err e)) x = (refl, λ h. h)
handle-Keeps clock (message_output role name (ok none)) x = (refl, λ h. h)
handle-Keeps clock (message_output role name (ok (some m))) x =
    publish_message-Keeps clock role name m x

-- consume keeps the run's identifier, and publishes events that do not end the run.
pub consume-Keeps :
    (clock : ℕ → ℕ) (events : List RunnerEvent) (x : Execution) → Keeps x (consume clock events x).1
unfolding consume
consume-Keeps clock [] x = (refl, λ h. h)
consume-Keeps clock (e ∷ es) x =
    next_keeps (handle clock e x) (handle-Keeps clock e x) (λ y. consume-Keeps clock es y)
  where
    next_keeps :
        (p : Result Failure (Unit {0}) × Execution)
        → Keeps x p.1
        → ((y : Execution) → Keeps y (consume clock es y).1)
        → Keeps x (next (λ y. consume clock es y) p).1
    next_keeps (err f, y) h k = h
    next_keeps (ok done, y) h k = Keeps-trans x y (consume clock es y).1 h (k y)
