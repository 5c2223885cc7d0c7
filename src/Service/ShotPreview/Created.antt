-- ===== src/Service/ShotPreview/Created.antt =====
-- A task that CreateTask has accepted, as its user and others see it.
use blender_shot_preview.Prelude.{
  ℕ, String, Bool, true, false, not, ◌||◌, Option, none, some, ◌≡◌, refl, sym, ap, subst, ◌∙◌,
  Result, ok, err, ok-injective, ◌==◌, if◌then◌else◌, Ensures, Ensures-ok, Ensures->>=,
  Ensures-refuse_if,
}
use blender_shot_preview.Prelude.Text.{trim_space, is_blank}
use blender_shot_preview.Prelude.Json
use blender_shot_preview.Pipeline.Types.{
  Task, TaskStatus, Snapshot, Submission, Error, new_snapshot,
}
use blender_shot_preview.Pipeline.Task.Submit.{new_task}
use blender_shot_preview.Pipeline.Runner
use blender_shot_preview.Pipeline.Runner.{Runner}
use blender_shot_preview.Pipeline.Runner.Submitted.{submit-get}
use blender_shot_preview.Service.ShotPreview.{
  task_for_user, get_task, owned, found, find_in, viewed,
}
use blender_shot_preview.Service.ShotPreview.Types.{
  ShotError, task_not_found, invalid_task_request, CreateTaskRequest, CreateTaskResult,
  ConversationStore, ShotPreviewInput, Codec, ShotPreview,
}
use blender_shot_preview.Service.ShotPreview.Views.{task_view}
use blender_shot_preview.Service.ShotPreview.Create.{
  create_task, trimmed, check_request, checked_create, in_conversation, open_conversation,
  submit_input, after_submit, link_task, with_runner, then_stored, created_result, submission_of,
  input_of,
}

-- The documented contract of Marshal and Unmarshal for the inputs that a request can have, whose texts
-- are never empty.
abbrev pub IsCodec : Codec → CreateTaskRequest → Type 0
IsCodec c q =
    (conversation_id : String)
    → (c.decode (c.encode (input_of q conversation_id)) ≡ some (input_of q conversation_id))
      × ((c.encode (input_of q conversation_id) == "") ≡ false)

abbrev or_braces : String → String
or_braces raw = if raw == "" then "{}" else raw

new_snapshot-json :
    (now at : ℕ) (raw : String) → Ensures (λ s. s.json ≡ or_braces raw) (new_snapshot now raw at)
unfolding new_snapshot
new_snapshot-json now at raw = go (not (Json.valid (or_braces raw))) _ _
  where
    go :
        (b : Bool) (e : Error) (captured_at : ℕ)
        → Ensures
            (λ s. s.json ≡ or_braces raw)
            (if◌then◌else◌ {A = Result Error Snapshot} b
              (err e)
              (ok (record { json = or_braces raw; captured_at = captured_at })))
    go true e captured_at = record { value = λ s x. cc }
    go false e captured_at = Ensures-ok _ refl

-- What a new task has of its submission.
abbrev IsNewOf : String → Submission → Task → Type 0
IsNewOf id submission task =
    (task.id ≡ id)
    × (task.status ≡ TaskStatus.pending)
    × (task.input.json ≡ or_braces submission.input.json)

new_task-IsNewOf :
    (now : ℕ) (id : String) (submission : Submission)
    → Ensures (IsNewOf id submission) (new_task now (some id) submission)
unfolding new_task
new_task-IsNewOf now id submission = Ensures-refuse_if _ _ _ (λ keyed.
    Ensures->>= _ _ (λ done valid. Ensures->>= _ _ (λ input captured.
      Ensures->>= _ _ (λ task_id drawn. Ensures->>= _ _ (λ nodes made. Ensures-ok _ (
        sym (ok-injective drawn),
        refl,
        (new_snapshot-json now submission.input.captured_at submission.input.json).value input
            captured,
      ))))))

-- How an accepted request went: what was submitted, and the task that the runner answered with.
record IsAccepted {C : ConversationStore} (c : Codec) (now : ℕ) (id : String)
    (q : CreateTaskRequest) (result : CreateTaskResult) (s : ShotPreview C) : Type 0 where
  pub task : Task
  pub created : Bool
  pub conversation_id : String
  pub input : Snapshot
  pub before : Runner
  pub captured : new_snapshot now (c.encode (input_of q conversation_id)) now ≡ ok input
  pub answered : (Runner.submit now (some id) (submission_of q input) before).0 ≡ ok (task, created)
  pub runs : s.runner ≡ some (Runner.submit now (some id) (submission_of q input) before).1
  pub result_of : result ≡ created_result q task created

linked :
    (C : ConversationStore) (now : ℕ) (q : CreateTaskRequest) (task : Task) (created : Bool)
    (conv : Option C.State) (result : CreateTaskResult)
    → (link_task C now q task created conv).0 ≡ ok result
    → result ≡ created_result q task created
linked C now q task created none result = λ e. sym (ok-injective e)
linked C now q task created (some conv) result = go (C.update_message _ conv)
  where
    go :
        (p : Result String (Unit {0}) × C.State)
        → (then_stored
            (λ done conv'. (
              ok (created_result q task created),
              some (C.update_task task.id (task_view task) conv'),
            ))
            p).0
          ≡ ok result
        → result ≡ created_result q task created
    go (err e, conv') h = cc
    go (ok done, conv') h = sym (ok-injective h)

with_runner_parts :
    (C : ConversationStore) {A : Type 0} (r : Runner) (p : Result ShotError A × Option C.State)
    → ((with_runner {C = C} r p).0 ≡ p.0) × ((with_runner {C = C} r p).1.runner ≡ some r)
with_runner_parts C r (answer, conv) = (refl, refl)

module _ {C : ConversationStore} (c : Codec) (now : ℕ) (id : String) (q : CreateTaskRequest) where
  submit_input-IsAccepted :
      (r : Runner) (conv : Option C.State) (conversation_id : String) (result : CreateTaskResult)
      (m : Result Error Snapshot)
      → new_snapshot now (c.encode (input_of q conversation_id)) now ≡ m
      → (submit_input {C = C} c now (some id) q r conv m).0 ≡ ok result
      → IsAccepted c now id q result (submit_input {C = C} c now (some id) q r conv m).1
  submit_input-IsAccepted r conv conversation_id result (err e) captured h = cc
  submit_input-IsAccepted r conv conversation_id result (ok input) captured h =
      go (Runner.submit now (some id) (submission_of q input) r) refl h
    where
      go :
          (p : Result Error (Task × Bool) × Runner)
          → Runner.submit now (some id) (submission_of q input) r ≡ p
          → (after_submit {C = C} c now q conv p).0 ≡ ok result
          → IsAccepted c now id q result (after_submit {C = C} c now q conv p).1
      go (err e, r') submitted h' = cc
      go (ok (task, created), r') submitted h' =
          let (answer, runner) = with_runner_parts C r' (link_task C now q task created conv) in
          record {
            task = task;
            created = created;
            conversation_id = conversation_id;
            input = input;
            before = r;
            captured = captured;
            answered = ap (λ x. x.0) submitted;
            runs = runner ∙ ap (λ x. some x.1) (sym submitted);
            result_of = linked C now q task created conv result (sym answer ∙ h');
          }

  in_conversation-IsAccepted :
      (r : Runner) (p : Result ShotError String × Option C.State) (result : CreateTaskResult)
      → (in_conversation {C = C} c now (some id) q r p).0 ≡ ok result
      → IsAccepted c now id q result (in_conversation {C = C} c now (some id) q r p).1
  in_conversation-IsAccepted r (err e, conv) result h = cc
  in_conversation-IsAccepted r (ok conversation_id, conv) result h =
      submit_input-IsAccepted r conv conversation_id result _ refl h

  checked_create-IsAccepted :
      (s : ShotPreview C) (m : Result ShotError (Unit {0})) (o : Option Runner)
      (result : CreateTaskResult)
      → (checked_create c now (some id) q s m o).0 ≡ ok result
      → IsAccepted c now id q result (checked_create c now (some id) q s m o).1
  checked_create-IsAccepted s (err e) o result h = cc
  checked_create-IsAccepted s (ok done) none result h = cc
  checked_create-IsAccepted s (ok done) (some r) result h =
      in_conversation-IsAccepted r (open_conversation C now q s.conversations) result h

-- What the service finds of an accepted task, in terms of who asks.
accepted_for_user :
    {C : ConversationStore} (c : Codec) (now : ℕ) (id : String) (q : CreateTaskRequest)
    (result : CreateTaskResult) (s : ShotPreview C) (user : String)
    → IsCodec c q
    → trim_space id ≡ id
    → (id == "") ≡ false
    → IsAccepted c now id q result s
    → result.replayed ≡ false
    → (trim_space user == "") ≡ false
    → (result.task_id ≡ id)
      × ((task : Task) × (task.id ≡ id)
          × (task.status ≡ TaskStatus.pending)
          × (task_for_user c user id s
              ≡ (if q.user_id == trim_space user then ok task else err task_not_found)))
unfolding task_for_user
accepted_for_user c now id q result s user codec trims filled x fresh named =
    let i : ShotPreviewInput = input_of q x.conversation_id in
    let submission : Submission = submission_of q x.input in
    let r : Runner = (Runner.submit now (some id) submission x.before).1 in
    let new : x.created ≡ true =
      not_false x.created (sym (ap (λ a. a.replayed) x.result_of) ∙ fresh) in
    let (made, there) =
      submit-get now (some id) submission x.before x.task
        (x.answered ∙ ap (λ b. ok (x.task, b)) new) in
    let (own, pending, json) = (new_task-IsNewOf now id submission).value x.task made in
    let at : Runner.get (trim_space id) r ≡ ok x.task =
      subst (λ k. Runner.get k r ≡ ok x.task) (own ∙ sym trims)
        (there (subst (λ k. trim_space k ≡ k) (sym own) trims)) in
    let text : or_braces (c.encode i) ≡ c.encode i =
      ap (λ b. if b then "{}" else c.encode i) (codec x.conversation_id).1 in
    let captured : x.input.json ≡ c.encode i =
      (new_snapshot-json now now (c.encode i)).value x.input x.captured ∙ text in
    let reads : c.decode x.task.input.json ≡ some i =
      ap c.decode (json ∙ ap or_braces captured ∙ text) ∙ (codec x.conversation_id).0 in
    let open_to : (trim_space user == "" || trim_space id == "") ≡ false =
      rw (named, trims, filled) refl in
    (
      ap (λ a. a.task_id) x.result_of ∙ own,
      (
        x.task,
        own,
        pending,
        ap (find_in c (trim_space user) (trim_space id)) x.runs
            ∙ ap
                (λ b.
                  if b
                  then err invalid_task_request
                  else found c (trim_space user) (Runner.get (trim_space id) r))
                open_to
            ∙ ap (found c (trim_space user)) at
            ∙ ap (owned (trim_space user) x.task) reads,
      ),
    )
  where
    not_false : (b : Bool) → not b ≡ false → b ≡ true
    not_false true e = refl
    not_false false e = cc

-- A task that CreateTask has accepted and not replayed is there at once: its identifier is the one that
-- was drawn, GetTask answers the user of the request with the view of a pending task under this
-- identifier, and answers ErrTaskNotFound to every other user. It is assumed that decoding undoes
-- encoding, that the drawn identifier is not empty and has no space around it, and that the user who
-- asks is not blank.
pub create_task-get_task :
    {C : ConversationStore} (c : Codec) (now : ℕ) (id : String) (request : CreateTaskRequest)
    (result : CreateTaskResult) (s : ShotPreview C) (user : String)
    → IsCodec c (trimmed request)
    → trim_space id ≡ id
    → (id == "") ≡ false
    → (create_task c now (some id) request s).0 ≡ ok result
    → result.replayed ≡ false
    → is_blank user ≡ false
    → (result.task_id ≡ id)
      × ((task : Task) × (task.id ≡ id)
          × (task.status ≡ TaskStatus.pending)
          × ((get_task c
                (record { user_id = user; task_id = id })
                (create_task c now (some id) request s).1).0
              ≡ (if trim_space request.user_id == trim_space user
                  then ok (task_view task)
                  else err task_not_found)))
unfolding create_task get_task
create_task-get_task {C = C} c now id request result s user codec trims filled accepted fresh
      named =
    let s' = (create_task c now (some id) request s).1 in
    let (own_id, (task, own, pending, answer)) =
      accepted_for_user c now id (trimmed request) result s' user codec trims filled
        (checked_create-IsAccepted c now id (trimmed request) s (check_request (trimmed request))
          s.runner result accepted)
        fresh named in
    (
      own_id,
      (
        task,
        own,
        pending,
        ap (λ a. (viewed s' a).0) answer
            ∙ view_if s' task (trim_space request.user_id == trim_space user),
      ),
    )
  where
    view_if :
        (s' : ShotPreview C) (task : Task) (b : Bool)
        → (viewed s' (if b then ok task else err task_not_found)).0
          ≡ (if b then ok (task_view task) else err task_not_found)
    view_if s' task true = refl
    view_if s' task false = refl
