-- ===== src/ProductionTools/RenderJobs/Final.antt =====
-- The end of a render job: what is final stays, and a cancellation is not overwritten.
use blender_shot_preview.Prelude.{
  ℕ, String, Bool, true, false, Option, none, some, List, ◌≡◌, refl, inl, inr, ◌==◌, if◌then◌else◌,
  Result, ok, err, lookup, insert, lookup-insert, Bool-cases, subst, sym, ap, ==-eq, ==_self, ◌∙◌,
}
use mathlib.Core.Option.{some-injective}
use blender_shot_preview.ProductionTools.RenderJobs.{
  Manager, RenderRecord, RenderJob, RenderStatus, queued, failed, JobError, already_final, is_final,
  changed, with_final, finish_found, finish, queue, launch, with_process, get, with_cancel,
  cancel_found, cancel, exited,
}

-- What can happen to the jobs. A new job has an identifier of its own, and Submit launches a job
-- that it has just queued: its caller, and so a client that would cancel it, gets the identifier
-- only when Submit returns.
pub data Step : Manager → Manager → Type 0 where
  queues :
      {m : Manager} (id output : String) (now : ℕ)
      → lookup id m.jobs ≡ none
      → Step m (queue id output now m)
  launches :
      {m : Manager} (id : String) (started : Bool) (now : ℕ) (r : RenderRecord)
      → lookup id m.jobs ≡ some r
      → r.job.status ≡ queued
      → Step m (launch id started now m)
  cancels : {m : Manager} (id : String) (now : ℕ) → Step m (cancel id now m).1
  exits : {m : Manager} (id : String) (failure : Bool) (now : ℕ) → Step m (exited id failure now m)

pub data Steps : Manager → Manager → Type 0 where
  none_more : {m : Manager} → Steps m m
  then_more : {m n o : Manager} → Step m n → Steps n o → Steps m o

-- A record written over another leaves a third one as it is, unless that is the one overwritten.
insert_keeps :
    (id j : String) (jobs : List (String × RenderRecord)) (s s' r : RenderRecord)
    → lookup id jobs ≡ some s
    → lookup j jobs ≡ some r
    → (s ≡ r → s' ≡ r)
    → lookup j (insert id s' jobs) ≡ some r
insert_keeps id j jobs s s' r e h fixed = elim (Bool-cases (id == j)) [
  | inl same ↦
      let here : some s ≡ some r = sym e ∙ ap (λ k. lookup k jobs) (==-eq id j same) ∙ h in
      lookup-insert id j s' jobs ∙ rw same (ap some (fixed (some-injective _ _ here)))
  | inr other ↦ lookup-insert id j s' jobs ∙ rw other h
]

changed_keeps :
    (id j : String) (m : Manager) (change : RenderRecord → RenderRecord) (r : RenderRecord)
    (o : Option RenderRecord)
    → lookup id m.jobs ≡ o
    → lookup j m.jobs ≡ some r
    → change r ≡ r
    → lookup j (changed id m change o).jobs ≡ some r
changed_keeps id j m change r none e h fixed = h
changed_keeps id j m change r (some s) e h fixed =
    insert_keeps id j m.jobs s (change s) r e h (λ same. ap change same ∙ fixed)

finish-keeps :
    (id j : String) (status : RenderStatus) (now : ℕ) (m : Manager) (r : RenderRecord)
    → lookup j m.jobs ≡ some r
    → is_final r.job.status ≡ true
    → lookup j (finish id status now m).jobs ≡ some r
unfolding finish
finish-keeps id j status now m r h final =
    changed_keeps id j m (finish_found status now) r (lookup id m.jobs) refl h
      (subst (λ b. (if b then r else with_final status now r) ≡ r) (sym final) refl)

final_apart :
    (s r : RenderRecord) {A : Type 0}
    → is_final s.job.status ≡ false
    → is_final r.job.status ≡ true
    → s ≡ r
    → A
final_apart s r going final same =
    absurd (cc (going, final, ap (λ (q : RenderRecord). is_final q.job.status) same))

cancel_found-keeps :
    (id j : String) (now : ℕ) (m : Manager) (r : RenderRecord) (o : Option RenderRecord)
    → lookup id m.jobs ≡ o
    → lookup j m.jobs ≡ some r
    → is_final r.job.status ≡ true
    → lookup j (cancel_found id now m o).1.jobs ≡ some r
cancel_found-keeps id j now m r none e h final = h
cancel_found-keeps id j now m r (some s) e h final = elim (Bool-cases (is_final s.job.status)) [
  | inl ended ↦ rw ended h
  | inr going ↦
      rw going (insert_keeps id j m.jobs s (with_cancel now s) r e h (final_apart s r going final))
]

launch-keeps :
    (id j : String) (started : Bool) (now : ℕ) (m : Manager) (s r : RenderRecord)
    → lookup id m.jobs ≡ some s
    → s.job.status ≡ queued
    → lookup j m.jobs ≡ some r
    → is_final r.job.status ≡ true
    → lookup j (launch id started now m).jobs ≡ some r
unfolding launch
launch-keeps id j false now m s r e fresh h final = finish-keeps id j failed now m r h final
launch-keeps id j true now m s r e fresh h final =
    rw e (
      insert_keeps id j m.jobs s (with_process s) r e h (final_apart s r (ap is_final fresh) final))

queue-keeps :
    (id j output : String) (now : ℕ) (m : Manager) (r : RenderRecord)
    → lookup id m.jobs ≡ none
    → lookup j m.jobs ≡ some r
    → lookup j (queue id output now m).jobs ≡ some r
unfolding queue
queue-keeps id j output now m r e h = elim (Bool-cases (id == j)) [
  | inl same ↦
      absurd
        (let here : none ≡ some r = sym e ∙ ap (λ k. lookup k m.jobs) (==-eq id j same) ∙ h in cc)
  | inr other ↦ lookup-insert id j _ m.jobs ∙ rw other h
]

Step-keeps :
    {m n : Manager} (j : String) (r : RenderRecord)
    → Step m n
    → lookup j m.jobs ≡ some r
    → is_final r.job.status ≡ true
    → lookup j n.jobs ≡ some r
unfolding cancel exited
Step-keeps j r (queues id output now e) h final = queue-keeps id j output now _ r e h
Step-keeps j r (launches id started now s e fresh) h final =
    launch-keeps id j started now _ s r e fresh h final
Step-keeps {m} j r (cancels id now) h final =
    cancel_found-keeps id j now m r (lookup id m.jobs) refl h final
Step-keeps j r (exits id failure now) h final = finish-keeps id j _ now _ r h final

Steps-keeps :
    {m n : Manager} (j : String) (r : RenderRecord)
    → Steps m n
    → lookup j m.jobs ≡ some r
    → is_final r.job.status ≡ true
    → lookup j n.jobs ≡ some r
Steps-keeps j r none_more h final = h
Steps-keeps j r (then_more step steps) h final =
    Steps-keeps j r steps (Step-keeps j r step h final) final

accepted :
    (b : Bool) (m n : Manager) (job' job : RenderJob)
    → (if◌then◌else◌ {A = Result JobError RenderJob × Manager} b
        (err already_final, m)
        (ok job', n)).0
      ≡ ok job
    → (b ≡ false) × (job' ≡ job)
accepted true m n job' job e = cc
accepted false m n job' job e = (refl, cc)

cancelled_job :
    (id : String) (now : ℕ) (m : Manager) (job : RenderJob) (o : Option RenderRecord)
    → lookup id m.jobs ≡ o
    → (cancel_found id now m o).0 ≡ ok job
    → (r : RenderRecord) × (lookup id (cancel_found id now m o).1.jobs ≡ some r)
      × (r.job ≡ job)
      × (r.job.status ≡ RenderStatus.cancelled)
cancelled_job id now m job none h e = cc
cancelled_job id now m job (some s) h e =
    let (going, same) = accepted (is_final s.job.status) m _ (with_cancel now s).job job e in
    (
      with_cancel now s,
      rw going (lookup-insert id id (with_cancel now s) m.jobs ∙ rw (==_self id) refl),
      same,
      refl,
    )

-- When Cancel accepts a job, Get answers with that job, cancelled, after any further submissions under
-- identifiers that are new, launches of jobs that are queued, cancellations and exits of processes.
pub cancel_lasts :
    (id : String) (now : ℕ) (m : Manager) (job : RenderJob) {n : Manager}
    → (cancel id now m).0 ≡ ok job
    → Steps (cancel id now m).1 n
    → (get id n ≡ ok job) × (job.status ≡ RenderStatus.cancelled)
unfolding cancel get
cancel_lasts id now m job e steps =
    let (r, found, same, status) = cancelled_job id now m job (lookup id m.jobs) refl e in
    let kept = Steps-keeps id r steps found (ap is_final status) in
    (rw kept (ap ok same), sym (ap (λ (j : RenderJob). j.status) same) ∙ status)
