-- ===== src/Pipeline/Repository/Idempotency.antt =====
-- What a client may rely on when it submits a task again.
use blender_shot_preview.Prelude.{
  String, false, none, ◌≡◌, refl, ◌≢◌, ok, err, ◌==◌, if◌then◌else◌, lookup, lookup-insert, arith,
  ==_self, ne-==, sym,
}
use blender_shot_preview.Pipeline.Types.{Task, idempotency_conflict}
use blender_shot_preview.Pipeline.Repository.{Repository, create_if_absent, get}

-- A task of a new key is stored: it is found by its ID, and the tasks of other IDs are as before. A
-- second task of the same key then yields the first, not created, where its input is the same, and is
-- a conflict where it is not; nothing is written either way.
pub create_if_absent-twice :
    (first second : Task) (r : Repository)
    → lookup first.idempotency_key r.by_idempotency_key ≡ none
    → second.idempotency_key ≡ first.idempotency_key
    → let stored = (create_if_absent first r).1 in
      (get first.id stored ≡ ok first)
      × ((id : String) → id ≢ first.id → get id stored ≡ get id r)
      × (create_if_absent second stored ≡ (
        (if first.input.json == second.input.json
            then ok (first, false)
            else err idempotency_conflict),
        stored,
      ))
unfolding create_if_absent get
create_if_absent-twice first second r e k =
    rw (e, k)
      (simp (lookup-insert, ==_self)
        (refl, (λ id other. rw (ne-== first.id id (λ p. other (sym p)))), ground arith))
