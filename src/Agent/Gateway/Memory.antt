-- ===== src/Agent/Gateway/Memory.antt =====
-- memoryCredentialStore of internal/agent/llm_gateway/gateway_test.go: a store in memory, which meets
-- what the gateway relies on. Its map has every record under the record's own identifier, so that it
-- is given by the list of the records.
use blender_shot_preview.Prelude.{
  String, Bool, true, false, Option, none, some, List, [], ◌∷◌, ◌≡◌, refl, inl, inr, Result, ok,
  err, ◌==◌, ◌&&◌, if◌then◌else◌, arith, eq_iff, ok-injective, ap, ◌∙◌,
}
use blender_shot_preview.Agent.Gateway.Types.{
  GatewayError, credential_not_found, failed, CredentialRecord, CredentialStore, IsLawful, Writes,
}

-- `s.credentials[keyID]`
unfoldable pub entry : String → List CredentialRecord → Option CredentialRecord
entry k [] = none
entry k (r ∷ s) = let more = entry k s in if r.id == k then some r else more

-- `s.credentials[credential.ID] = credential`
unfoldable pub put : CredentialRecord → List CredentialRecord → List CredentialRecord
put r [] = r ∷ []
put r (q ∷ s) = let more = put r s in if q.id == r.id then r ∷ s else q ∷ more

-- `delete(s.credentials, keyID)`
unfoldable pub drop : String → List CredentialRecord → List CredentialRecord
drop k [] = []
drop k (r ∷ s) = let more = drop k s in if r.id == k then more else r ∷ more

abbrev pub found : Option CredentialRecord → Result GatewayError CredentialRecord
found none = err credential_not_found
found (some r) = ok r

abbrev pub Write : Type 0
Write = Result GatewayError (Unit {0}) × List CredentialRecord

abbrev pub unless_exists :
    GatewayError → List CredentialRecord → List CredentialRecord → Option CredentialRecord → Write
unless_exists e s s' none = (ok tt, s')
unless_exists e s s' (some old) = (err e, s)

abbrev pub if_exists :
    List CredentialRecord → List CredentialRecord → Option CredentialRecord → Write
if_exists s s' none = (err credential_not_found, s)
if_exists s s' (some old) = (ok tt, s')

-- FindActiveByUser, for a map that is iterated in the order of the list.
unfoldable pub find_active_by_user :
    String → List CredentialRecord → Result GatewayError CredentialRecord
find_active_by_user user_id [] = err credential_not_found
find_active_by_user user_id (r ∷ s) =
    let more = find_active_by_user user_id s in
    if (r.user_id == user_id) && r.enabled then ok r else more

abbrev pub memory_store : CredentialStore
memory_store = record {
  State = List CredentialRecord;
  create = λ r s. unless_exists (failed "credential already exists") s (put r s) (entry r.id s);
  find = λ k s. found (entry k s);
  update = λ r s. if_exists s (put r s) (entry r.id s);
  delete = λ k s. if_exists s (drop k s) (entry k s);
  find_active = some find_active_by_user;
}

entry-id :
    (k : String) (s : List CredentialRecord) (r : CredentialRecord) → entry k s ≡ some r → r.id ≡ k
unfolding entry
entry-id k [] r e = cc
entry-id k (q ∷ s) r e = ground (arith, eq_iff q.id k, entry-id k s r)

entry-put :
    (k : String) (r : CredentialRecord) (s : List CredentialRecord)
    → entry k (put r s) ≡ (if r.id == k then some r else entry k s)
unfolding entry put
entry-put k r [] = refl
entry-put k r (q ∷ s) =
    ground (arith, entry-put k r s, eq_iff q.id r.id, eq_iff q.id k, eq_iff r.id k)

entry-drop :
    (j k : String) (s : List CredentialRecord)
    → entry k (drop j s) ≡ (if j == k then none else entry k s)
unfolding entry drop
entry-drop j k [] = ground arith
entry-drop j k (r ∷ s) = ground (arith, entry-drop j k s, eq_iff r.id j, eq_iff r.id k, eq_iff j k)

found_if :
    (b : Bool) (o p : Option CredentialRecord)
    → found (if b then o else p) ≡ (if b then found o else found p)
found_if true o p = refl
found_if false o p = refl

found-ok : (o : Option CredentialRecord) (r : CredentialRecord) → found o ≡ ok r → o ≡ some r
found-ok none r e = cc
found-ok (some q) r e = ap some (ok-injective e)

free :
    (e : GatewayError) (s s' : List CredentialRecord) (o : Option CredentialRecord)
    → (unless_exists e s s' o).0 ≡ ok tt
    → found o ≡ err credential_not_found
free e s s' none h = refl
free e s s' (some old) h = cc

created :
    (e : GatewayError) (s s' : List CredentialRecord) (o : Option CredentialRecord)
    (after : String → Result GatewayError CredentialRecord)
    → ((k : String) → found (entry k s') ≡ after k)
    → Writes memory_store s (unless_exists e s s' o) after
created e s s' none after h = inr (refl, h)
created e s s' (some old) after h = inl (e, refl, refl)

changed :
    (s s' : List CredentialRecord) (o : Option CredentialRecord)
    (after : String → Result GatewayError CredentialRecord)
    → ((k : String) → found (entry k s') ≡ after k)
    → Writes memory_store s (if_exists s s' o) after
changed s s' none after h = inl (credential_not_found, refl, refl)
changed s s' (some old) after h = inr (refl, h)

found_put :
    (r : CredentialRecord) (s : List CredentialRecord) (k : String)
    → found (entry k (put r s)) ≡ (if r.id == k then ok r else found (entry k s))
found_put r s k = ap found (entry-put k r s) ∙ found_if (r.id == k) (some r) (entry k s)

-- The store in memory is lawful.
pub memory_store-IsLawful : IsLawful memory_store
memory_store-IsLawful = record {
  find-id = λ k s r e. entry-id k s r (found-ok (entry k s) r e);
  create-free = λ r s. free (failed "credential already exists") s (put r s) (entry r.id s);
  create-find = λ r s.
      created (failed "credential already exists") s (put r s) (entry r.id s)
        (λ k. if r.id == k then ok r else found (entry k s)) (found_put r s);
  update-find = λ r s.
      changed s (put r s) (entry r.id s) (λ k. if r.id == k then ok r else found (entry k s))
        (found_put r s);
  delete-find = λ j s.
      changed s (drop j s) (entry j s)
        (λ k. if j == k then err credential_not_found else found (entry k s))
        (λ k. ap found (entry-drop j k s) ∙ found_if (j == k) none (entry k s));
}
