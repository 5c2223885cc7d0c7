-- ===== src/Agent/Gateway/Owners.antt =====
-- Whose credentials a command of the gateway can reach.
use blender_shot_preview.Prelude.{
  String, Bool, true, false, Option, none, some, ◌≡◌, refl, sym, ap, subst, ◌∙◌, inl, inr, ◌⊎◌,
  Result, ok, err, ok-injective, Ensures, Ensures-ok, Ensures->>=, Ensures-refuse_if, ◌==◌, ==-eq,
  if◌then◌else◌, arith, Bool-cases,
}
use blender_shot_preview.Prelude.Text.{trim_space, is_blank}
use blender_shot_preview.Agent.Gateway.{
  Adapter, execute, dispatch, committed, answered, new_record, updated_record, changed, renamed,
  rebased, rekeyed, own_record, record_to_delete, trimmed,
}
use blender_shot_preview.Agent.Gateway.Types.{
  GatewayError, KeyCommand, CredentialRecord, CredentialStore, IsLawful, Writes, Gateway, Draws,
}
use blender_shot_preview.Agent.Gateway.Types

-- The state after a write of the store.
pub answered-state :
    {S : Type 0} (id : String) (w : Result GatewayError (Unit {0}) × S) → (answered id w).1 ≡ w.1
answered-state id (err e, s) = refl
answered-state id (ok done, s) = refl

-- The record is the one that the command names, and its user is the command's.
abbrev pub IsOwn : (g : Gateway) → KeyCommand → g.store.State → CredentialRecord → Type 0
IsOwn g command s r =
    (g.store.find command.key_id s ≡ ok r) × ((r.user_id == command.user_id) ≡ true)

pub own_record-IsOwn :
    (g : Gateway) (command : KeyCommand) (s : g.store.State)
    → Ensures (IsOwn g command s) (own_record g command s)
unfolding own_record
own_record-IsOwn g command s =
    Ensures->>= _ _
      (λ r found. Ensures-refuse_if _ _ _ (λ own. Ensures-ok _ (found, ground (arith, own))))

-- What update never changes in a record.
abbrev pub IsSame : CredentialRecord → CredentialRecord → Type 0
IsSame r q =
    (q.id ≡ r.id)
    × (q.user_id ≡ r.user_id)
    × (q.provider ≡ r.provider)
    × (q.enabled ≡ r.enabled)
    × (q.created_at ≡ r.created_at)

same : (r : CredentialRecord) → IsSame r r
same r = (refl, refl, refl, refl, refl)

pub changed-IsSame :
    (g : Gateway) (draws : Draws) (command : KeyCommand) (r : CredentialRecord)
    → Ensures (IsSame r) (changed g draws command r)
unfolding changed renamed rebased rekeyed
changed-IsSame g draws command r = Ensures-refuse_if _ _ _ (λ kept. Ensures->>= _ _ (λ a known.
    Ensures->>= _ _ (λ r1 e1. Ensures->>= _ _ (λ r2 e2. Ensures->>= _ _ (λ r3 e3. Ensures-ok _ (
      join r r1 r2 r3 ((renamed-IsSame command.name r).value r1 e1)
        ((rebased-IsSame a command.base_url r1).value r2 e2)
        ((rekeyed-IsSame a command.api_key r2).value r3 e3)))))))
  where
    renamed-IsSame : (o : Option String) (r : CredentialRecord) → Ensures (IsSame r) (renamed o r)
    renamed-IsSame none r = Ensures-ok _ (same r)
    renamed-IsSame (some name) r = Ensures-refuse_if _ _ _ (λ filled. Ensures-ok _ (same r))

    rebased-IsSame :
        (a : Adapter) (o : Option String) (r : CredentialRecord)
        → Ensures (IsSame r) (rebased g a o r)
    rebased-IsSame a none r = Ensures-ok _ (same r)
    rebased-IsSame a (some url) r = Ensures->>= _ _ (λ base e. Ensures-ok _ (same r))

    rekeyed-IsSame :
        (a : Adapter) (o : Option String) (r : CredentialRecord)
        → Ensures (IsSame r) (rekeyed g a draws.nonce o r)
    rekeyed-IsSame a none r = Ensures-ok _ (same r)
    rekeyed-IsSame a (some key) r =
        Ensures-refuse_if _ _ _ (λ filled. Ensures->>= _ _ (λ secret e. Ensures-ok _ (same r)))

    join : (p q t u : CredentialRecord) → IsSame p q → IsSame q t → IsSame t u → IsSame p u
    join p q t u (a, b, c, d, e) (a', b', c', d', e') (a'', b'', c'', d'', e'') =
        (a'' ∙ a' ∙ a, b'' ∙ b' ∙ b, c'' ∙ c' ∙ c, d'' ∙ d' ∙ d, e'' ∙ e' ∙ e)

-- A record of another user.
abbrev pub IsForeign :
    (g : Gateway) → KeyCommand → g.store.State → String → CredentialRecord → Type 0
IsForeign g command s k r = (g.store.find k s ≡ ok r) × ((r.user_id == command.user_id) ≡ false)

-- A record that is the command's user's own is not the foreign one.
own_elsewhere :
    (g : Gateway) (command : KeyCommand) (s : g.store.State) (k : String) (r q : CredentialRecord)
    → IsLawful g.store
    → IsForeign g command s k r
    → IsOwn g command s q
    → (q.id == k) ≡ false
own_elsewhere g command s k r q lawful (found, foreign) (own_found, own) =
    elim (Bool-cases (q.id == k)) [
      | inl e ↦
          let there : g.store.find k s ≡ ok q =
            subst (λ j. g.store.find j s ≡ ok q)
              (sym (lawful.find-id command.key_id s q own_found) ∙ ==-eq q.id k e) own_found in
          let one : q ≡ r = ok-injective (sym there ∙ found) in
          let mine : (r.user_id == command.user_id) ≡ true =
            subst (λ t. (t.user_id == command.user_id) ≡ true) one own in
          cc
      | inr e ↦ e
    ]

updated_record-elsewhere :
    (g : Gateway) (draws : Draws) (command : KeyCommand) (s : g.store.State) (k : String)
    (r : CredentialRecord)
    → IsLawful g.store
    → IsForeign g command s k r
    → Ensures (λ q. (q.id == k) ≡ false) (updated_record g draws command s)
unfolding updated_record
updated_record-elsewhere g draws command s k r lawful foreign = Ensures-refuse_if _ _ _ (λ named.
    Ensures-refuse_if _ _ _ (λ given. Ensures->>= _ _ (λ p found. record {
      value = λ q e.
          let (id, more, kind, on, at) = (changed-IsSame g draws command p).value q e in
          subst (λ i. (i == k) ≡ false) (sym id)
            (own_elsewhere g command s k r p lawful foreign
              ((own_record-IsOwn g command s).value p found));
    })))

record_to_delete-elsewhere :
    (g : Gateway) (command : KeyCommand) (s : g.store.State) (k : String) (r : CredentialRecord)
    → IsLawful g.store
    → IsForeign g command s k r
    → Ensures (λ q. (q.id == k) ≡ false) (record_to_delete g command s)
unfolding record_to_delete
record_to_delete-elsewhere g command s k r lawful foreign = Ensures-refuse_if _ _ _ (λ named.
    record {
      value = λ q e.
          own_elsewhere g command s k r q lawful foreign ((own_record-IsOwn g command s).value q e);
    })

-- A write whose result does not differ at `k`.
write-elsewhere :
    (g : Gateway) (s : g.store.State) (id k : String)
    (w : Result GatewayError (Unit {0}) × g.store.State)
    (after : String → Result GatewayError CredentialRecord)
    → Writes g.store s w after
    → after k ≡ g.store.find k s
    → g.store.find k (answered id w).1 ≡ g.store.find k s
write-elsewhere g s id k (answer, s') after (inl (e, refused, unchanged)) h =
    ap (g.store.find k) (answered-state id (answer, s') ∙ unchanged)
write-elsewhere g s id k (answer, s') after (inr (done, finds)) h =
    ap (g.store.find k) (answered-state id (answer, s')) ∙ finds k ∙ h

committed-elsewhere :
    (g : Gateway) (s : g.store.State) (k : String) (made : Result GatewayError CredentialRecord)
    (write : CredentialRecord → g.store.State → Result GatewayError (Unit {0}) × g.store.State)
    (instead : CredentialRecord → Result GatewayError CredentialRecord)
    → ((q : CredentialRecord)
        → Writes g.store s (write q s) (λ j. if q.id == j then instead q else g.store.find j s))
    → Ensures (λ q. (q.id == k) ≡ false) made
    → g.store.find k (committed write s made).1 ≡ g.store.find k s
committed-elsewhere g s k (err e) write instead lawful h = refl
committed-elsewhere g s k (ok q) write instead lawful h =
    write-elsewhere g s q.id k (write q s) _ (lawful q)
      (ap (λ b. if b then instead q else g.store.find k s) (h.value q refl))

created-elsewhere :
    (g : Gateway) (s : g.store.State) (k : String) (r q : CredentialRecord)
    → IsLawful g.store
    → g.store.find k s ≡ ok r
    → g.store.find k (answered q.id (g.store.create q s)).1 ≡ g.store.find k s
created-elsewhere g s k r q lawful found = go (Bool-cases (q.id == k)) (lawful.create-find q s)
  where
    go :
        ((q.id == k) ≡ true) ⊎ ((q.id == k) ≡ false)
        → Writes g.store s (g.store.create q s) (λ j. if q.id == j then ok q else g.store.find j s)
        → g.store.find k (answered q.id (g.store.create q s)).1 ≡ g.store.find k s
    go (inr e) writes =
        write-elsewhere g s q.id k (g.store.create q s) _ writes
          (ap (λ b. if b then ok q else g.store.find k s) e)
    go (inl e) (inl (failure, refused, unchanged)) =
        ap (g.store.find k) (answered-state q.id (g.store.create q s) ∙ unchanged)
    go (inl e) (inr (done, finds)) =
        let free : g.store.find k s ≡ err Types.credential_not_found =
          subst (λ j. g.store.find j s ≡ err Types.credential_not_found) (==-eq q.id k e)
            (lawful.create-free q s done) in
        cc

-- A command of Execute leaves the credentials of other users as they are: when the store finds a
-- record of a user other than the command's, then after the command, accepted or refused, it finds
-- the same record. It is assumed that the store is lawful.
pub execute_foreign :
    (g : Gateway) (draws : Draws) (command : KeyCommand) (s : g.store.State) (k : String)
    (r : CredentialRecord)
    → IsLawful g.store
    → g.store.find k s ≡ ok r
    → (r.user_id == trim_space command.user_id) ≡ false
    → g.store.find k (execute g draws command s).1 ≡ ok r
unfolding execute
execute_foreign g draws command s k r lawful found foreign = go (is_blank command.user_id) ∙ found
  where
    created :
        (made : Result GatewayError CredentialRecord)
        → g.store.find k (committed g.store.create s made).1 ≡ g.store.find k s
    created (err e) = refl
    created (ok q) = created-elsewhere g s k r q lawful found

    kinds :
        (t : Types.KeyCommandType)
        → g.store.find k (dispatch g draws (trimmed command) t s).1 ≡ g.store.find k s
    kinds Types.save = created (new_record g draws (trimmed command))
    kinds Types.update =
        committed-elsewhere g s k _ g.store.update ok (λ q. lawful.update-find q s)
          (updated_record-elsewhere g draws (trimmed command) s k r lawful (found, foreign))
    kinds Types.delete =
        committed-elsewhere g s k _ (λ q. g.store.delete q.id) (λ q. err Types.credential_not_found)
          (λ q. lawful.delete-find q.id s)
          (record_to_delete-elsewhere g (trimmed command) s k r lawful (found, foreign))
    kinds (Types.unknown name) = refl

    go :
        (b : Bool)
        → g.store.find k
            (if b
              then (err Types.invalid_command, s)
              else dispatch g draws (trimmed command) command.command_type s).1
          ≡ g.store.find k s
    go true = refl
    go false = kinds command.command_type
