-- ===== src/Agent/Gateway/Sealed.antt =====
-- The secrets that the gateway stores: each opens under the data of its own record.
use blender_shot_preview.Prelude.{
  ℕ, String, Bool, true, false, Option, none, some, List, ◌≡◌, refl, sym, subst, ◌∙◌, inl, inr,
  Result, ok, err, ◌>>=◌, ok-injective, Ensures, Ensures-ok, Ensures->>=, Ensures-refuse_if, ◌==◌,
  if◌then◌else◌, length, arith,
}
use blender_shot_preview.Prelude.Text.{trim_space, is_blank}
use blender_shot_preview.Agent.Gateway.{
  Adapter, adapter, credential_aad, encrypt, decrypt, execute, dispatch, committed, answered,
  new_record, validate_save_command, updated_record, changed, renamed, rebased, rekeyed, trimmed,
}
use blender_shot_preview.Agent.Gateway.Types.{
  GatewayError, KeyCommand, CredentialRecord, EncryptedSecret, CredentialStore, IsLawful, Writes,
  Aead, IsAead, Gateway, Draws, Provider,
}
use blender_shot_preview.Agent.Gateway.Types
use blender_shot_preview.Agent.Gateway.Owners.{answered-state, own_record-IsOwn}

-- What rand.Read fills is a nonce of the size that was asked for.
abbrev pub FitsNonce : Aead → Option (List ℕ) → Type 0
FitsNonce aead none = Unit
FitsNonce aead (some nonce) = length nonce ≡ aead.nonce_size

-- The record's provider has an adapter, and its secret opens to a key that is not blank.
abbrev pub IsSealed : Gateway → CredentialRecord → Type 0
IsSealed g r =
    (a : Adapter) × (key : String) × (adapter r.provider ≡ ok a)
    × (decrypt g.aead r.secret (credential_aad r) ≡ ok key)
    × (is_blank key ≡ false)

abbrev pub AllSealed : (g : Gateway) → g.store.State → Type 0
AllSealed g s = (k : String) (r : CredentialRecord) → g.store.find k s ≡ ok r → IsSealed g r

pub decrypt-encrypt :
    (aead : Aead) (drawn : Option (List ℕ)) (key aad : String) (secret : EncryptedSecret)
    → IsAead aead
    → FitsNonce aead drawn
    → encrypt aead drawn key aad ≡ ok secret
    → decrypt aead secret aad ≡ ok key
unfolding encrypt decrypt ◌>>=◌
decrypt-encrypt aead none key aad secret lawful fits e = cc
decrypt-encrypt aead (some nonce) key aad secret lawful fits e =
    subst (λ sec. decrypt aead sec aad ≡ ok key) (ok-injective e)
      (rw (lawful nonce key aad fits) (ground (arith, fits)))

abbrev pub NamesKey : String × String × String → Type 0
NamesKey (name, key, url) = is_blank key ≡ false

-- The key that validateSaveCommand passes on is not blank.
validate_save_command-NamesKey :
    (g : Gateway) (a : Adapter) (command : KeyCommand)
    → Ensures NamesKey (validate_save_command g a command)
unfolding validate_save_command
validate_save_command-NamesKey g a command = Ensures->>= _ _ (λ name named.
    Ensures->>= _ _ (λ key given. Ensures-refuse_if _ _ _ (λ filled.
      Ensures-refuse_if _ _ _ (λ keyed. Ensures->>= _ _ (λ url based. Ensures-ok _ keyed)))))

new_record-IsSealed :
    (g : Gateway) (draws : Draws) (command : KeyCommand)
    → IsAead g.aead
    → FitsNonce g.aead draws.nonce
    → Ensures (IsSealed g) (new_record g draws command)
unfolding new_record credential_aad
new_record-IsSealed g draws command lawful fits = Ensures->>= _ _ (λ a known.
    Ensures->>= _ _ (λ (name, key, url) checked. Ensures->>= _ _ (λ id drawn.
      Ensures->>= _ _ (λ secret sealed. Ensures-ok _ (
        a,
        key,
        known,
        decrypt-encrypt g.aead draws.nonce key _ secret lawful fits sealed,
        (validate_save_command-NamesKey g a command).value (name, key, url) checked,
      )))))

renamed-IsSealed :
    (g : Gateway) (name : Option String) (r : CredentialRecord)
    → IsSealed g r
    → Ensures (IsSealed g) (renamed name r)
unfolding renamed credential_aad
renamed-IsSealed g none r h = Ensures-ok _ h
renamed-IsSealed g (some name) r h = Ensures-refuse_if _ _ _ (λ filled. Ensures-ok _ h)

rebased-IsSealed :
    (g : Gateway) (a : Adapter) (url : Option String) (r : CredentialRecord)
    → IsSealed g r
    → Ensures (IsSealed g) (rebased g a url r)
unfolding rebased credential_aad
rebased-IsSealed g a none r h = Ensures-ok _ h
rebased-IsSealed g a (some url) r h = Ensures->>= _ _ (λ base e. Ensures-ok _ h)

rekeyed-IsSealed :
    (g : Gateway) (a : Adapter) (drawn : Option (List ℕ)) (key : Option String)
    (r : CredentialRecord)
    → IsAead g.aead
    → FitsNonce g.aead drawn
    → IsSealed g r
    → Ensures (IsSealed g) (rekeyed g a drawn key r)
unfolding rekeyed credential_aad
rekeyed-IsSealed g a drawn none r lawful fits h = Ensures-ok _ h
rekeyed-IsSealed g a drawn (some key) r lawful fits (b, old, known, opens, filled) =
    Ensures-refuse_if _ _ _ (λ keyed. Ensures->>= _ _ (λ secret sealed. Ensures-ok _ (
      b,
      trim_space key,
      known,
      decrypt-encrypt g.aead drawn (trim_space key) _ secret lawful fits sealed,
      keyed,
    )))

changed-IsSealed :
    (g : Gateway) (draws : Draws) (command : KeyCommand) (r : CredentialRecord)
    → IsAead g.aead
    → FitsNonce g.aead draws.nonce
    → IsSealed g r
    → Ensures (IsSealed g) (changed g draws command r)
unfolding changed credential_aad
changed-IsSealed g draws command r lawful fits h = Ensures-refuse_if _ _ _ (λ same.
    Ensures->>= _ _ (λ a known. Ensures->>= _ _ (λ r1 e1.
      let h1 = (renamed-IsSealed g command.name r h).value r1 e1 in
      Ensures->>= _ _ (λ r2 e2.
        let h2 = (rebased-IsSealed g a command.base_url r1 h1).value r2 e2 in
        Ensures->>= _ _ (λ r3 e3.
          Ensures-ok _
            ((rekeyed-IsSealed g a draws.nonce command.api_key r2 lawful fits h2).value r3 e3))))))

write-AllSealed :
    (g : Gateway) (s : g.store.State) (id : String)
    (w : Result GatewayError (Unit {0}) × g.store.State)
    (after : String → Result GatewayError CredentialRecord)
    → Writes g.store s w after
    → ((k : String) (r : CredentialRecord) → after k ≡ ok r → IsSealed g r)
    → AllSealed g s
    → AllSealed g (answered id w).1
write-AllSealed g s id (answer, s') after (inl (e, failed, same)) h all k r found =
    all k r (subst (λ t. g.store.find k t ≡ ok r) (answered-state id (answer, s') ∙ same) found)
write-AllSealed g s id (answer, s') after (inr (done, finds)) h all k r found =
    h k r
      (sym (finds k) ∙ subst (λ t. g.store.find k t ≡ ok r) (answered-state id (answer, s')) found)

overwritten :
    (g : Gateway) (s : g.store.State) (r : CredentialRecord)
    → IsSealed g r
    → AllSealed g s
    → (k : String) (q : CredentialRecord) → (if r.id == k then ok r else g.store.find k s) ≡ ok q
    → IsSealed g q
overwritten g s r h all k q = go (r.id == k)
  where
    go : (b : Bool) → (if b then ok r else g.store.find k s) ≡ ok q → IsSealed g q
    go true e = subst (IsSealed g) (ok-injective e) h
    go false e = all k q e

committed-AllSealed :
    (g : Gateway) (s : g.store.State)
    (write : CredentialRecord → g.store.State → Result GatewayError (Unit {0}) × g.store.State)
    (made : Result GatewayError CredentialRecord)
    → ((r : CredentialRecord)
        → Writes g.store s (write r s) (λ k. if r.id == k then ok r else g.store.find k s))
    → Ensures (IsSealed g) made
    → AllSealed g s
    → AllSealed g (committed write s made).1
committed-AllSealed g s write (err e) lawful h all = all
committed-AllSealed g s write (ok r) lawful h all =
    write-AllSealed g s r.id (write r s) _ (lawful r) (overwritten g s r (h.value r refl) all) all

deleted-AllSealed :
    (g : Gateway) (s : g.store.State) (made : Result GatewayError CredentialRecord)
    → IsLawful g.store
    → AllSealed g s
    → AllSealed g (committed (λ r. g.store.delete r.id) s made).1
deleted-AllSealed g s (err e) lawful all = all
deleted-AllSealed g s (ok r) lawful all =
    write-AllSealed g s r.id (g.store.delete r.id s) _ (lawful.delete-find r.id s)
      (λ k q. go (r.id == k) k q) all
  where
    go :
        (b : Bool) (k : String) (q : CredentialRecord)
        → (if b then err Types.credential_not_found else g.store.find k s) ≡ ok q
        → IsSealed g q
    go true k q e = cc
    go false k q e = all k q e

updated_record-IsSealed :
    (g : Gateway) (draws : Draws) (command : KeyCommand) (s : g.store.State)
    → IsAead g.aead
    → FitsNonce g.aead draws.nonce
    → AllSealed g s
    → Ensures (IsSealed g) (updated_record g draws command s)
unfolding updated_record
updated_record-IsSealed g draws command s lawful fits all = Ensures-refuse_if _ _ _ (λ named.
    Ensures-refuse_if _ _ _ (λ given. Ensures->>= _ _ (λ r found.
      changed-IsSealed g draws command r lawful fits
        (all command.key_id r ((own_record-IsOwn g command s).value r found).0))))

-- When every record that the store finds has a provider with an adapter and a secret that opens to a
-- key that is not blank, so has every record after any command of Execute, accepted or refused. It
-- is assumed that the store is lawful, that Open undoes Seal, and that rand.Read fills a nonce of
-- the cipher's size where it returns no error.
pub execute-AllSealed :
    (g : Gateway) (draws : Draws) (command : KeyCommand) (s : g.store.State)
    → IsLawful g.store
    → IsAead g.aead
    → FitsNonce g.aead draws.nonce
    → AllSealed g s
    → AllSealed g (execute g draws command s).1
unfolding execute
execute-AllSealed g draws command s lawful aead fits all = go (is_blank command.user_id)
  where
    kinds : (t : Types.KeyCommandType) → AllSealed g (dispatch g draws (trimmed command) t s).1
    kinds Types.save =
        committed-AllSealed g s g.store.create _ (λ r. lawful.create-find r s)
          (new_record-IsSealed g draws (trimmed command) aead fits) all
    kinds Types.update =
        committed-AllSealed g s g.store.update _ (λ r. lawful.update-find r s)
          (updated_record-IsSealed g draws (trimmed command) s aead fits all) all
    kinds Types.delete = deleted-AllSealed g s _ lawful all
    kinds (Types.unknown name) = all

    go :
        (b : Bool)
        → AllSealed g
            (if b
              then (err Types.invalid_command, s)
              else dispatch g draws (trimmed command) command.command_type s).1
    go true = all
    go false = kinds command.command_type
