-- ===== src/Agent/Gateway/Lifecycle.antt =====
-- What the commands of the gateway promise to its callers: the credentials that are saved can be used.
use blender_shot_preview.Prelude.{
  String, Bool, true, false, Option, none, some, ◌≡◌, refl, sym, ap, subst, ◌∙◌, inl, inr, Result,
  ok, err, ◌>>=◌, ok-injective, Ensures, Ensures-ok, Ensures->>=, Ensures-refuse_if, ◌==◌, ==_self,
  if◌then◌else◌,
}
use blender_shot_preview.Prelude.Text.{trim_space, is_blank}
use blender_shot_preview.Agent.Gateway.{
  Adapter, adapter, credential_aad, decrypt, execute, dispatch, committed, answered, new_record,
  validate_save_command, normalize_base_url, or_empty, required, headers_of, usable_key, trimmed,
  use_key,
}
use blender_shot_preview.Agent.Gateway.Types.{
  GatewayError, KeyCommand, KeyCommandType, CredentialRecord, UsableKey, IsLawful, Writes, IsAead,
  Gateway, Draws,
}
use blender_shot_preview.Agent.Gateway.Types
use blender_shot_preview.Agent.Gateway.KeyId.{IsKeyId, FitsId, new_credential_id-IsKeyId}
use blender_shot_preview.Agent.Gateway.Sealed.{
  IsSealed, AllSealed, FitsNonce, decrypt-encrypt, execute-AllSealed,
}

-- What Use answers for a record that it finds under an identifier.
use_found :
    (g : Gateway) (key_id user_id : String) (s : g.store.State) (r : CredentialRecord) (a : Adapter)
    (key : String)
    → is_blank user_id ≡ false
    → is_blank key_id ≡ false
    → g.store.find (trim_space key_id) s ≡ ok r
    → (r.user_id == trim_space user_id) ≡ true
    → r.enabled ≡ true
    → adapter r.provider ≡ ok a
    → decrypt g.aead r.secret (credential_aad r) ≡ ok key
    → use_key g key_id user_id s ≡ ok (usable_key a r key)
unfolding use_key ◌>>=◌ decrypt usable_key credential_aad
use_found g key_id user_id s r a key user named found own enabled known opens =
    rw (user, named, found, own, enabled, known, opens) refl

-- The arguments of validateSaveCommand that it accepts, and what it makes of them.
abbrev Fields : Gateway → Adapter → KeyCommand → String × String × String → Type 0
Fields g a command (name, key, url) =
    (given : String) × (command.api_key ≡ some given)
    × (key ≡ trim_space given)
    × (normalize_base_url g a (or_empty command.base_url) ≡ ok url)

validate_save_command-Fields :
    (g : Gateway) (a : Adapter) (command : KeyCommand)
    → Ensures (Fields g a command) (validate_save_command g a command)
unfolding validate_save_command
validate_save_command-Fields g a command = Ensures->>= _ _ (λ name named.
    Ensures->>= _ _ (λ key given. Ensures-refuse_if _ _ _ (λ filled.
      Ensures-refuse_if _ _ _ (λ keyed.
        Ensures->>= _ _
          (λ url based. Ensures-ok _ (key, is_given command.api_key key given, refl, based))))))
  where
    is_given : (o : Option String) (k : String) → required o ≡ ok k → o ≡ some k
    is_given none k e = cc
    is_given (some j) k e = ap some (ok-injective e)

-- The record that save makes for a command.
abbrev IsSavedFor : Gateway → KeyCommand → CredentialRecord → Type 0
IsSavedFor g command r =
    (a : Adapter) × (key : String) × (given : String) × (adapter r.provider ≡ ok a)
    × (decrypt g.aead r.secret (credential_aad r) ≡ ok key)
    × (command.api_key ≡ some given)
    × (key ≡ trim_space given)
    × (normalize_base_url g a (or_empty command.base_url) ≡ ok r.base_url)
    × (r.provider ≡ command.provider)
    × (r.user_id ≡ command.user_id)
    × (r.enabled ≡ true)
    × IsKeyId r.id

new_record-IsSavedFor :
    (g : Gateway) (draws : Draws) (command : KeyCommand)
    → IsAead g.aead
    → FitsNonce g.aead draws.nonce
    → FitsId draws.id_bytes
    → Ensures (IsSavedFor g command) (new_record g draws command)
unfolding new_record credential_aad
new_record-IsSavedFor g draws command aead fits id_fits = Ensures->>= _ _ (λ a known.
    Ensures->>= _ _ (λ (name, key, url) checked. Ensures->>= _ _ (λ id drawn.
      Ensures->>= _ _ (λ secret sealed.
        let (given, keyed, trims, based) =
          (validate_save_command-Fields g a command).value (name, key, url) checked in
        Ensures-ok _ (
          a,
          key,
          given,
          known,
          decrypt-encrypt g.aead draws.nonce key _ secret aead fits sealed,
          keyed,
          trims,
          based,
          refl,
          refl,
          refl,
          (new_credential_id-IsKeyId draws.id_bytes id_fits).value id drawn,
        )))))

-- A write that was answered with an identifier has stored its record under it.
write_done :
    (g : Gateway) (s : g.store.State) (r : CredentialRecord) (id : String)
    (w : Result GatewayError (Unit {0}) × g.store.State)
    → Writes g.store s w (λ k. if r.id == k then ok r else g.store.find k s)
    → (answered r.id w).0 ≡ ok id
    → (r.id ≡ id) × (g.store.find id (answered r.id w).1 ≡ ok r)
write_done g s r id (err e, s') writes h = cc
write_done g s r id (ok done, s') (inl (e, refused, unchanged)) h = cc
write_done g s r id (ok done, s') (inr (answer, finds)) h =
    let one : r.id ≡ id = ok-injective h in
    let there : g.store.find r.id s' ≡ ok r =
      finds r.id ∙ ap (λ b. if b then ok r else g.store.find r.id s) (==_self r.id) in
    (one, subst (λ k. g.store.find k s' ≡ ok r) one there)

created_done :
    (g : Gateway) (s : g.store.State) (id : String) (made : Result GatewayError CredentialRecord)
    → IsLawful g.store
    → (committed g.store.create s made).0 ≡ ok id
    → (r : CredentialRecord) × (made ≡ ok r)
      × (r.id ≡ id)
      × (g.store.find id (committed g.store.create s made).1 ≡ ok r)
created_done g s id (err e) lawful h = cc
created_done g s id (ok r) lawful h =
    let (one, there) = write_done g s r id (g.store.create r s) (lawful.create-find r s) h in
    (r, refl, one, there)

trim_blank : (user_id : String) → is_blank user_id ≡ false → (trim_space user_id == "") ≡ false
trim_blank user_id h = h

save_created :
    (g : Gateway) (draws : Draws) (command : KeyCommand) (s : g.store.State) (id : String)
    → command.command_type ≡ Types.save
    → (execute g draws command s).0 ≡ ok id
    → (is_blank command.user_id ≡ false)
      × (execute g draws command s
          ≡ committed g.store.create s (new_record g draws (trimmed command)))
unfolding execute
save_created g draws command s id saves =
    go (is_blank command.user_id) refl command.command_type saves
  where
    go :
        (b : Bool)
        → is_blank command.user_id ≡ b
        → (t : KeyCommandType) → t ≡ Types.save
        → (if b then (err Types.invalid_command, s) else dispatch g draws (trimmed command) t s).0
          ≡ ok id
        → (is_blank command.user_id ≡ false)
          × ((if b then (err Types.invalid_command, s) else dispatch g draws (trimmed command) t s)
              ≡ committed g.store.create s (new_record g draws (trimmed command)))
    go true e t h returned = cc
    go false e Types.save h returned = (e, refl)
    go false e Types.update h returned = cc
    go false e Types.delete h returned = cc
    go false e (Types.unknown name) h returned = cc

as_saved :
    (a : Adapter) (r : CredentialRecord) (key id : String) (provider : Types.Provider)
    (given : String)
    → r.id ≡ id
    → r.provider ≡ provider
    → key ≡ given
    → usable_key a r key ≡ (record {
      key_id = id;
      provider = provider;
      base_url = r.base_url;
      api_key = given;
      headers = headers_of a given;
    })
unfolding usable_key
as_saved a r key id provider given one kind trims = cc

-- A save that Execute accepted can be used at once: Use with the identifier that Execute returned
-- and with the command's user answers the command's provider, its key without the space around
-- it, its base URL as the provider's adapter normalizes it, and the adapter's headers for that key.
-- It is assumed that the store is lawful, that Open undoes Seal, and that rand.Read fills what it is
-- given where it returns no error.
pub save-use :
    (g : Gateway) (draws : Draws) (command : KeyCommand) (s : g.store.State) (id : String)
    → IsLawful g.store
    → IsAead g.aead
    → FitsNonce g.aead draws.nonce
    → FitsId draws.id_bytes
    → command.command_type ≡ Types.save
    → (execute g draws command s).0 ≡ ok id
    → (a : Adapter) × (given : String) × (url : String) × (adapter command.provider ≡ ok a)
      × (command.api_key ≡ some given)
      × (normalize_base_url g a (or_empty command.base_url) ≡ ok url)
      × (use_key g id command.user_id (execute g draws command s).1
          ≡ ok (record {
            key_id = id;
            provider = command.provider;
            base_url = url;
            api_key = trim_space given;
            headers = headers_of a (trim_space given);
          }))
unfolding usable_key
save-use g draws command s id lawful aead fits id_fits saves returned =
    let (user, runs) = save_created g draws command s id saves returned in
    let (r, made, one, there) =
      created_done g s id (new_record g draws (trimmed command)) lawful
        (sym (ap (λ p. p.0) runs) ∙ returned) in
    let (a, key, given, known, opens, keyed, trims, based, kind, owner, on, (trimmed_id, filled)) =
      (new_record-IsSavedFor g draws (trimmed command) aead fits id_fits).value r made in
    let found : g.store.find (trim_space id) (execute g draws command s).1 ≡ ok r =
      subst (λ t. g.store.find (trim_space id) t ≡ ok r) (sym (ap (λ p. p.1) runs))
        (subst
          (λ k.
            g.store.find k (committed g.store.create s (new_record g draws (trimmed command))).1
            ≡ ok r)
          (sym (subst (λ i. trim_space i ≡ i) one trimmed_id)) there) in
    let own : (r.user_id == trim_space command.user_id) ≡ true =
      subst (λ u. (u == trim_space command.user_id) ≡ true) (sym owner)
        (==_self (trim_space command.user_id)) in
    (
      a,
      given,
      r.base_url,
      subst (λ p. adapter p ≡ ok a) kind known,
      keyed,
      based,
      use_found g id command.user_id (execute g draws command s).1 r a key user
            (subst (λ i. is_blank i ≡ false) one filled) found own on known opens
          ∙ ap ok (as_saved a r key id command.provider (trim_space given) one kind trims),
    )

-- The states that commands lead to from a first one.
pub data Served (g : Gateway) (first : g.store.State) : g.store.State → Type 1 where
  untouched : Served g first first
  serves :
      {s : g.store.State} (draws : Draws) (command : KeyCommand)
      → FitsNonce g.aead draws.nonce
      → Served g first s
      → Served g first (execute g draws command s).1

Served-AllSealed :
    (g : Gateway) (first s : g.store.State)
    → IsLawful g.store
    → IsAead g.aead
    → AllSealed g first
    → Served g first s
    → AllSealed g s
Served-AllSealed g first s lawful aead all untouched = all
Served-AllSealed g first s lawful aead all (serves {s = t} draws command fits before) =
    execute-AllSealed g draws command t lawful aead fits
      (Served-AllSealed g first t lawful aead all before)

-- After any sequence of commands of Execute from a store that finds no credential, Use answers a key
-- for every enabled credential that the store finds, when it is called with the credential's
-- identifier and its user: the answer carries the credential's identifier and a key that is not
-- blank. It is assumed that the store is lawful, that Open undoes Seal, that rand.Read fills a
-- nonce of the cipher's size, and that neither the identifier nor the user is blank or has spaces
-- around it.
pub use_key_answers :
    (g : Gateway) (first s : g.store.State) (r : CredentialRecord)
    → IsLawful g.store
    → IsAead g.aead
    → ((k : String) → g.store.find k first ≡ err Types.credential_not_found)
    → Served g first s
    → IsKeyId r.id
    → IsKeyId r.user_id
    → g.store.find r.id s ≡ ok r
    → r.enabled ≡ true
    → (used : UsableKey) × (use_key g r.id r.user_id s ≡ ok used)
      × (used.key_id ≡ r.id)
      × (is_blank used.api_key ≡ false)
unfolding usable_key
use_key_answers g first s r lawful aead empty served (trims, filled) (user_trims, user) found on =
    let (a, key, known, opens, keyed) =
      Served-AllSealed g first s lawful aead (λ k q e. absurd k q e) served r.id r found in
    (
      usable_key a r key,
      use_found g r.id r.user_id s r a key user filled
          (subst (λ k. g.store.find k s ≡ ok r) (sym trims) found)
          (subst (λ u. (r.user_id == u) ≡ true) (sym user_trims) (==_self r.user_id)) on known
          opens,
      refl,
      keyed,
    )
  where
    absurd : (k : String) (q : CredentialRecord) → g.store.find k first ≡ ok q → IsSealed g q
    absurd k q e = let none_there = empty k in cc
