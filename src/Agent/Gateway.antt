-- ===== src/Agent/Gateway.antt =====
-- internal/agent/llm_gateway: the gateway of the providers' credentials, its adapters, and the cipher
-- of the secrets. A call takes the store's state and what it reads from the clock and from
-- crypto/rand; the text of an error is left out where it is one of the gateway's own.
pub mod Types
pub mod KeyId
pub mod Memory
pub mod Sealed
pub mod Owners
pub mod Lifecycle
use Prim.Native.String.{◌++◌}
use blender_shot_preview.Prelude.{
  ℕ, zero, suc, ◌+◌, ◌/◌, ◌%◌, String, Bool, true, false, not, ◌&&◌, ◌||◌, Option, none, some, List,
  [], ◌∷◌, Result, ok, err, ◌>>=◌, ◌>>◌, refuse_if, ◌==◌, eqb, length, if◌then◌else◌,
}
use blender_shot_preview.Prelude.Text.{decimal, trim_space, is_blank, hex_digit, trim_slashes}
use blender_shot_preview.Agent.Gateway.Types.{
  Provider, openai, anthropic, other, provider_name, KeyCommandType, GatewayError, invalid_command,
  credential_not_found, credential_forbidden, failed, KeyCommand, EncryptedSecret, CredentialRecord,
  UsableKey, CredentialStore, Aead, Url, Gateway, Draws,
}
use blender_shot_preview.Agent.Gateway.Types

-- openAIAdapter and anthropicAdapter
pub data Adapter : Type 0 where
  openai_adapter anthropic_adapter : Adapter

-- adapter
unfoldable pub adapter : Provider → Result GatewayError Adapter
adapter openai = ok openai_adapter
adapter anthropic = ok anthropic_adapter
adapter (other name) = err invalid_command

-- Past url.Parse.
abbrev pub checked_url : Option Url → Result GatewayError String
checked_url none = err invalid_command
checked_url (some url) =
    refuse_if (url.scheme == "" || url.host == "") invalid_command
    >> refuse_if (not (url.scheme == "https") && not (url.scheme == "http")) invalid_command
    >> refuse_if (not (url.raw_query == "") || not (url.fragment == "")) invalid_command
    >> ok (trim_slashes url.text)

-- normalizeHTTPURL
unfoldable pub normalize_http_url : Gateway → String → String → Result GatewayError String
normalize_http_url g value default =
    checked_url (g.parse_url (if is_blank value then default else trim_space value))

-- normalizeBaseURL of the adapters
abbrev pub normalize_base_url : Gateway → Adapter → String → Result GatewayError String
normalize_base_url g openai_adapter url = normalize_http_url g url "https://api.openai.com/v1"
normalize_base_url g anthropic_adapter url = normalize_http_url g url "https://api.anthropic.com"

-- validateAPIKey of the adapters
abbrev pub validate_api_key : Adapter → String → Result GatewayError (Unit {0})
validate_api_key a key = refuse_if (is_blank key) invalid_command

abbrev pub headers_of : Adapter → String → List (String × String)
headers_of openai_adapter key = ("Authorization", "Bearer " ++ key) ∷ []
headers_of anthropic_adapter key = ("x-api-key", key) ∷ ("anthropic-version", "2023-06-01") ∷ []

-- usableKey of the adapters
unfoldable pub usable_key : Adapter → CredentialRecord → String → UsableKey
usable_key a r key = record {
  key_id = r.id;
  provider = r.provider;
  base_url = r.base_url;
  api_key = key;
  headers = headers_of a key;
}

-- credentialAAD
unfoldable pub credential_aad : CredentialRecord → String
credential_aad r =
    r.id ++ ":" ++ r.user_id ++ ":" ++ provider_name r.provider ++ ":" ++ decimal r.key_version

-- aesGCMCipher.Encrypt, with the nonce that rand.Read gives.
unfoldable pub encrypt :
    Aead → Option (List ℕ) → String → String → Result GatewayError EncryptedSecret
encrypt aead none plaintext aad = err (failed "encrypt credential")
encrypt aead (some nonce) plaintext aad =
    ok (record { ciphertext = aead.seal nonce plaintext aad; nonce = nonce })

abbrev pub opened : Option String → Result GatewayError String
opened none = err (failed "decrypt credential")
opened (some plaintext) = ok plaintext

-- aesGCMCipher.Decrypt
unfoldable pub decrypt : Aead → EncryptedSecret → String → Result GatewayError String
decrypt aead secret aad =
    refuse_if (not (eqb (length secret.nonce) aead.nonce_size)) (failed "invalid credential nonce")
    >> opened (aead.open_sealed secret.nonce secret.ciphertext aad)

-- hex.EncodeToString
unfoldable pub hex_encode : List ℕ → String
hex_encode [] = ""
hex_encode (b ∷ bytes) = hex_digit (b / 16) ++ hex_digit (b % 16) ++ hex_encode bytes

-- newCredentialID
abbrev pub new_credential_id : Option (List ℕ) → Result GatewayError String
new_credential_id none = err (failed "create credential ID")
new_credential_id (some bytes) = ok (hex_encode bytes)

abbrev pub required : Option String → Result GatewayError String
required none = err invalid_command
required (some text) = ok text

abbrev pub or_empty : Option String → String
or_empty none = ""
or_empty (some text) = text

-- validateSaveCommand: the name, the key and the base URL.
unfoldable pub validate_save_command :
    Gateway → Adapter → KeyCommand → Result GatewayError (String × String × String)
validate_save_command g a command = required command.name >>= (λ name.
    required command.api_key >>= (λ key.
      refuse_if (is_blank name) invalid_command
      >> validate_api_key a (trim_space key)
      >> normalize_base_url g a (or_empty command.base_url)
      >>= (λ url. ok (trim_space name, trim_space key, url))))

-- The record of save, of an identifier, its fields and its secret.
abbrev pub saved_record :
    KeyCommand → ℕ → String → String → String → EncryptedSecret → CredentialRecord
saved_record command now id name url secret = record {
  id = id;
  user_id = command.user_id;
  provider = command.provider;
  name = name;
  base_url = url;
  secret = secret;
  key_version = 1;
  enabled = true;
  created_at = now;
  updated_at = now;
}

abbrev pub no_secret : EncryptedSecret
no_secret = record { ciphertext = ""; nonce = [] }

-- save, up to the store's Create.
unfoldable pub new_record : Gateway → Draws → KeyCommand → Result GatewayError CredentialRecord
new_record g draws command = adapter command.provider >>= (λ a.
    validate_save_command g a command >>= (λ fields.
      let (name, key, url) = fields in
      new_credential_id draws.id_bytes >>= (λ id.
        encrypt g.aead draws.nonce key
          (credential_aad (saved_record command draws.now id name url no_secret))
        >>= (λ secret. ok (saved_record command draws.now id name url secret)))))

-- The three fields that update may change, each where the command has it.
unfoldable pub renamed : Option String → CredentialRecord → Result GatewayError CredentialRecord
renamed none r = ok r
renamed (some name) r =
    refuse_if (is_blank name) invalid_command >> ok (record r { name = trim_space name })

unfoldable pub rebased :
    Gateway → Adapter → Option String → CredentialRecord → Result GatewayError CredentialRecord
rebased g a none r = ok r
rebased g a (some url) r =
    normalize_base_url g a url >>= (λ base. ok (record r { base_url = base }))

-- `record.KeyVersion++`, of 32 bits
abbrev pub next_version : CredentialRecord → CredentialRecord
next_version r = record r { key_version = (r.key_version + 1) % 4294967296 }

unfoldable pub rekeyed :
    Gateway
    → Adapter
    → Option (List ℕ)
    → Option String
    → CredentialRecord
    → Result GatewayError CredentialRecord
rekeyed g a drawn none r = ok r
rekeyed g a drawn (some key) r =
    validate_api_key a (trim_space key)
    >> encrypt g.aead drawn (trim_space key) (credential_aad (next_version r))
    >>= (λ secret. ok (record (next_version r) { secret = secret }))

abbrev pub is_none : Option String → Bool
is_none none = true
is_none (some text) = false

-- The record that a command names, where it is the user's own.
unfoldable pub own_record :
    (g : Gateway) → KeyCommand → g.store.State → Result GatewayError CredentialRecord
own_record g command s =
    g.store.find command.key_id s
    >>= (λ r. refuse_if (not (r.user_id == command.user_id)) credential_forbidden >> ok r)

-- update, from the record that was found up to the store's Update.
unfoldable pub changed :
    Gateway → Draws → KeyCommand → CredentialRecord → Result GatewayError CredentialRecord
changed g draws command r =
    let kind = provider_name command.provider in
    refuse_if (not (kind == "") && not (kind == provider_name r.provider)) invalid_command
    >> adapter r.provider
    >>= (λ a. renamed command.name r >>= (λ r1. rebased g a command.base_url r1 >>= (λ r2.
        rekeyed g a draws.nonce command.api_key r2
        >>= (λ r3. ok (record r3 { updated_at = draws.now })))))

unfoldable pub updated_record :
    (g : Gateway) → Draws → KeyCommand → g.store.State → Result GatewayError CredentialRecord
updated_record g draws command s =
    refuse_if (is_blank command.key_id) invalid_command
    >> refuse_if (is_none command.name && is_none command.api_key && is_none command.base_url)
        invalid_command
    >> own_record g command s
    >>= changed g draws command

-- delete, up to the store's Delete.
unfoldable pub record_to_delete :
    (g : Gateway) → KeyCommand → g.store.State → Result GatewayError CredentialRecord
record_to_delete g command s =
    refuse_if (is_blank command.key_id) invalid_command >> own_record g command s

abbrev pub answered :
    {S : Type 0} → String → Result GatewayError (Unit {0}) × S → Result GatewayError String × S
answered id (err e, s) = (err e, s)
answered id (ok done, s) = (ok id, s)

-- The end of a command: the store's write of the record, where there was no error before.
abbrev pub committed :
    {S : Type 0}
    → (CredentialRecord → S → Result GatewayError (Unit {0}) × S)
    → S
    → Result GatewayError CredentialRecord
    → Result GatewayError String × S
committed write s (err e) = (err e, s)
committed write s (ok r) = answered r.id (write r s)

abbrev pub dispatch :
    (g : Gateway)
    → Draws
    → KeyCommand
    → KeyCommandType
    → g.store.State
    → Result GatewayError String × g.store.State
dispatch g draws command Types.save s = committed g.store.create s (new_record g draws command)
dispatch g draws command Types.update s =
    committed g.store.update s (updated_record g draws command s)
dispatch g draws command Types.delete s =
    committed (λ r. g.store.delete r.id) s (record_to_delete g command s)
dispatch g draws command (Types.unknown name) s = (err invalid_command, s)

abbrev pub trimmed : KeyCommand → KeyCommand
trimmed command = record command {
  user_id = trim_space command.user_id;
  key_id = trim_space command.key_id;
}

-- Execute; its answer is the identifier of the credential.
unfoldable pub execute :
    (g : Gateway) → Draws → KeyCommand → g.store.State → Result GatewayError String × g.store.State
execute g draws command s =
    if is_blank command.user_id
    then (err invalid_command, s)
    else dispatch g draws (trimmed command) command.command_type s

abbrev pub active_record :
    {S : Type 0}
    → Option (String → S → Result GatewayError CredentialRecord)
    → String
    → S
    → Result GatewayError CredentialRecord
active_record none user_id s = err credential_not_found
active_record (some find_active) user_id s = find_active user_id s

-- Use
unfoldable pub use_key :
    (g : Gateway) → String → String → g.store.State → Result GatewayError UsableKey
use_key g key_id user_id s =
    refuse_if (is_blank user_id) invalid_command
    >> (if is_blank key_id
        then active_record g.store.find_active (trim_space user_id) s
        else g.store.find (trim_space key_id) s)
    >>= (λ r.
        refuse_if (not (r.user_id == trim_space user_id)) credential_forbidden
        >> refuse_if (not r.enabled) credential_not_found
        >> adapter r.provider
        >>= (λ a. decrypt g.aead r.secret (credential_aad r) >>= (λ key. ok (usable_key a r key))))
