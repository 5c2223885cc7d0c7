-- ===== src/Agent/Gateway/Types.antt =====
-- The types of internal/agent/llm_gateway/gateway.go: commands, records of credentials and the store
-- behind the gateway, an interface there and here. A Go byte slice is a String,
-- but for the nonce, whose length the cipher reads.
use blender_shot_preview.Prelude.{
  ℕ, String, Bool, Option, some, List, ◌≡◌, ◌⊎◌, Result, ok, err, ◌==◌, if◌then◌else◌, length,
}

pub data Provider : Type 0 where
  openai anthropic : Provider
  -- any other text
  other : String → Provider

abbrev pub provider_name : Provider → String
provider_name openai = "openai"
provider_name anthropic = "anthropic"
provider_name (other name) = name

pub data KeyCommandType : Type 0 where
  save update delete : KeyCommandType
  unknown : String → KeyCommandType

pub data GatewayError : Type 0 where
  invalid_command credential_not_found credential_forbidden : GatewayError
  failed : String → GatewayError

-- A nil pointer is none.
pub record KeyCommand : Type 0 where
  pub command_type : KeyCommandType
  pub key_id : String
  pub user_id : String
  pub provider : Provider
  pub name : Option String
  pub api_key : Option String
  pub base_url : Option String

pub record EncryptedSecret : Type 0 where
  pub ciphertext : String
  pub nonce : List ℕ

pub record CredentialRecord : Type 0 where
  pub id : String
  pub user_id : String
  pub provider : Provider
  pub name : String
  pub base_url : String
  pub secret : EncryptedSecret
  pub key_version : ℕ
  pub enabled : Bool
  pub created_at : ℕ
  pub updated_at : ℕ

pub record UsableKey : Type 0 where
  pub key_id : String
  pub provider : Provider
  pub base_url : String
  pub api_key : String
  pub headers : List (String × String)

-- CredentialStore over an unknown state; `find_active` is there when the store is also an
-- ActiveCredentialStore.
pub record CredentialStore : Type 1 where
  pub State : Type 0
  pub create : CredentialRecord → State → Result GatewayError (Unit {0}) × State
  pub find : String → State → Result GatewayError CredentialRecord
  pub update : CredentialRecord → State → Result GatewayError (Unit {0}) × State
  pub delete : String → State → Result GatewayError (Unit {0}) × State
  pub find_active : Option (String → State → Result GatewayError CredentialRecord)

-- A store's write either fails and leaves the state, or has the result that is given by what Find
-- answers afterwards.
abbrev pub Writes :
    (S : CredentialStore)
    → S.State
    → Result GatewayError (Unit {0}) × S.State
    → (String → Result GatewayError CredentialRecord)
    → Type 0
Writes S s (answer, s') after =
    ((e : GatewayError) × (answer ≡ err e) × (s' ≡ s))
    ⊎ ((answer ≡ ok tt) × ((k : String) → S.find k s' ≡ after k))

-- What the gateway relies on: records are kept under their identifiers, a record that is created had
-- an identifier that was free, and a write that fails changes nothing.
pub record IsLawful (S : CredentialStore) : Type 0 where
  pub find-id : (k : String) (s : S.State) (r : CredentialRecord) → S.find k s ≡ ok r → r.id ≡ k
  pub create-free :
      (r : CredentialRecord) (s : S.State)
      → (S.create r s).0 ≡ ok tt
      → S.find r.id s ≡ err credential_not_found
  pub create-find :
      (r : CredentialRecord) (s : S.State)
      → Writes S s (S.create r s) (λ k. if r.id == k then ok r else S.find k s)
  pub update-find :
      (r : CredentialRecord) (s : S.State)
      → Writes S s (S.update r s) (λ k. if r.id == k then ok r else S.find k s)
  pub delete-find :
      (j : String) (s : S.State)
      → Writes S s (S.delete j s) (λ k. if j == k then err credential_not_found else S.find k s)

-- cipher.AEAD, of crypto/cipher.
pub record Aead : Type 0 where
  pub nonce_size : ℕ
  pub seal : List ℕ → String → String → String
  pub open_sealed : List ℕ → String → String → Option String

-- The documented contract of Seal and Open: what was sealed with a nonce of the right size opens
-- under the same nonce and the same additional data.
abbrev pub IsAead : Aead → Type 0
IsAead aead =
    (nonce : List ℕ) (plaintext aad : String)
    → length nonce ≡ aead.nonce_size
    → aead.open_sealed nonce (aead.seal nonce plaintext aad) aad ≡ some plaintext

-- What url.Parse returns: the fields that are read, and the text that String gives.
pub record Url : Type 0 where
  pub scheme : String
  pub host : String
  pub raw_query : String
  pub fragment : String
  pub text : String

-- Gateway. The adapters are those of NewGateway; url.Parse is a parameter.
pub record Gateway : Type 1 where
  pub store : CredentialStore
  pub aead : Aead
  pub parse_url : String → Option Url

-- What one call reads from the clock and from crypto/rand, where none is an error of rand.Read.
pub record Draws : Type 0 where
  pub now : ℕ
  pub id_bytes : Option (List ℕ)
  pub nonce : Option (List ℕ)
