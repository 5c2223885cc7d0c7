-- ===== src/Examples/Gateway.antt =====
-- The credential gateway over the store in memory, with a cipher that hides nothing.
use blender_shot_preview.Prelude.{String, true, false, none, some, [], ◌∷◌, ◌≡◌, refl, ok, ◌>>=◌}
use blender_shot_preview.Prelude.Text.{trim_space, is_blank, hex_digit, digit, trim_slashes}
use blender_shot_preview.Agent.Gateway.{
  Adapter, adapter, execute, use_key, normalize_http_url, normalize_base_url, headers_of,
  new_record, validate_save_command, hex_encode, encrypt, credential_aad,
}
use blender_shot_preview.Agent.Gateway.Types.{
  Aead, IsAead, CredentialRecord, Draws, Gateway, KeyCommand, UsableKey, openai, save,
}
use blender_shot_preview.Agent.Gateway.Memory.{memory_store, memory_store-IsLawful, entry, put}
use blender_shot_preview.Agent.Gateway.Sealed.{AllSealed, execute-AllSealed}
use blender_shot_preview.Agent.Gateway.Owners.{execute_foreign}
use blender_shot_preview.Agent.Gateway.Lifecycle.{save-use, use_key_answers, untouched, serves}

abbrev plain_aead : Aead
plain_aead = record {
  nonce_size = 1;
  seal = λ nonce plaintext aad. plaintext;
  open_sealed = λ nonce ciphertext aad. some ciphertext;
}

plain_aead-IsAead : IsAead plain_aead
plain_aead-IsAead nonce plaintext aad fits = refl

abbrev demo_gateway : Gateway
demo_gateway = record {
  store = memory_store;
  aead = plain_aead;
  parse_url = λ text.
      some (record { scheme = "https"; host = "h"; raw_query = ""; fragment = ""; text = text });
}

abbrev demo_draws : Draws
demo_draws = record {
  now = 5;
  id_bytes = some (1 ∷ 2 ∷ 3 ∷ 4 ∷ 5 ∷ 6 ∷ 7 ∷ 8 ∷ 9 ∷ 10 ∷ 11 ∷ 12 ∷ 13 ∷ 14 ∷ 15 ∷ 16 ∷ []);
  nonce = some (7 ∷ []);
}

abbrev demo_save : KeyCommand
demo_save = record {
  command_type = save;
  key_id = "";
  user_id = " u ";
  provider = openai;
  name = some "main";
  api_key = some " secret ";
  base_url = none;
}

abbrev demo_id : String
demo_id = "0102030405060708090a0b0c0d0e0f10"

saved_id : (execute demo_gateway demo_draws demo_save []).0 ≡ ok demo_id
unfolding execute new_record adapter validate_save_command normalize_http_url ◌>>=◌ encrypt
    hex_encode hex_digit digit trim_space trim_slashes credential_aad entry
saved_id = refl

save-use_demo :
    (a : Adapter) × (given : String) × (url : String) × (adapter openai ≡ ok a)
    × (some " secret " ≡ some given)
    × (normalize_base_url demo_gateway a "" ≡ ok url)
    × (use_key demo_gateway demo_id " u " (execute demo_gateway demo_draws demo_save []).1
        ≡ ok (record {
          key_id = demo_id;
          provider = openai;
          base_url = url;
          api_key = trim_space given;
          headers = headers_of a (trim_space given);
        }))
save-use_demo =
    save-use demo_gateway demo_draws demo_save [] demo_id memory_store-IsLawful plain_aead-IsAead
      refl refl refl saved_id

abbrev demo_record : CredentialRecord
demo_record = record {
  id = demo_id;
  user_id = "u";
  provider = openai;
  name = "main";
  base_url = "https://api.openai.com/v1";
  secret = record { ciphertext = "secret"; nonce = 7 ∷ [] };
  key_version = 1;
  enabled = true;
  created_at = 5;
  updated_at = 5;
}

-- The saved record in the store.
saved_record_found :
    memory_store.find demo_id (execute demo_gateway demo_draws demo_save []).1 ≡ ok demo_record
unfolding execute new_record adapter validate_save_command normalize_http_url ◌>>=◌ encrypt
    hex_encode hex_digit digit trim_space trim_slashes credential_aad entry put
saved_record_found = refl

execute-AllSealed_demo : AllSealed demo_gateway (execute demo_gateway demo_draws demo_save []).1
unfolding entry
execute-AllSealed_demo =
    execute-AllSealed demo_gateway demo_draws demo_save [] memory_store-IsLawful plain_aead-IsAead
      refl no_records
  where
    no_records : AllSealed demo_gateway []
    no_records k r e = cc

abbrev foreign_save : KeyCommand
foreign_save = record demo_save { user_id = "v" }

execute_foreign_demo :
    memory_store.find demo_id (execute demo_gateway demo_draws foreign_save (demo_record ∷ [])).1
    ≡ ok demo_record
unfolding entry trim_space
execute_foreign_demo =
    execute_foreign demo_gateway demo_draws foreign_save (demo_record ∷ []) demo_id demo_record
      memory_store-IsLawful refl refl

use_key_answers_demo :
    (used : UsableKey) × (use_key demo_gateway demo_id "u"
        (execute demo_gateway demo_draws demo_save []).1
      ≡ ok used)
    × (used.key_id ≡ demo_id)
    × (is_blank used.api_key ≡ false)
unfolding trim_space entry
use_key_answers_demo =
    use_key_answers demo_gateway [] (execute demo_gateway demo_draws demo_save []).1 demo_record
      memory_store-IsLawful plain_aead-IsAead (λ k. refl)
      (serves demo_draws demo_save refl untouched) (refl, refl) (refl, refl) saved_record_found refl
