-- ===== src/Service/AssetService.antt =====
-- AssetServiceImpl of internal/service/asset_service.go over the store in memory, which returns no
-- errors of its own. A request is given by its fields; the views of a response and the formats of
-- its times are left to the handlers, so that a response has the records themselves.
pub mod Ownership
use Prim.Native.String.{◌++◌}
use blender_shot_preview.Prelude.{
  ℕ, ℤ, pos, negsuc, String, Bool, true, false, Option, none, some, List, Result, ok, err,
  if◌then◌else◌,
}
use blender_shot_preview.Prelude.Text.{is_blank, decimal}
use blender_shot_preview.Service.AssetStore.{
  AssetType, AssetRecord, AssetStore, Stats, available, list, create, delete_asset, get_stats,
  positive_or,
}

pub data AssetError : Type 0 where
  nil_request empty_name empty_storage_uri empty_asset_id : AssetError

pub record ListRequest : Type 0 where
  pub user_id : String
  pub asset_type : Option AssetType
  pub query_keyword : Option String
  pub page_num : Option ℤ
  pub page_size : Option ℤ

pub record RegisterRequest : Type 0 where
  pub user_id : String
  pub name : String
  pub asset_type : AssetType
  pub file_format : String
  pub file_size_bytes : ℕ
  pub storage_uri : String
  pub tags : List String
  pub description : Option String

abbrev pub or_empty : Option String → String
or_empty none = ""
or_empty (some s) = s

-- A page number or size of the request where it is positive, and else the default.
abbrev pub given_or : ℕ → Option ℤ → ℤ
given_or default none = pos default
given_or default (some n) = pos (positive_or default n)

unfoldable pub list_assets :
    (String → String) → Option ListRequest → AssetStore → Result AssetError (List AssetRecord × ℕ)
list_assets lower none s = err nil_request
list_assets lower (some req) s = ok (
    list lower req.user_id req.asset_type (or_empty req.query_keyword) (given_or 1 req.page_num)
      (given_or 50 req.page_size) s)

-- The record of RegisterAsset, at the time `now` in nanoseconds.
abbrev pub new_record : ℕ → RegisterRequest → AssetRecord
new_record now req = record {
  asset_id = "asset_" ++ decimal now;
  user_id = req.user_id;
  name = req.name;
  asset_type = req.asset_type;
  file_format = req.file_format;
  file_size_bytes = req.file_size_bytes;
  storage_uri = req.storage_uri;
  thumbnail_uri = "";
  status = available;
  tags = req.tags;
  created_at = now;
  updated_at = now;
  description = or_empty req.description;
}

unfoldable pub register_asset :
    ℕ → Option RegisterRequest → AssetStore → Result AssetError String × AssetStore
register_asset now none s = (err nil_request, s)
register_asset now (some req) s =
    if is_blank req.name
    then (err empty_name, s)
    else if is_blank req.storage_uri
    then (err empty_storage_uri, s)
    else (ok (new_record now req).asset_id, create (new_record now req) s)

-- DeleteAsset, for a request by its user and its asset.
unfoldable pub delete_asset_of :
    Option (String × String) → AssetStore → Result AssetError Bool × AssetStore
delete_asset_of none s = (err nil_request, s)
delete_asset_of (some (user_id, asset_id)) s =
    if is_blank asset_id
    then (err empty_asset_id, s)
    else (ok (delete_asset user_id asset_id s).0, (delete_asset user_id asset_id s).1)

unfoldable pub get_asset_stats : Option String → AssetStore → Result AssetError Stats
get_asset_stats none s = err nil_request
get_asset_stats (some user_id) s = ok (get_stats user_id s)
