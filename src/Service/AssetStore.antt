-- ===== src/Service/AssetStore.antt =====
-- AssetRecord of internal/service/asset_contract.go and InMemoryAssetStore of
-- internal/service/asset_service.go. The map is an association list, and its order is the order in
-- which `range` meets the assets, which Go leaves open. strings.ToLower is an argument, since its
-- Unicode tables are not here. An int64 is the word of its bits, so that sums wrap around.
pub mod Paging
pub mod Counts
use blender_shot_preview.Prelude.{
  ℕ, zero, suc, ◌+◌, ◌-◌, ◌*◌, ◌%◌, ℤ, pos, negsuc, to_ℕ, String, Bool, true, false, Option, none,
  some, List, [], ◌∷◌, ◌==◌, ◌&&◌, ◌||◌, not, if◌then◌else◌, leb, eqb, length, take, drop, lookup,
  insert, delete,
}
use blender_shot_preview.Prelude.Text.{trim_space, includes}

-- Constants of the enumerations in kitex_gen/handler/v0_1/asset_service.go, by their numbers.
pub data AssetType : Type 0 where
  model_3d shot_preset material animation : AssetType
  other : ℕ → AssetType

abbrev pub type_number : AssetType → ℕ
type_number model_3d = 1
type_number shot_preset = 2
type_number material = 3
type_number animation = 4
type_number (other n) = n

pub data AssetStatus : Type 0 where
  available processing archived : AssetStatus

pub record AssetRecord : Type 0 where
  pub asset_id : String
  pub user_id : String
  pub name : String
  pub asset_type : AssetType
  pub file_format : String
  pub file_size_bytes : ℕ
  pub storage_uri : String
  pub thumbnail_uri : String
  pub status : AssetStatus
  pub tags : List String
  pub created_at : ℕ
  pub updated_at : ℕ
  pub description : String

pub record AssetStore : Type 0 where
  pub assets : List (String × AssetRecord)

unfoldable pub new_store : AssetStore
new_store = record { assets = [] }

-- `userID != "" && record.UserID != userID`
abbrev pub is_foreign : String → AssetRecord → Bool
is_foreign user_id a = not (user_id == "") && not (a.user_id == user_id)

abbrev pub is_other_type : Option AssetType → AssetRecord → Bool
is_other_type none a = false
is_other_type (some t) a = not (eqb (type_number a.asset_type) (type_number t))

abbrev pub any_tag : (String → String) → String → List String → Bool
any_tag lower kw [] = false
any_tag lower kw (tag ∷ tags) = includes (lower tag) kw || any_tag lower kw tags

abbrev pub is_unmatched : (String → String) → String → AssetRecord → Bool
is_unmatched lower kw a =
    not (kw == "")
    && not
        (includes (lower a.name) kw || includes (lower a.description) kw || any_tag lower kw a.tags)

-- The loop of List.
unfoldable pub filtered :
    (String → String)
    → String
    → Option AssetType
    → String
    → List (String × AssetRecord)
    → List AssetRecord
filtered lower user_id asset_type kw [] = []
filtered lower user_id asset_type kw ((id, a) ∷ assets) =
    let rest = filtered lower user_id asset_type kw assets in
    if is_foreign user_id a || is_other_type asset_type a || is_unmatched lower kw a
    then rest
    else a ∷ rest

-- `if n <= 0 { n = default }`
abbrev pub positive_or : ℕ → ℤ → ℕ
positive_or default (pos zero) = default
positive_or default (pos (suc n)) = suc n
positive_or default (negsuc n) = default

-- `xs[a:b]`
abbrev pub slice {ℓ} : {A : Type ℓ} → List A → ℕ → ℕ → List A
slice xs a b = take (b - a) (drop a xs)

-- The page of List, by its number from 1 and its size, both past their defaults. The numbers of a request
-- are int32, so that Go's products in int do not wrap.
unfoldable pub page {ℓ} : {A : Type ℓ} → ℕ → ℕ → List A → List A
page page_num page_size xs =
    let start = (page_num - 1) * page_size in
    let end = start + page_size in
    if leb (length xs) start
    then []
    else if leb end (length xs)
    then slice xs start end
    else slice xs start (length xs)

unfoldable pub list :
    (String → String)
    → String
    → Option AssetType
    → String
    → ℤ
    → ℤ
    → AssetStore
    → List AssetRecord × ℕ
list lower user_id asset_type keyword page_num page_size s =
    let found = filtered lower user_id asset_type (lower (trim_space keyword)) s.assets in
    (page (positive_or 1 page_num) (positive_or 50 page_size) found, length found)

abbrev pub unless_foreign : String → Option AssetRecord → Option AssetRecord
unless_foreign user_id none = none
unless_foreign user_id (some a) = if is_foreign user_id a then none else some a

-- Get, with `none` for false.
unfoldable pub get : String → String → AssetStore → Option AssetRecord
get user_id asset_id s = unless_foreign user_id (lookup asset_id s.assets)

unfoldable pub create : AssetRecord → AssetStore → AssetStore
create a s = record { assets = insert a.asset_id a s.assets }

abbrev pub delete_found : String → AssetStore → Option AssetRecord → Bool × AssetStore
delete_found asset_id s none = (false, s)
delete_found asset_id s (some a) = (true, record { assets = delete asset_id s.assets })

-- The method Delete.
unfoldable pub delete_asset : String → String → AssetStore → Bool × AssetStore
delete_asset user_id asset_id s = delete_found asset_id s (get user_id asset_id s)

pub record Stats : Type 0 where
  pub total : ℕ
  pub models : ℕ
  pub presets : ℕ
  pub total_bytes : ℕ

-- 2 ^ 64
abbrev pub word : ℕ
word = 18446744073709551616

-- The body of the loop of GetStats.
abbrev pub count : AssetRecord → Stats → Stats
count a stats = record {
  total = suc stats.total;
  models = if eqb (type_number a.asset_type) 1 then suc stats.models else stats.models;
  presets = if eqb (type_number a.asset_type) 2 then suc stats.presets else stats.presets;
  total_bytes = (stats.total_bytes + a.file_size_bytes) % word;
}

-- `continue` for the asset of another user.
abbrev pub count_own : Bool → AssetRecord → Stats → Stats
count_own true a stats = stats
count_own false a stats = count a stats

unfoldable pub count_all : String → List (String × AssetRecord) → Stats → Stats
count_all user_id [] stats = stats
count_all user_id ((id, a) ∷ assets) stats =
    count_all user_id assets (count_own (is_foreign user_id a) a stats)

unfoldable pub get_stats : String → AssetStore → Stats
get_stats user_id s =
    count_all user_id s.assets (record { total = 0; models = 0; presets = 0; total_bytes = 0 })
