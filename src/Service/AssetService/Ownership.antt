-- ===== src/Service/AssetService/Ownership.antt =====
-- Which assets a user's requests can reach.
use blender_shot_preview.Prelude.{
  ℕ, String, Bool, true, ◌⊎◌, false, Option, none, some, ◌≡◌, refl, ap, ◌∙◌, inl, inr, ◌==◌,
  if◌then◌else◌, ok, lookup, insert, lookup-insert, lookup-delete, ==_self, ==-eq, Bool-cases,
  subst, arith,
}
use mathlib.Core.Option.{some-injective}
use Prim.Native.String.{◌++◌ as ◌<>◌}
use blender_shot_preview.Prelude.Text.{is_blank, decimal}
use blender_shot_preview.Service.AssetStore.{
  AssetRecord, AssetStore, available, is_foreign, get, create, delete_found, delete_asset,
  unless_foreign,
}
use blender_shot_preview.Service.AssetService.{
  RegisterRequest, register_asset, new_record, or_empty, delete_asset_of,
}

own_found :
    (user_id : String) (a : AssetRecord)
    → is_foreign user_id a ≡ false
    → unless_foreign user_id (some a) ≡ some a
own_found user_id a h = rw h refl

-- RegisterAsset accepts a request whose name and storage URI are not blank, and answers with an
-- identifier made from the time. Get then finds under it, for the request's user, an available asset
-- with the request's fields, without a thumbnail and with the time as that of its creation and of
-- its update, and finds under every other identifier, for every user, what it found before.
pub register_asset-get :
    (now : ℕ) (req : RegisterRequest) (s : AssetStore)
    → is_blank req.name ≡ false
    → is_blank req.storage_uri ≡ false
    → let (answer, s') = register_asset now (some req) s in
      (answer ≡ ok ("asset_" <> decimal now))
      × (get req.user_id ("asset_" <> decimal now) s'
          ≡ some (record {
            asset_id = "asset_" <> decimal now;
            user_id = req.user_id;
            name = req.name;
            asset_type = req.asset_type;
            file_format = req.file_format;
            file_size_bytes = req.file_size_bytes;
            storage_uri = req.storage_uri;
            thumbnail_uri = "";
            status = available;
            tags = req.tags;
            created_at = now;
            updated_at = now;
            description = or_empty req.description;
          }))
      × ((u j : String) → (("asset_" <> decimal now) == j) ≡ false → get u j s' ≡ get u j s)
unfolding register_asset get create
register_asset-get now req s named placed =
    let a = new_record now req in
    let there : lookup a.asset_id (insert a.asset_id a s.assets) ≡ some a =
      lookup-insert a.asset_id a.asset_id a s.assets
      ∙ ap (λ b. if b then some a else lookup a.asset_id s.assets) (==_self a.asset_id) in
    rw (named, placed)
      (
        refl,
        ap (unless_foreign req.user_id) there
            ∙ own_found req.user_id a (ground (arith, ==_self req.user_id)),
        λ u j apart. ap (unless_foreign u) (
            lookup-insert a.asset_id j a s.assets
            ∙ ap (λ b. if b then some a else lookup j s.assets) apart),
      )

-- Get finds no asset of another user.
found_own :
    (user_id asset_id : String) (s : AssetStore) (a : AssetRecord)
    → get user_id asset_id s ≡ some a
    → (user_id ≡ "") ⊎ (a.user_id ≡ user_id)
unfolding get
found_own user_id asset_id s a = of_found (lookup asset_id s.assets)
  where
    own : is_foreign user_id a ≡ false → (user_id ≡ "") ⊎ (a.user_id ≡ user_id)
    own near = elim (Bool-cases (user_id == "")) [
      | inl empty ↦ inl (==-eq user_id "" empty)
      | inr named ↦ inr (==-eq a.user_id user_id (ground (arith, near, named)))
    ]

    of_found :
        (o : Option AssetRecord)
        → unless_foreign user_id o ≡ some a
        → (user_id ≡ "") ⊎ (a.user_id ≡ user_id)
    of_found none found = cc
    of_found (some b) found = elim (Bool-cases (is_foreign user_id b)) [
      | inl far ↦ absurd (cc (rw far at found))
      | inr near ↦
          let same : b ≡ a = some-injective _ _ (rw near at found) in
          own (subst (λ x. is_foreign user_id x ≡ false) same near)
    ]

-- What Delete does with the record that Get finds, if any.
delete_found_parts :
    (user_id asset_id : String) (s : AssetStore) (o : Option AssetRecord)
    → let (answer, s') = delete_found asset_id s o in
      ((o ≡ none) × (answer ≡ false) × (s' ≡ s))
      ⊎ ((a : AssetRecord) × (o ≡ some a)
          × (answer ≡ true)
          × ((u j : String) → get u j s' ≡ (if asset_id == j then none else get u j s)))
unfolding get
delete_found_parts user_id asset_id s none = inl (refl, refl, refl)
delete_found_parts user_id asset_id s (some a) = inr (
  a,
  refl,
  refl,
  λ u j.
      ap (unless_foreign u) (lookup-delete asset_id j s.assets)
      ∙ unless_if (asset_id == j) u (lookup j s.assets),
)
  where
    unless_if :
        (b : Bool) (u : String) (o : Option AssetRecord)
        → unless_foreign u (if b then none else o) ≡ (if b then none else unless_foreign u o)
    unless_if true u o = refl
    unless_if false u o = refl

-- DeleteAsset with an asset's identifier either answers false and changes nothing, and then Get finds no
-- such asset for this user; or it answers true, and then Get has found the asset for this user, as one
-- of the user's own unless the user is given as empty, and finds it for no user afterwards and every
-- other asset as before.
pub delete_asset_of-get :
    (user_id asset_id : String) (s : AssetStore)
    → is_blank asset_id ≡ false
    → let (answer, s') = delete_asset_of (some (user_id, asset_id)) s in
      ((get user_id asset_id s ≡ none) × (answer ≡ ok false) × (s' ≡ s))
      ⊎ ((a : AssetRecord) × (get user_id asset_id s ≡ some a)
          × ((user_id ≡ "") ⊎ (a.user_id ≡ user_id))
          × (answer ≡ ok true)
          × ((u j : String) → get u j s' ≡ (if asset_id == j then none else get u j s)))
unfolding delete_asset_of delete_asset
delete_asset_of-get user_id asset_id s named =
    rw named (elim (delete_found_parts user_id asset_id s (get user_id asset_id s)) [
      | inl (absent, answer, same) ↦ inl (absent, ap ok answer, same)
      | inr (a, found, answer, others) ↦
          inr (a, found, found_own user_id asset_id s a found, ap ok answer, others)
    ])
