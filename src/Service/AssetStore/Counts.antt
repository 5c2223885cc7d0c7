-- ===== src/Service/AssetStore/Counts.antt =====
-- What InMemoryAssetStore.GetStats counts.
use blender_shot_preview.Prelude.{
  ℕ, ◌+◌, ◌≤◌, ℤ, String, Bool, true, false, none, List, [], ◌∷◌, ◌≡◌, sym, ap, ◌∙◌, ◌||◌,
  if◌then◌else◌, length, arith,
}
use blender_shot_preview.Prelude.Text.{trim_space}
use blender_shot_preview.Service.AssetStore.{
  AssetRecord, AssetStore, Stats, count, count_own, count_all, get_stats, filtered, list,
  is_foreign,
}

length-filtered :
    (lower : String → String) (user_id : String) (assets : List (String × AssetRecord))
    (stats : Stats)
    → (count_all user_id assets stats).total
      ≡ stats.total + length (filtered lower user_id none "" assets)
unfolding count_all filtered
length-filtered lower user_id [] stats = omega arith
length-filtered lower user_id ((id, a) ∷ assets) stats =
    own (length-filtered lower user_id assets) (is_foreign user_id a)
  where
    own :
        ((other : Stats)
          → (count_all user_id assets other).total
            ≡ other.total + length (filtered lower user_id none "" assets))
        → (b : Bool)
        → (count_all user_id assets (count_own b a stats)).total
          ≡ stats.total
            + length (
                if b || false || false
                then filtered lower user_id none "" assets
                else a ∷ filtered lower user_id none "" assets)
    own rest true = rest stats
    own rest false = rest (count a stats) ∙ omega arith

counted_fit :
    (b : Bool) (a : AssetRecord) (stats : Stats)
    → stats.models + stats.presets ≤ stats.total
    → (count_own b a stats).models + (count_own b a stats).presets ≤ (count_own b a stats).total
counted_fit true a stats h = h
counted_fit false a stats h = ground (arith, h)

counts_fit :
    (user_id : String) (assets : List (String × AssetRecord)) (stats : Stats)
    → stats.models + stats.presets ≤ stats.total
    → (count_all user_id assets stats).models + (count_all user_id assets stats).presets
      ≤ (count_all user_id assets stats).total
unfolding count_all
counts_fit user_id [] stats h = h
counts_fit user_id ((id, a) ∷ assets) stats h =
    counts_fit user_id assets _ (counted_fit (is_foreign user_id a) a stats h)

from_zero : (n : ℕ) → 0 + n ≡ n
from_zero n = omega arith

abbrev none_yet : Stats
none_yet = record { total = 0; models = 0; presets = 0; total_bytes = 0 }

-- Where lowering keeps the empty string, the total of GetStats is the total that List finds for the same user without a type and without
-- a keyword, whatever the page, and its models and presets are together no more.
pub get_stats_total :
    (lower : String → String) (user_id : String) (page_num page_size : ℤ) (s : AssetStore)
    → lower "" ≡ ""
    → ((get_stats user_id s).total ≡ (list lower user_id none "" page_num page_size s).1)
      × ((get_stats user_id s).models + (get_stats user_id s).presets ≤ (get_stats user_id s).total)
unfolding get_stats list trim_space
get_stats_total lower user_id page_num page_size s h = (
  length-filtered lower user_id s.assets none_yet
      ∙ from_zero (length (filtered lower user_id none "" s.assets))
      ∙ ap (λ kw. length (filtered lower user_id none kw s.assets)) (sym h),
  counts_fit user_id s.assets none_yet (omega arith),
)
