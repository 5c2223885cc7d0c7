-- ===== src/Agent/DefinitionService/Unique.antt =====
-- uniqueTrimmed of internal/agent/definition_service.go against the list it is given.
use blender_shot_preview.Prelude.{
  String, Bool, true, false, not, ◌&&◌, List, [], ◌∷◌, ◌≡◌, ◌∙◌, ◌==◌, contains, if◌then◌else◌, map,
  arith, Distinct, eq_iff,
}
use blender_shot_preview.Prelude.Text.{trim_space}
use blender_shot_preview.Agent.DefinitionService.{unique_from, unique_trimmed}

-- The texts that uniqueTrimmed collects from a list are those that are not empty and are a member of
-- the trimmed list, past those seen.
contains-unique_from :
    (k : String) (seen values : List String)
    → contains k (unique_from seen values)
      ≡ (not (k == "") && not (contains k seen) && contains k (map trim_space values))
unfolding unique_from contains
contains-unique_from k seen [] = ground arith
contains-unique_from k seen (value ∷ values) = ground (
  arith,
  contains-unique_from k seen values,
  contains-unique_from k (trim_space value ∷ seen) values,
  eq_iff (trim_space value) k,
  eq_iff (trim_space value) "",
  eq_iff k "",
)

kept_or-Distinct :
    (b c : Bool) (k : String) (skipped kept : List String)
    → Distinct skipped
    → Distinct (k ∷ kept)
    → Distinct (if b then skipped else if c then skipped else k ∷ kept)
kept_or-Distinct true c k skipped kept h h' = h
kept_or-Distinct false true k skipped kept h h' = h
kept_or-Distinct false false k skipped kept h h' = h'

unique_from-Distinct : (seen values : List String) → Distinct (unique_from seen values)
unfolding unique_from contains
unique_from-Distinct seen [] = tt
unique_from-Distinct seen (value ∷ values) =
    kept_or-Distinct (trim_space value == "") (contains (trim_space value) seen) (trim_space value)
      _ _ (unique_from-Distinct seen values)
      (
        contains-unique_from (trim_space value) (trim_space value ∷ seen) values
            ∙ ground (arith, eq_iff (trim_space value) (trim_space value)),
        unique_from-Distinct (trim_space value ∷ seen) values,
      )

-- uniqueTrimmed returns each text once, and returns exactly the texts that are not empty and that the
-- list has when the space around its texts is removed.
pub unique_trimmed-lem :
    (values : List String)
    → Distinct (unique_trimmed values)
      × ((k : String)
          → contains k (unique_trimmed values)
            ≡ (not (k == "") && contains k (map trim_space values)))
unfolding unique_trimmed contains
unique_trimmed-lem values =
    (unique_from-Distinct [] values, λ k. ground (arith, contains-unique_from k [] values))
