-- ===== src/Pipeline/Workflow/Search.antt =====
-- The depth-first search keeps to its fuel: a path visits distinct known nodes only.
use blender_shot_preview.Prelude.{
  ℕ, zero, suc, ◌+◌, String, true, false, some, List, [], ◌∷◌, ◌≡◌, refl, inl, inr, Result, ok, err,
  ◌>>=◌, ◌==◌, contains, without, length, All, Distinct, Within, arith, ==_self, Bool-cases,
  Option-cases, without_absent, Distinct-fits, All-imp, subst, sym,
}
use blender_shot_preview.Pipeline.Types.{NodeSpec, Defect, cycle}
use blender_shot_preview.Pipeline.Workflow.{
  Marks, leave, find_spec, dependencies_of, visit, visit_each, ids_of,
}
use blender_shot_preview.Pipeline.Workflow.Nodes.{HaveSound}

-- A search that goes on has left its path as it was; one that stops does so for an error allowed.
abbrev pub Keeps : (Defect → Type 0) → List String → Result Defect Marks → Type 0
Keeps allowed path (ok s) = s.visiting ≡ path
Keeps allowed path (err e) = allowed e

-- The dependencies of every node are known.
abbrev pub IsClosed : List NodeSpec → Type 0
IsClosed known = (id : String) → Within (dependencies_of known id) (ids_of known)

find_closed :
    (known nodes : List NodeSpec) (id : String)
    → HaveSound known nodes
    → (node : NodeSpec) → find_spec id nodes ≡ some node
    → Within node.depends_on (ids_of known)
unfolding find_spec
find_closed known [] id h node e = cc
find_closed known (n ∷ nodes) id h node e = elim (Bool-cases (n.id == id)) [
  | inl hit ↦ let same : n ≡ node = ground arith in rw same at h.0.known_all
  | inr miss ↦ find_closed known nodes id h.1 node (ground arith)
]

pub HaveSound-IsClosed : (known : List NodeSpec) → HaveSound known known → IsClosed known
unfolding dependencies_of
HaveSound-IsClosed known h id = elim (Option-cases (find_spec id known)) [
  | inl e ↦ rw (e, dependencies_of) tt
  | inr (node, e) ↦ rw (e, dependencies_of) (find_closed known known id h node e)
]

Keeps-bind :
    (allowed : Defect → Type 0) (path : List String) (m : Result Defect Marks)
    (f : Marks → Result Defect Marks)
    → Keeps allowed path m
    → ((s : Marks) → s.visiting ≡ path → Keeps allowed path (f s))
    → Keeps allowed path (m >>= f)
unfolding ◌>>=◌
Keeps-bind allowed path (ok s) f h k = k s h
Keeps-bind allowed path (err e) f h k = h

-- A visit of each known ID keeps the path, so a visit of all does.
pub visit_each-Keeps :
    (allowed : Defect → Type 0) (go : String → Marks → Result Defect Marks) (path ids : List String)
    (s : Marks)
    → All (λ id. (t : Marks) → t.visiting ≡ path → Keeps allowed path (go id t)) ids
    → s.visiting ≡ path
    → Keeps allowed path (visit_each go ids s)
unfolding visit_each
visit_each-Keeps allowed go path [] s each e = e
visit_each-Keeps allowed go path (id ∷ ids) s each e =
    Keeps-bind allowed path (go id s) (visit_each go ids) (each.0 s e)
      (λ t same. visit_each-Keeps allowed go path ids t each.1 same)

-- The path of the search, with the fuel that is left.
pub record IsPath (known : List NodeSpec) (fuel : ℕ) (path : List String) : Type 0 where
  pub apart : Distinct path
  pub within : Within path (ids_of known)
  pub spent : length path + fuel ≡ suc (length (ids_of known))

-- Leaving a node takes it off the path.
leave-Keeps :
    (allowed : Defect → Type 0) (id : String) (path : List String) (m : Result Defect Marks)
    → contains id path ≡ false
    → Keeps allowed (id ∷ path) m
    → Keeps allowed path (m >>= leave id)
unfolding ◌>>=◌ leave without
leave-Keeps allowed id path (ok s) off h = rw (h, without, ==_self id) (without_absent id path off)
leave-Keeps allowed id path (err e) off h = h

-- A visit keeps the path if it may refuse a cycle, and the visits one deeper keep theirs.
pub visit-Keeps :
    (allowed : Defect → Type 0) (known : List NodeSpec) (fuel : ℕ) (id : String) (s : Marks)
    → (contains id s.visiting ≡ true → allowed (cycle id))
    → (contains id s.visiting ≡ false
        → Keeps allowed (id ∷ s.visiting) (
            visit_each
              (visit known fuel)
              (dependencies_of known id)
              (record s { visiting = id ∷ s.visiting })))
    → Keeps allowed s.visiting (visit known (suc fuel) id s)
unfolding visit
visit-Keeps allowed known fuel id s refused deeper = elim (Bool-cases (contains id s.visiting)) [
  | inl on ↦ rw on (refused on)
  | inr off ↦ rw off (elim (Bool-cases (contains id s.visited)) [
    | inl seen ↦ rw seen refl
    | inr new ↦ rw new (leave-Keeps allowed id s.visiting _ off (deeper off))
  ])
]

-- A cycle is the only reason to stop.
abbrev pub OnlyCycles : Defect → Type 0
OnlyCycles (cycle id) = Unit
OnlyCycles _ = ⊥

-- One more node on the path: it is known and new, so the fuel is not used up.
pub enter-IsPath :
    (known : List NodeSpec) (fuel : ℕ) (id : String) (path : List String)
    → contains id (ids_of known) ≡ true
    → contains id path ≡ false
    → IsPath known (suc fuel) path
    → IsPath known fuel (id ∷ path)
enter-IsPath known fuel id path at off p = record {
  apart = (off, p.apart);
  within = (at, p.within);
  spent = omega (arith, p.spent);
}

-- With the fuel used up the path would be longer than the workflow.
pub IsPath-zero : (known : List NodeSpec) (path : List String) → ¬ IsPath known 0 path
IsPath-zero known path p =
    absurd (omega (arith, p.spent, Distinct-fits path (ids_of known) p.apart p.within))

module _ (known : List NodeSpec) (closed : IsClosed known) where
  pub visit-OnlyCycles :
      (fuel : ℕ) (id : String) (s : Marks)
      → contains id (ids_of known) ≡ true
      → IsPath known fuel s.visiting
      → Keeps OnlyCycles s.visiting (visit known fuel id s)
  visit-OnlyCycles zero id s at p = absurd (IsPath-zero known s.visiting p)
  visit-OnlyCycles (suc fuel) id s at p =
      visit-Keeps OnlyCycles known fuel id s (λ on. tt)
        λ off.
          visit_each-Keeps OnlyCycles (visit known fuel) (id ∷ s.visiting)
            (dependencies_of known id) _
            (All-imp (λ d. contains d (ids_of known) ≡ true) _ (dependencies_of known id)
              (λ d here t e.
                subst (λ path. Keeps OnlyCycles path (visit known fuel d t)) e
                  (visit-OnlyCycles fuel d t here (
                    subst (IsPath known fuel) (sym e)
                      (enter-IsPath known fuel id s.visiting at off p))))
              (closed id))
            refl
