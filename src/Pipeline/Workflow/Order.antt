-- ===== src/Pipeline/Workflow/Order.antt =====
-- A search that finds no cycle finishes the nodes in an order of their dependencies, and a
-- workflow that has such an order is searched through.
use blender_shot_preview.Prelude.{
  ℕ, zero, suc, ◌≤◌, ◌<◌, String, true, false, List, [], ◌∷◌, ◌≡◌, refl, ◌⊎◌, inl, inr, Result, ok,
  ◌==◌, if◌then◌else◌, contains, length, All, All-imp, Within, Within-at, arith, ==_self, ==-eq,
  Bool-cases, >>=-eq-ok, subst, sym, ap,
}
use blender_shot_preview.Pipeline.Types.{NodeSpec, Defect, out_of_fuel}
use blender_shot_preview.Pipeline.Workflow.{
  Marks, leave, dependencies_of, visit, visit_each, ids_of, search_order, start_search,
}
use blender_shot_preview.Pipeline.Workflow.Search.{Keeps, visit_each-Keeps, visit-Keeps}

-- Latest first: the dependencies of a node stand behind it.
abbrev pub IsOrdered : List NodeSpec → List String → Type 0
IsOrdered known [] = Unit
IsOrdered known (id ∷ rest) = Within (dependencies_of known id) rest × IsOrdered known rest

-- What a search adds: an order still, with all that was visited.
record Extends (known : List NodeSpec) (before after : List String) : Type 0 where
  ordered : IsOrdered known after
  kept : (id : String) → contains id before ≡ true → contains id after ≡ true

Within-Extends :
    (known : List NodeSpec) {before after : List String} (ids : List String)
    → Extends known before after
    → Within ids before
    → Within ids after
Within-Extends known {before} ids x w =
    All-imp (λ id. contains id before ≡ true) _ ids (λ id h. x.kept id h) w

-- The rule for a list of visits, from that for each.
visit_each-Extends :
    (known : List NodeSpec) (go : String → Marks → Result Defect Marks)
    → ((id : String) (s t : Marks)
        → IsOrdered known s.visited
        → go id s ≡ ok t
        → Extends known s.visited t.visited × (contains id t.visited ≡ true))
    → (ids : List String) (s t : Marks) → IsOrdered known s.visited
    → visit_each go ids s ≡ ok t
    → Extends known s.visited t.visited × Within ids t.visited
unfolding visit_each
visit_each-Extends known go one [] s t o h =
    let same : s ≡ t = ground arith in
    (
      subst (λ u. Extends known s.visited u.visited) same
          (record { ordered = o; kept = λ id k. k }),
      tt,
    )
visit_each-Extends known go one (id ∷ ids) s t o h =
    let (m, first, later) = >>=-eq-ok (go id s) (visit_each go ids) h in
    let (x, here) = one id s m o first in
    let (y, rest) = visit_each-Extends known go one ids m t x.ordered later in
    (record { ordered = y.ordered; kept = λ j k. y.kept j (x.kept j k) }, (y.kept id here, rest))

-- A visit that goes on either finds the node visited, or visits what it depends on and leaves it.
visit_cases :
    (known : List NodeSpec) (fuel : ℕ) (id : String) (s t : Marks)
    → visit known (suc fuel) id s ≡ ok t
    → ((s ≡ t) × (contains id s.visited ≡ true))
      ⊎ ((m : Marks) × (visit_each
              (visit known fuel)
              (dependencies_of known id)
              (record s { visiting = id ∷ s.visiting })
            ≡ ok m)
          × (t.visited ≡ id ∷ m.visited))
unfolding visit leave
visit_cases known fuel id s t h = elim (Bool-cases (contains id s.visiting)) [
  | inl on ↦ absurd (cc (rw on at h))
  | inr off ↦ elim (Bool-cases (contains id s.visited)) [
    | inl seen ↦ inl (ground arith, seen)
    | inr new ↦
        let (m, inside, out) =
          >>=-eq-ok (visit_each (visit known fuel) (dependencies_of known id) _) (leave id)
            (rw (off, new) at h) in
        inr (m, inside, ground arith)
  ]
]

contains_head : (id : String) (ids : List String) → contains id (id ∷ ids) ≡ true
unfolding contains
contains_head id ids = rw (==_self id)

contains_behind :
    (j id : String) (ids : List String) → contains j ids ≡ true → contains j (id ∷ ids) ≡ true
unfolding contains
contains_behind j id ids h = ground arith

visit-zero : (known : List NodeSpec) (id : String) (s t : Marks) → ¬ (visit known 0 id s ≡ ok t)
unfolding visit
visit-zero known id s t h = cc

visit-Extends :
    (known : List NodeSpec) (fuel : ℕ) (id : String) (s t : Marks)
    → IsOrdered known s.visited
    → visit known fuel id s ≡ ok t
    → Extends known s.visited t.visited × (contains id t.visited ≡ true)
visit-Extends known zero id s t o h = absurd (visit-zero known id s t h)
visit-Extends known (suc fuel) id s t o h = elim (visit_cases known fuel id s t h) [
  | inl (same, seen) ↦ rw (← same) (record { ordered = o; kept = λ j k. k }, seen)
  | inr (m, inside, out) ↦
      let (x, deps) =
        visit_each-Extends known (visit known fuel) (visit-Extends known fuel)
          (dependencies_of known id) _ m o inside in
      rw out (
        record {
          ordered = (deps, x.ordered);
          kept = λ j k. contains_behind j id m.visited (x.kept j k);
        },
        contains_head id m.visited,
      )
]

-- A search that finishes has visited every node, and has finished with each one after all that it
-- depends on.
pub search_order-IsOrdered :
    (known nodes : List NodeSpec) (t : Marks)
    → search_order known nodes ≡ ok t
    → IsOrdered known t.visited × Within (ids_of nodes) t.visited
unfolding search_order
search_order-IsOrdered known nodes t h =
    let (x, all) =
      visit_each-Extends known _ (visit-Extends known _) (ids_of nodes) start_search t tt h in
    (x.ordered, all)

-- The place of a node in an order, counted from its end; 0 for a node that is not there.
unfoldable pub rank : List String → String → ℕ
rank [] id = 0
rank (j ∷ order) id =
    if contains id order then rank order id else if j == id then suc (length order) else 0

rank-le-length : (order : List String) (id : String) → rank order id ≤ length order
unfolding rank
rank-le-length [] id = omega arith
rank-le-length (j ∷ order) id = ground (arith, rank-le-length order id)

-- An order holds what its nodes depend on.
order_closed :
    (known : List NodeSpec) (order : List String) (id d : String)
    → IsOrdered known order
    → contains id order ≡ true
    → contains d (dependencies_of known id) ≡ true
    → contains d order ≡ true
unfolding contains
order_closed known [] id d o at dep = cc
order_closed known (j ∷ order) id d o at dep = elim (Bool-cases (contains id order)) [
  | inl deep ↦ ground (arith, order_closed known order id d o.1 deep dep)
  | inr top ↦
      let same = ==-eq j id (ground arith) in
      ground (arith, Within-at d (dependencies_of known j) order o.0 (rw same dep))
]

-- In an order a node comes after what it depends on.
pub rank-lt :
    (known : List NodeSpec) (order : List String) (id d : String)
    → IsOrdered known order
    → contains id order ≡ true
    → contains d (dependencies_of known id) ≡ true
    → rank order d < rank order id
unfolding rank contains
rank-lt known [] id d o at dep = cc
rank-lt known (j ∷ order) id d o at dep = elim (Bool-cases (contains id order)) [
  | inl deep ↦
      let below = rank-lt known order id d o.1 deep dep in
      let here = order_closed known order id d o.1 deep dep in ground arith
  | inr top ↦
      let same = ==-eq j id (ground arith) in
      let here = Within-at d (dependencies_of known j) order o.0 (rw same dep) in
      ground (arith, rank-le-length order d)
]

-- Numbers for the nodes that fall along each edge: the graph has no cycle.
abbrev pub IsRanking : List NodeSpec → (String → ℕ) → Type 0
IsRanking known level =
    (id d : String) → contains d (dependencies_of known id) ≡ true → level d < level id

-- No error but the fuel's.
abbrev pub OnlyFuel : Defect → Type 0
OnlyFuel out_of_fuel = Unit
OnlyFuel _ = ⊥

-- What stands on the path of the search lies above the node that is visited.
abbrev pub Above : (String → ℕ) → ℕ → List String → Type 0
Above level n path = All (λ v. n < level v) path

Above-absent :
    (level : String → ℕ) (id : String) (path : List String)
    → Above level (level id) path
    → contains id path ≡ false
unfolding contains
Above-absent level id [] a = refl
Above-absent level id (v ∷ path) a = elim (Bool-cases (v == id)) [
  | inl same ↦ absurd (let e = ==-eq v id same in omega (arith, ap level e, a.0))
  | inr other ↦ rw other (Above-absent level id path a.1)
]

pub each_at {ℓ} :
    (P : String → Type ℓ) (ids : List String)
    → ((id : String) → contains id ids ≡ true → P id)
    → All P ids
unfolding contains
each_at P [] f = tt
each_at P (id ∷ ids) f =
    (f id (contains_head id ids), each_at P ids (λ j h. f j (contains_behind j id ids h)))

module _ (known : List NodeSpec) (level : String → ℕ) (ranking : IsRanking known level) where
  pub visit-OnlyFuel :
      (fuel : ℕ) (id : String) (s : Marks)
      → Above level (level id) s.visiting
      → Keeps OnlyFuel s.visiting (visit known fuel id s)
  unfolding visit
  visit-OnlyFuel zero id s a = tt
  visit-OnlyFuel (suc fuel) id s a =
      visit-Keeps OnlyFuel known fuel id s (λ on. cc (Above-absent level id s.visiting a))
        λ off.
          visit_each-Keeps OnlyFuel (visit known fuel) (id ∷ s.visiting) (dependencies_of known id)
            _
            (each_at _ (dependencies_of known id) (λ d dep t e.
              subst (λ path. Keeps OnlyFuel path (visit known fuel d t)) e
                (visit-OnlyFuel fuel d t (
                  subst (Above level (level d)) (sym e) (
                    let below = ranking id d dep in
                    (
                      below,
                      All-imp (λ v. level id < level v) _ s.visiting (λ v h. omega arith) a,
                    ))))))
            refl
