-- ===== src/Pipeline/Workflow/Validity.antt =====
-- Workflow.Validate accepts the well-formed workflows and no others, and always decides.
use blender_shot_preview.Prelude.{
  ℕ, suc, String, true, false, List, [], ◌∷◌, ◌++◌, ◌≡◌, refl, ◌≢◌, inl, inr, Result, ok, err,
  ◌>>=◌, refuse_if, contains, length, All, Within-at, Distinct, arith, Option-cases, >>=-eq-ok,
  subst, sym, ap, ◌∙◌,
}
use blender_shot_preview.Pipeline.Types.{NodeSpec, Workflow, Defect, no_nodes, cycle, out_of_fuel}
use blender_shot_preview.Pipeline.Workflow.{
  Marks, find_spec, dependencies_of, visit, ids_of, is_nil, search_order, start_search, check_node,
  check_nodes, check_dependencies, check_edges, validate,
}
use blender_shot_preview.Pipeline.Workflow.Nodes.{
  is_some-find_spec, IsSound, HaveSound, AreFresh, check_nodes-IsSound, check_nodes_complete,
  check_edges_sound, check_edges_complete,
}
use blender_shot_preview.Pipeline.Workflow.Search.{
  Keeps, IsPath, OnlyCycles, HaveSound-IsClosed, visit_each-Keeps, visit-OnlyCycles,
}
use blender_shot_preview.Pipeline.Workflow.Order.{
  IsRanking, OnlyFuel, visit-OnlyFuel, rank, rank-lt, search_order-IsOrdered, each_at,
}

pub record IsWellFormed (w : Workflow) : Type 0 where
  pub some_node : w.nodes ≢ []
  pub sound : All IsSound w.nodes
  pub distinct : Distinct (ids_of w.nodes)
  pub edges : HaveSound w.nodes w.nodes
  pub level : String → ℕ
  pub ranking : IsRanking w.nodes level

-- An accepted workflow went through each of the three loops.
validate_parts :
    (w : Workflow)
    → validate w ≡ ok tt
    → (is_nil w.nodes ≡ false)
      × (check_nodes [] w.nodes ≡ ok w.nodes)
      × (check_edges w.nodes w.nodes ≡ ok tt)
      × ((t : Marks) × (search_order w.nodes w.nodes ≡ ok t))
unfolding validate
validate_parts w h =
    let (u, nonempty, rest) = >>=-eq-ok (refuse_if (is_nil w.nodes) no_nodes) _ h in
    let (known, nodes, rest') = >>=-eq-ok (check_nodes [] w.nodes) _ rest in
    let same : known ≡ w.nodes = (check_nodes-IsSound [] w.nodes nodes).0 in
    let (v, edges, rest'') = >>=-eq-ok (check_edges known w.nodes) _ rest' in
    let (t, found, end) = >>=-eq-ok (search_order known w.nodes) _ rest'' in
    (
      ground arith,
      nodes ∙ ap ok same,
      ground arith,
      (t, ap (λ k. search_order k w.nodes) (sym same) ∙ found),
    )

dependencies_known :
    (known : List NodeSpec) (id d : String)
    → contains d (dependencies_of known id) ≡ true
    → contains id (ids_of known) ≡ true
unfolding dependencies_of contains
dependencies_known known id d h = elim (Option-cases (find_spec id known)) [
  | inl e ↦ absurd (cc (rw (e, dependencies_of, contains) at h))
  | inr (node, e) ↦ sym (is_some-find_spec id known) ∙ rw e
]

-- An accepted workflow is well formed: it has nodes, each sound and named once, the dependencies
-- are known, and there are levels for the names by which each node stands above what it depends on,
-- so that the graph has no cycle.
pub validate-IsWellFormed : (w : Workflow) → validate w ≡ ok tt → IsWellFormed w
validate-IsWellFormed w h =
    let (nonempty, nodes, edges, (t, found)) = validate_parts w h in
    let (same, sound, fresh, distinct) = check_nodes-IsSound [] w.nodes nodes in
    let (order, all) = search_order-IsOrdered w.nodes w.nodes t found in
    record {
      some_node = λ e. cc;
      sound = sound;
      distinct = distinct;
      edges = check_edges_sound w.nodes w.nodes edges;
      level = rank t.visited;
      ranking = λ id d dep.
          rank-lt w.nodes t.visited id d order
            (Within-at id (ids_of w.nodes) t.visited all (dependencies_known w.nodes id d dep)) dep;
    }

length-ids_of : (nodes : List NodeSpec) → length (ids_of nodes) ≡ length nodes
length-ids_of [] = refl
length-ids_of (node ∷ nodes) = ap suc (length-ids_of nodes)

start-IsPath : (known : List NodeSpec) → IsPath known (suc (length known)) []
start-IsPath known = record { apart = tt; within = tt; spent = omega (arith, length-ids_of known) }

-- The search as a whole stops for a cycle only.
search_order-OnlyCycles :
    (known : List NodeSpec) → HaveSound known known → Keeps OnlyCycles [] (search_order known known)
unfolding search_order
search_order-OnlyCycles known h =
    visit_each-Keeps OnlyCycles _ [] (ids_of known) start_search
      (each_at _ (ids_of known) (λ id here t e.
        subst (λ path. Keeps OnlyCycles path (visit known (suc (length known)) id t)) e
          (visit-OnlyCycles known (HaveSound-IsClosed known h) (suc (length known)) id t here
            (subst (IsPath known (suc (length known))) (sym e) (start-IsPath known)))))
      refl

search_order-OnlyFuel :
    (known : List NodeSpec) (level : String → ℕ)
    → IsRanking known level
    → Keeps OnlyFuel [] (search_order known known)
unfolding search_order
search_order-OnlyFuel known level ranking =
    visit_each-Keeps OnlyFuel _ [] (ids_of known) start_search
      (each_at _ (ids_of known) (λ id here t e.
        subst (λ path. Keeps OnlyFuel path (visit known (suc (length known)) id t)) e
          (visit-OnlyFuel known level ranking (suc (length known)) id t (rw e tt))))
      refl

both_kept :
    (r : Result Defect Marks)
    → Keeps OnlyCycles [] r
    → Keeps OnlyFuel [] r
    → (t : Marks) × (r ≡ ok t)
both_kept (ok t) c f = (t, refl)
both_kept (err (cycle id)) c f = absurd f
both_kept (err out_of_fuel) c f = absurd c
both_kept (err _) c f = absurd f

is_nil_of_ne : (nodes : List NodeSpec) → nodes ≢ [] → is_nil nodes ≡ false
is_nil_of_ne [] h = absurd (h refl)
is_nil_of_ne (node ∷ nodes) h = refl

fresh_of_none : (nodes : List NodeSpec) → AreFresh [] nodes
unfolding contains
fresh_of_none [] = tt
fresh_of_none (node ∷ nodes) = (refl, fresh_of_none nodes)

-- A workflow that has nodes, each sound and named once, whose dependencies are known, given once and
-- ranked below the nodes that have them, is accepted.
pub IsWellFormed-validate : (w : Workflow) → IsWellFormed w → validate w ≡ ok tt
unfolding validate ◌>>=◌
IsWellFormed-validate w v =
    let (t, found) =
      both_kept _ (search_order-OnlyCycles w.nodes v.edges)
        (search_order-OnlyFuel w.nodes v.level v.ranking) in
    rw
      (
        is_nil_of_ne w.nodes v.some_node,
        check_nodes_complete [] w.nodes v.sound (fresh_of_none w.nodes) v.distinct,
        check_edges_complete w.nodes w.nodes v.edges,
      )
      (rw found)

-- The result is no want of fuel.
abbrev Decides : {A : Type 0} → Result Defect A → Type 0
Decides r = r ≡ err out_of_fuel → ⊥

Decides-bind :
    {A B : Type 0} (m : Result Defect A) (f : A → Result Defect B)
    → Decides m
    → ((a : A) → m ≡ ok a → Decides (f a))
    → Decides (m >>= f)
unfolding ◌>>=◌
Decides-bind (ok a) f h k = k a refl
Decides-bind (err e) f h k = λ q. h (ground arith)

check_node-Decides : (known : List NodeSpec) (node : NodeSpec) → Decides (check_node known node)
unfolding ◌>>=◌ check_node
check_node-Decides known node e = ground arith

check_nodes-Decides : (known nodes : List NodeSpec) → Decides (check_nodes known nodes)
unfolding check_nodes
check_nodes-Decides known [] = λ e. cc
check_nodes-Decides known (node ∷ nodes) =
    Decides-bind (check_node known node) _ (check_node-Decides known node)
      (λ u e. check_nodes-Decides (known ++ node ∷ []) nodes)

check_dependencies-Decides :
    (known : List NodeSpec) (id : String) (seen deps : List String)
    → Decides (check_dependencies known id seen deps)
unfolding ◌>>=◌ check_dependencies
check_dependencies-Decides known id seen [] e = cc
check_dependencies-Decides known id seen (d ∷ deps) e =
    ground (arith, check_dependencies-Decides known id (d ∷ seen) deps)

check_edges-Decides : (known nodes : List NodeSpec) → Decides (check_edges known nodes)
unfolding check_edges
check_edges-Decides known [] = λ e. cc
check_edges-Decides known (node ∷ nodes) =
    Decides-bind (check_dependencies known node.id [] node.depends_on) _
      (check_dependencies-Decides known node.id [] node.depends_on)
      (λ u e. check_edges-Decides known nodes)

OnlyCycles-Decides : (m : Result Defect Marks) → Keeps OnlyCycles [] m → Decides m
OnlyCycles-Decides (ok t) k e = cc
OnlyCycles-Decides (err out_of_fuel) k e = k
OnlyCycles-Decides (err _) k e = cc

-- Validate never uses up the fuel of its search, whatever the workflow: with the depth bounded by one
-- more than the number of nodes it accepts, or refuses with a defect of the source.
pub validate_decides : (w : Workflow) → validate w ≢ err out_of_fuel
unfolding validate
validate_decides w =
    Decides-bind (refuse_if (is_nil w.nodes) no_nodes) _ (λ e. ground arith)
      λ u _. Decides-bind (check_nodes [] w.nodes) _ (check_nodes-Decides [] w.nodes) λ known nodes.
        let same = (check_nodes-IsSound [] w.nodes nodes).0 in
        Decides-bind (check_edges known w.nodes) _ (check_edges-Decides known w.nodes) λ v edges.
          let sound =
            check_edges_sound w.nodes w.nodes
              (ap (λ k. check_edges k w.nodes) (sym same) ∙ edges) in
          Decides-bind (search_order known w.nodes) _
            (OnlyCycles-Decides _ (
              subst (λ k. Keeps OnlyCycles [] (search_order k w.nodes)) (sym same)
                (search_order-OnlyCycles w.nodes sound)))
            (λ t _ e. cc)
