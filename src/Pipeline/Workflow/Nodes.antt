-- ===== src/Pipeline/Workflow/Nodes.antt =====
-- What the first two loops of Workflow.Validate establish.
use blender_shot_preview.Prelude.{
  String, true, false, List, [], ◌∷◌, ◌++◌, ◌≡◌, refl, ◌≢◌, ◌⊎◌, ok, contains, All, Distinct,
  Within, arith, some, eq_iff, ==_self, All-imp, ◌∙◌, ap, >>=-eq-ok, contains-append, ◌>>=◌,
}
use mathlib.Core.List.{append-nil, append_assoc}
use blender_shot_preview.Prelude.Text.{is_blank}
use blender_shot_preview.Prelude.Json
use blender_shot_preview.Pipeline.Types.{NodeSpec, InvocationKind, other}
use blender_shot_preview.Pipeline.Workflow.{
  find_spec, is_some, is_negative, check_kind, check_node, check_nodes, check_dependencies,
  check_edges, ids_of,
}

pub is_some-find_spec :
    (id : String) (nodes : List NodeSpec)
    → is_some (find_spec id nodes) ≡ contains id (ids_of nodes)
unfolding find_spec contains
is_some-find_spec id [] = refl
is_some-find_spec id (node ∷ nodes) = ground (arith, is_some-find_spec id nodes)

pub ids_of-append : (xs ys : List NodeSpec) → ids_of (xs ++ ys) ≡ ids_of xs ++ ids_of ys
ids_of-append [] ys = refl
ids_of-append (x ∷ xs) ys = rw (ids_of-append xs ys)

-- The fields of a node that a workflow may have.
pub record IsSound (node : NodeSpec) : Type 0 where
  pub named : is_blank node.id ≡ false
  pub kind_known : (kind : String) → node.invocation.kind ≢ other kind
  pub targeted : is_blank node.invocation.target ≡ false
  pub attempts_given : is_negative node.max_attempts ≡ false
  pub input_valid : (node.input ≡ "") ⊎ (Json.valid node.input ≡ true)

pub check_node-IsSound :
    (known : List NodeSpec) (node : NodeSpec)
    → check_node known node ≡ ok tt
    → IsSound node × (contains node.id (ids_of known) ≡ false)
unfolding ◌>>=◌ check_node
check_node-IsSound known node h = (
  record {
    named = ground arith;
    kind_known = λ s e. ground arith;
    targeted = ground arith;
    attempts_given = ground arith;
    input_valid = ground (arith, eq_iff node.input "");
  },
  ground (arith, is_some-find_spec node.id known),
)

check_kind_known :
    (id : String) (k : InvocationKind) → ((s : String) → k ≢ other s) → check_kind id k ≡ ok tt
check_kind_known id (other s) h = absurd (h s refl)
check_kind_known id _ h = refl

pub check_node_complete :
    (known : List NodeSpec) (node : NodeSpec)
    → IsSound node
    → contains node.id (ids_of known) ≡ false
    → check_node known node ≡ ok tt
unfolding ◌>>=◌ check_node
check_node_complete known node v fresh =
    rw (v.named, is_some-find_spec node.id known, fresh)
      (rw (check_kind_known node.id node.invocation.kind v.kind_known, v.targeted, v.attempts_given)
        (ground (arith, eq_iff node.input "", v.input_valid)))

-- No node of the list has an ID among those known.
abbrev pub AreFresh : List NodeSpec → List NodeSpec → Type 0
AreFresh known nodes = All (λ node. contains node.id (ids_of known) ≡ false) nodes

fresh_head :
    (known : List NodeSpec) (node : NodeSpec) (nodes : List NodeSpec)
    → AreFresh (known ++ node ∷ []) nodes
    → AreFresh known nodes × (contains node.id (ids_of nodes) ≡ false)
unfolding contains
fresh_head known node [] f = (tt, refl)
fresh_head known node (n ∷ nodes) f =
    let rest = fresh_head known node nodes f.1 in
    let split = contains-append n.id (ids_of known) (node.id ∷ []) in
    let first = rw (ids_of-append known (node ∷ [])) at f.0 in
    ((ground arith, rest.0), ground (arith, eq_iff n.id node.id, eq_iff node.id n.id))

fresh_tail :
    (known : List NodeSpec) (node : NodeSpec) (nodes : List NodeSpec)
    → AreFresh known nodes
    → contains node.id (ids_of nodes) ≡ false
    → AreFresh (known ++ node ∷ []) nodes
unfolding contains
fresh_tail known node [] f d = tt
fresh_tail known node (n ∷ nodes) f d = (
  rw (ids_of-append known (node ∷ []), contains-append n.id (ids_of known) (node.id ∷ []))
      (ground (arith, f.0, eq_iff n.id node.id, eq_iff node.id n.id)),
  fresh_tail known node nodes f.1 (ground arith),
)

-- The first loop ends with all nodes known, sound and of distinct IDs.
pub check_nodes-IsSound :
    (known nodes : List NodeSpec) {k : List NodeSpec}
    → check_nodes known nodes ≡ ok k
    → (k ≡ known ++ nodes) × All IsSound nodes × AreFresh known nodes × Distinct (ids_of nodes)
unfolding check_nodes
check_nodes-IsSound known [] h = (ground (arith, append-nil known), tt, tt, tt)
check_nodes-IsSound known (node ∷ nodes) {k} h =
    let (u, first, later) = >>=-eq-ok (check_node known node) _ h in
    let (same, sound, fresh, distinct) = check_nodes-IsSound (known ++ node ∷ []) nodes later in
    let (valid, absent) = check_node-IsSound known node first in
    let (fresh', apart) = fresh_head known node nodes fresh in
    (
      same ∙ append_assoc known (node ∷ []) nodes,
      (valid, sound),
      (absent, fresh'),
      (apart, distinct),
    )

pub check_nodes_complete :
    (known nodes : List NodeSpec)
    → All IsSound nodes
    → AreFresh known nodes
    → Distinct (ids_of nodes)
    → check_nodes known nodes ≡ ok (known ++ nodes)
unfolding ◌>>=◌ check_nodes
check_nodes_complete known [] v f d = ground (arith, append-nil known)
check_nodes_complete known (node ∷ nodes) v f d = rw (check_node_complete known node v.0 f.0) (
    check_nodes_complete (known ++ node ∷ []) nodes v.1 (fresh_tail known node nodes f.1 d.0) d.1
    ∙ ap ok (append_assoc known (node ∷ []) nodes))

-- What the second loop asks of the dependencies of a node.
pub record AreSound (known : List NodeSpec) (id : String) (deps : List String) : Type 0 where
  pub known_all : Within deps (ids_of known)
  pub not_self : contains id deps ≡ false
  pub distinct : Distinct deps

-- No dependency of the list was seen before.
abbrev AreNew : List String → List String → Type 0
AreNew seen deps = All (λ d. contains d seen ≡ false) deps

new_head :
    (d : String) (seen deps : List String)
    → AreNew (d ∷ seen) deps
    → AreNew seen deps × (contains d deps ≡ false)
unfolding contains
new_head d seen [] f = (tt, refl)
new_head d seen (x ∷ deps) f =
    let rest = new_head d seen deps f.1 in
    let first = f.0 in ((ground arith, rest.0), ground (arith, eq_iff x d, eq_iff d x))

new_tail :
    (d : String) (seen deps : List String)
    → AreNew seen deps
    → contains d deps ≡ false
    → AreNew (d ∷ seen) deps
unfolding contains
new_tail d seen [] f h = tt
new_tail d seen (x ∷ deps) f h =
    (ground (arith, f.0, eq_iff x d, eq_iff d x), new_tail d seen deps f.1 (ground arith))

check_dependencies_sound :
    (known : List NodeSpec) (id : String) (seen deps : List String)
    → check_dependencies known id seen deps ≡ ok tt
    → AreSound known id deps × AreNew seen deps
unfolding ◌>>=◌ check_dependencies contains
check_dependencies_sound known id seen [] h =
    (record { known_all = tt; not_self = refl; distinct = tt }, tt)
check_dependencies_sound known id seen (d ∷ deps) h =
    let later = check_dependencies_sound known id (d ∷ seen) deps (ground arith) in
    let (rest, new) = later in
    let (new', apart) = new_head d seen deps new in
    (
      record {
        known_all = (ground (arith, is_some-find_spec d known), rest.known_all);
        not_self = ground (arith, rest.not_self);
        distinct = (apart, rest.distinct);
      },
      (ground arith, new'),
    )

check_dependencies_complete :
    (known : List NodeSpec) (id : String) (seen deps : List String)
    → AreSound known id deps
    → AreNew seen deps
    → check_dependencies known id seen deps ≡ ok tt
unfolding ◌>>=◌ check_dependencies contains
check_dependencies_complete known id seen [] v n = refl
check_dependencies_complete known id seen (d ∷ deps) v n =
    let (apart, distinct) = v.distinct in
    let (at, within) = v.known_all in
    let new = n.0 in
    let self = v.not_self in
    let rest =
      check_dependencies_complete known id (d ∷ seen) deps
        (record { known_all = within; not_self = ground arith; distinct = distinct })
        (new_tail d seen deps n.1 apart) in
    ground (arith, is_some-find_spec d known)

-- Every node of the list has sound dependencies.
abbrev pub HaveSound : List NodeSpec → List NodeSpec → Type 0
HaveSound known nodes = All (λ node. AreSound known node.id node.depends_on) nodes

none_seen : (deps : List String) → AreNew [] deps
unfolding contains
none_seen [] = tt
none_seen (d ∷ deps) = (refl, none_seen deps)

pub check_edges_sound :
    (known nodes : List NodeSpec) → check_edges known nodes ≡ ok tt → HaveSound known nodes
unfolding check_edges
check_edges_sound known [] h = tt
check_edges_sound known (node ∷ nodes) h =
    let (u, first, later) = >>=-eq-ok (check_dependencies known node.id [] node.depends_on) _ h in
    (
      (check_dependencies_sound known node.id [] node.depends_on first).0,
      check_edges_sound known nodes later,
    )

pub check_edges_complete :
    (known nodes : List NodeSpec) → HaveSound known nodes → check_edges known nodes ≡ ok tt
unfolding ◌>>=◌ check_edges
check_edges_complete known [] v = refl
check_edges_complete known (node ∷ nodes) v =
    rw
      (check_dependencies_complete known node.id [] node.depends_on v.0 (none_seen node.depends_on))
      (check_edges_complete known nodes v.1)

-- Where the IDs are distinct, each node is found by its ID.
pub find_spec_self :
    (nodes : List NodeSpec)
    → Distinct (ids_of nodes)
    → All (λ n. find_spec n.id nodes ≡ some n) nodes
unfolding find_spec
find_spec_self [] d = tt
find_spec_self (s ∷ nodes) d = (
  rw (==_self s.id),
  All-imp (λ n. find_spec n.id nodes ≡ some n) _ nodes
      (λ n e. ground (arith, is_some-find_spec n.id nodes, eq_iff s.id n.id, d.0))
      (find_spec_self nodes d.1),
)
