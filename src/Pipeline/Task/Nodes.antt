-- ===== src/Pipeline/Task/Nodes.antt =====
-- What a change of one node, or of each node, does to a list of nodes.
use blender_shot_preview.Prelude.{
  String, Bool, true, false, Option, none, some, List, [], ◌∷◌, ◌≡◌, refl, inl, inr, ◌==◌, ◌&&◌,
  map, All, Bool-cases, ◌∙◌, subst, and_parts,
}
use mathlib.Core.Option.{some-injective}
use blender_shot_preview.Pipeline.Types.{Node, find_node}
use blender_shot_preview.Pipeline.Task.{
  keep_behind, update_first, is_succeeded, has_succeeded, all_succeeded,
}

-- The second list is the first with nodes changed that keep their ID, their dependencies and, once
-- they have it, their success.
pub record IsLater (a b : Node) : Type 0 where
  pub same_id : b.id ≡ a.id
  pub same_deps : b.depends_on ≡ a.depends_on
  pub same_max : b.max_attempts ≡ a.max_attempts
  pub success_stays : is_succeeded a.status ≡ true → is_succeeded b.status ≡ true

abbrev pub Grows : List Node → List Node → Type 0
Grows [] [] = Unit
Grows [] (b ∷ ys) = ⊥
Grows (a ∷ xs) [] = ⊥
Grows (a ∷ xs) (b ∷ ys) = IsLater a b × Grows xs ys

pub IsLater-refl : (a : Node) → IsLater a a
IsLater-refl a = record {
  same_id = refl;
  same_deps = refl;
  same_max = refl;
  success_stays = λ h. h;
}

pub Grows-refl : (xs : List Node) → Grows xs xs
Grows-refl [] = tt
Grows-refl (a ∷ xs) = (IsLater-refl a, Grows-refl xs)

pub Grows-trans : (xs ys zs : List Node) → Grows xs ys → Grows ys zs → Grows xs zs
Grows-trans [] [] [] g h = tt
Grows-trans [] [] (c ∷ zs) g h = absurd h
Grows-trans [] (b ∷ ys) zs g h = absurd g
Grows-trans (a ∷ xs) [] zs g h = absurd g
Grows-trans (a ∷ xs) (b ∷ ys) [] g h = absurd h
Grows-trans (a ∷ xs) (b ∷ ys) (c ∷ zs) g h = (
  record {
    same_id = h.0.same_id ∙ g.0.same_id;
    same_deps = h.0.same_deps ∙ g.0.same_deps;
    same_max = h.0.same_max ∙ g.0.same_max;
    success_stays = λ s. h.0.success_stays (g.0.success_stays s);
  },
  Grows-trans xs ys zs g.1 h.1,
)

pub Grows-map :
    (f : Node → Node) → ((a : Node) → IsLater a (f a)) → (xs : List Node) → Grows xs (map f xs)
Grows-map f later [] = tt
Grows-map f later (a ∷ xs) = (later a, Grows-map f later xs)

-- The result of a loop that changes one node.
pub data Changed (test : Node → Bool) (change : Node → Node)
    : List Node → Node → List Node → Type 0 where
  at :
      (node : Node) (nodes : List Node)
      → test node ≡ true
      → Changed test change (node ∷ nodes) (change node) (change node ∷ nodes)
  behind :
      (node found : Node) (nodes nodes' : List Node)
      → test node ≡ false
      → Changed test change nodes found nodes'
      → Changed test change (node ∷ nodes) found (node ∷ nodes')

behind_parts :
    (node : Node) (r : Option (Node × List Node)) {q : Node × List Node}
    → keep_behind node r ≡ some q
    → (f : Node) × (ns : List Node) × (r ≡ some (f, ns)) × ((f, node ∷ ns) ≡ q)
behind_parts node none e = cc
behind_parts node (some (f, ns)) e = (f, ns, refl, some-injective _ _ e)

pub update_first-Changed :
    (test : Node → Bool) (change : Node → Node) (nodes nodes' : List Node) (found : Node)
    → update_first test change nodes ≡ some (found, nodes')
    → Changed test change nodes found nodes'
unfolding update_first
update_first-Changed test change [] nodes' found e = cc
update_first-Changed test change (node ∷ nodes) nodes' found e = elim (Bool-cases (test node)) [
  | inl hit ↦
      subst (λ q. Changed test change (node ∷ nodes) q.0 q.1) (some-injective _ _ (rw hit at e))
        (at node nodes hit)
  | inr miss ↦
      let (f, ns, found_behind, same) = behind_parts node _ (rw miss at e) in
      subst (λ q. Changed test change (node ∷ nodes) q.0 q.1) same
        (behind node f nodes ns miss (update_first-Changed test change nodes ns f found_behind))
]

pub Changed-Grows :
    (test : Node → Bool) (change : Node → Node)
    → ((a : Node) → test a ≡ true → IsLater a (change a))
    → {nodes nodes' : List Node} {found : Node} → Changed test change nodes found nodes'
    → Grows nodes nodes'
Changed-Grows test change later (at node nodes t) = (later node t, Grows-refl nodes)
Changed-Grows test change later (behind node found nodes nodes' t c) =
    (IsLater-refl node, Changed-Grows test change later c)

-- A predicate that the change keeps holds of all nodes still.
pub Changed-All {ℓ} :
    (P : Node → Type ℓ) (test : Node → Bool) (change : Node → Node)
    → ((a : Node) → test a ≡ true → P a → P (change a))
    → {nodes nodes' : List Node} {found : Node} → Changed test change nodes found nodes'
    → All P nodes
    → All P nodes'
Changed-All P test change keep (at node nodes t) h = (keep node t h.0, h.1)
Changed-All P test change keep (behind node found nodes nodes' t c) h =
    (h.0, Changed-All P test change keep c h.1)

pub All-map {ℓ} :
    (P : Node → Type ℓ) (f : Node → Node)
    → ((a : Node) → P a → P (f a))
    → (nodes : List Node) → All P nodes
    → All P (map f nodes)
All-map P f keep [] h = tt
All-map P f keep (a ∷ nodes) h = (keep a h.0, All-map P f keep nodes h.1)

-- Dependencies that have succeeded stay so.
has_succeeded-Grows :
    (xs ys : List Node) (d : String)
    → Grows xs ys
    → has_succeeded (find_node d xs) ≡ true
    → has_succeeded (find_node d ys) ≡ true
unfolding find_node
has_succeeded-Grows [] [] d g h = h
has_succeeded-Grows [] (b ∷ ys) d g h = absurd g
has_succeeded-Grows (a ∷ xs) [] d g h = absurd g
has_succeeded-Grows (a ∷ xs) (b ∷ ys) d g h = elim (Bool-cases (a.id == d)) [
  | inl hit ↦ rw (g.0.same_id, hit) (g.0.success_stays (rw hit at h))
  | inr miss ↦ rw (g.0.same_id, miss) (has_succeeded-Grows xs ys d g.1 (rw miss at h))
]

pub all_succeeded-Grows :
    (xs ys : List Node) (deps : List String)
    → Grows xs ys
    → all_succeeded xs deps ≡ true
    → all_succeeded ys deps ≡ true
unfolding all_succeeded
all_succeeded-Grows xs ys [] g h = refl
all_succeeded-Grows xs ys (d ∷ deps) g h =
    let (first, rest) = and_parts (has_succeeded (find_node d xs)) (all_succeeded xs deps) h in
    rw (has_succeeded-Grows xs ys d g first) (all_succeeded-Grows xs ys deps g rest)

abbrev pub node_ids : List Node → List String
node_ids [] = []
node_ids (node ∷ nodes) = node.id ∷ node_ids nodes

pub node_ids-Grows : (xs ys : List Node) → Grows xs ys → node_ids ys ≡ node_ids xs
node_ids-Grows [] [] g = refl
node_ids-Grows [] (b ∷ ys) g = absurd g
node_ids-Grows (a ∷ xs) [] g = absurd g
node_ids-Grows (a ∷ xs) (b ∷ ys) g = rw (g.0.same_id, node_ids-Grows xs ys g.1)

-- A loop that looks at the ID alone changes the node that the ID finds.
pub Changed-refine :
    (id : String) (more : Node → Bool) (change : Node → Node) {nodes nodes' : List Node}
    {found : Node}
    → (n : Node) → Changed (λ a. a.id == id) change nodes found nodes'
    → find_node id nodes ≡ some n
    → more n ≡ true
    → Changed (λ a. (a.id == id) && more a) change nodes found nodes'
unfolding find_node
Changed-refine id more change n (at node nodes t) e m =
    at node nodes (let same = some-injective _ _ (rw t at e) in rw (t, same) m)
Changed-refine id more change n (behind node found nodes nodes' t c) e m =
    behind node found nodes nodes' (rw t) (Changed-refine id more change n c (rw t at e) m)

pub All-of_map {ℓ} :
    (P : Node → Type ℓ) (f : Node → Node)
    → ((a : Node) → P (f a))
    → (nodes : List Node) → All P (map f nodes)
All-of_map P f h [] = tt
All-of_map P f h (a ∷ nodes) = (h a, All-of_map P f h nodes)
