-- ===== src/ExecutionTree/Depth.antt =====
-- How deep a node lies below the root, and why the walk ends.
use mathlib.Core.List.{Memᴰ}
use tirion_watch.Prelude.{
  ℕ, zero, suc, ◌+◌, ◌<◌, String, Option, some, List, [], ◌∷◌, ◌≡◌, ◌≢◌, inl, inr, refl, sym, ap,
  subst, ◌∙◌, map, true, false, not, length, All, includes, IsUnique, find, is_some, ◌===◌,
  text_comparable, eq_iff, Bool-cases, Option-cases, select, Memᴰ-select, select-Memᴰ, sort_by-Memᴰ,
  Memᴰ-sort_by, group_from-get, get_or, map_get, map-includes, Host, arith, IsUnique-length-le,
}
use tirion_watch.ExecutionTree.Model.{ExecutionNodeAtom, ExecutionTreeNode}
use tirion_watch.ExecutionTree.Merge.{compare_nodes}
use tirion_watch.ExecutionTree.{
  parent_of, child_order, children_of, find_node, walk_all, walk_found, walk,
}

abbrev pub ids : List ExecutionNodeAtom → List String
ids nodes = map (λ n. n.node_id) nodes

-- A tree in the making: no identity twice, and the root is there without a parent.
pub record IsHung (root : String) (nodes : List ExecutionNodeAtom) : Type 0 where
  pub unique : IsUnique (ids nodes)
  pub top : ExecutionNodeAtom
  pub top_in : Memᴰ top nodes
  pub top_id : top.node_id ≡ root
  pub top_parent : parent_of top ≡ ""

-- The chain of parents of a node has so many links and ends at the root.
pub data Depth (root : String) (nodes : List ExecutionNodeAtom) : ℕ → String → Type 0 where
  at_root : Depth root nodes 0 root
  below :
      {k : ℕ} (n : ExecutionNodeAtom)
      → Memᴰ n nodes
      → parent_of n ≢ ""
      → Depth root nodes k (parent_of n)
      → Depth root nodes (suc k) n.node_id

-- An identity names one node.
pub same_node :
    (nodes : List ExecutionNodeAtom) (a b : ExecutionNodeAtom)
    → IsUnique (ids nodes)
    → Memᴰ a nodes
    → Memᴰ b nodes
    → a.node_id ≡ b.node_id
    → a ≡ b
same_node [] a b u m n e = elim m [ ]
same_node (x ∷ xs) a b u (Memᴰ.head p) (Memᴰ.head q) e = p ∙ sym q
same_node (x ∷ xs) a b u (Memᴰ.head p) (Memᴰ.tail n) e =
    let held = map-includes (λ n. n.node_id) xs n in
    let same : b.node_id ≡ x.node_id = sym e ∙ ap (λ n. n.node_id) p in
    absurd (cc (u.0, held, same))
same_node (x ∷ xs) a b u (Memᴰ.tail m) (Memᴰ.head q) e =
    let held = map-includes (λ n. n.node_id) xs m in
    let same : a.node_id ≡ x.node_id = e ∙ ap (λ n. n.node_id) q in absurd (cc (u.0, held, same))
same_node (x ∷ xs) a b u (Memᴰ.tail m) (Memᴰ.tail n) e = same_node xs a b u.1 m n e

module _ {root : String} {nodes : List ExecutionNodeAtom} (h : IsHung root nodes) where
  -- The root lies below nothing.
  root_is_on_top : (n : ExecutionNodeAtom) → Memᴰ n nodes → parent_of n ≢ "" → n.node_id ≢ root
  root_is_on_top n m p e =
      let same = same_node nodes n h.top h.unique m h.top_in (e ∙ sym h.top_id) in
      p (ap parent_of same ∙ h.top_parent)

  -- A node lies at one depth.
  pub Depth-unique :
      {j k : ℕ} (a b : String) → a ≡ b → Depth root nodes j a → Depth root nodes k b → j ≡ k
  Depth-unique a b e at_root at_root = refl
  Depth-unique a b e at_root (below n m p d) = absurd (root_is_on_top n m p (sym e))
  Depth-unique a b e (below n m p d) at_root = absurd (root_is_on_top n m p e)
  Depth-unique a b e (below n m p d) (below n' m' p' d') =
      let same = same_node nodes n n' h.unique m m' e in
      ap suc (Depth-unique (parent_of n) (parent_of n') (ap parent_of same) d d')

module _ (host : Host) (nodes : List ExecutionNodeAtom) where
  -- The children of a node are the nodes with it as their parent.
  pub Memᴰ-children_of :
      (c : ExecutionNodeAtom) (id : String)
      → Memᴰ c (children_of host nodes id)
      → Memᴰ c nodes × (parent_of c ≢ "") × (parent_of c ≡ id)
  unfolding children_of child_order map_get
  Memᴰ-children_of c id m =
      let listed =
        Memᴰ-sort_by (compare_nodes host) (get_or (map_get id (child_order nodes)) []) m in
      let grouped =
        subst (Memᴰ c)
          (group_from-get parent_of id [] (select (λ n. not (parent_of n === "")) nodes)) listed in
      let (chosen, own) =
        Memᴰ-select (λ n. parent_of n === id) (select (λ n. not (parent_of n === "")) nodes)
          grouped in
      let (here, named) = Memᴰ-select (λ n. not (parent_of n === "")) nodes chosen in
      (
        here,
        (λ e. ground (arith, named, (eq_iff (parent_of c) "").1 e)),
        (eq_iff (parent_of c) id).0 own,
      )

  pub children_of-Memᴰ :
      (c : ExecutionNodeAtom)
      → Memᴰ c nodes
      → (parent_of c === "") ≡ false
      → Memᴰ c (children_of host nodes (parent_of c))
  unfolding children_of child_order map_get
  children_of-Memᴰ c m named =
      let chosen = select-Memᴰ (λ n. not (parent_of n === "")) nodes m (ground (arith, named)) in
      let grouped =
        select-Memᴰ (λ n. parent_of n === parent_of c)
          (select (λ n. not (parent_of n === "")) nodes) chosen
          ((eq_iff (parent_of c) (parent_of c)).1 refl) in
      sort_by-Memᴰ (compare_nodes host) (get_or (map_get (parent_of c) (child_order nodes)) []) (
        subst (Memᴰ c)
          (sym (
            group_from-get parent_of (parent_of c) []
              (select (λ n. not (parent_of n === "")) nodes)))
          grouped)

  walk_all-is_some :
      (visit : String → Option (List ExecutionTreeNode)) (ns : List ExecutionNodeAtom)
      → ((n : ExecutionNodeAtom) → Memᴰ n ns → is_some (visit n.node_id) ≡ true)
      → is_some (walk_all host nodes visit ns) ≡ true
  unfolding walk_all
  walk_all-is_some visit [] h = refl
  walk_all-is_some visit (n ∷ ns) h =
      ground (arith, h n (Memᴰ.head refl), walk_all-is_some visit ns (λ m q. h m (Memᴰ.tail q)))

  pub find_node-Memᴰ :
      (id : String) (n : ExecutionNodeAtom)
      → find_node host nodes id ≡ some n
      → Memᴰ n nodes × (n.node_id ≡ id)
  unfolding find_node
  find_node-Memᴰ id n h = found nodes h
    where
      found :
          (ns : List ExecutionNodeAtom)
          → find (λ m. m.node_id === id) ns ≡ some n
          → Memᴰ n ns × (n.node_id ≡ id)
      found [] h = ground arith
      found (m ∷ ms) h = elim (Bool-cases (m.node_id === id)) [
        | inl e ↦
            let same : some m ≡ some n = rw e at h in
            (Memᴰ.head (cc same), cc (same, (eq_iff m.node_id id).0 e))
        | inr e ↦ let (q, own) = found ms (rw e at h) in (Memᴰ.tail q, own)
      ]

  module _ {root : String} (hung : IsHung root nodes) where
    -- The identities that the walk has gone through lie above the present one.
    abbrev Above : ℕ → String → Type 0
    Above k a = (j : ℕ) × (j < k) × Depth root nodes j a

    trail_is_fresh :
        (k : ℕ) (id : String) (trail : List String)
        → Depth root nodes k id
        → All (Above k) trail
        → includes trail id ≡ false
    trail_is_fresh k id [] d t = refl
    trail_is_fresh k id (a ∷ trail) d t = elim (Bool-cases (a === id)) [
      | inl e ↦
          let (j, lower, deep) = t.0 in
          absurd (omega (arith, lower, Depth-unique hung a id ((eq_iff a id).0 e) deep d))
      | inr e ↦ ground (arith, e, trail_is_fresh k id trail d t.1)
    ]

    raise : (k : ℕ) (trail : List String) → All (Above k) trail → All (Above (suc k)) trail
    raise k [] t = tt
    raise k (a ∷ trail) t =
        let (j, lower, deep) = t.0 in ((j, omega (arith, lower), deep), raise k trail t.1)

    -- The walk goes no deeper than there are nodes.
    pub walk_returns :
        (fuel k : ℕ) (id : String) (trail : List String)
        → Depth root nodes k id
        → IsUnique trail
        → All (λ a. includes (ids nodes) a ≡ true) trail
        → All (Above k) trail
        → length (ids nodes) < fuel + length trail
        → is_some (walk host nodes fuel id) ≡ true
    unfolding walk walk_found
    walk_returns zero k id trail d u inside above enough =
        absurd (omega (arith, enough, IsUnique-length-le trail (ids nodes) u inside))
    walk_returns (suc fuel) k id trail d u inside above enough =
        elim (Option-cases (find_node host nodes id)) [
          | inl e ↦ rw e refl
          | inr (n, e) ↦
              let (n_in, own) = find_node-Memᴰ id n e in
              let held : includes (ids nodes) id ≡ true =
                subst (λ a. includes (ids nodes) a ≡ true) own
                  (map-includes (λ n. n.node_id) nodes n_in) in
              let rest =
                walk_all-is_some (walk host nodes fuel) (children_of host nodes n.node_id) (λ c m.
                  let (c_in, named, parent) = Memᴰ-children_of c n.node_id m in
                  walk_returns fuel (suc k) c.node_id (id ∷ trail)
                    (below c c_in named (subst (Depth root nodes k) (sym (parent ∙ own)) d))
                    (trail_is_fresh k id trail d above, u) (held, inside)
                    ((k, omega arith, d), raise k trail above) (omega (arith, enough))) in
              rw e (ground (arith, rest))
        ]
