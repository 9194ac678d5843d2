-- ===== src/ExecutionTree/Reached.antt =====
-- Which nodes the walk reaches, and that the projection of a run ends.
use mathlib.Core.List.{Memᴰ}
use tirion_watch.Prelude.{
  ℕ, zero, suc, String, Option, none, some, List, [], ◌∷◌, ◌++◌, ◌≡◌, inl, inr, refl, sym, ap,
  subst, ◌∙◌, map, true, false, ◌||◌, includes, ◌===◌, text_comparable, Bool-cases, Option-cases,
  Host, arith, eq_iff,
}
use tirion_watch.ExecutionTree.Model.{ExecutionNodeAtom, ExecutionTreeNode}
use tirion_watch.ExecutionTree.{
  parent_of, children_of, find_node, append_both, walk_all, walk_found, walk, emitted,
}
use tirion_watch.ExecutionTree.Depth.{
  Depth, below, Memᴰ-children_of, children_of-Memᴰ, find_node-Memᴰ,
}

abbrev pub shown : List ExecutionTreeNode → List String
shown out = map (λ n. n.node_key) out

shown-append :
    (a b : List ExecutionTreeNode) (x : String)
    → includes (shown (a ++ b)) x ≡ (includes (shown a) x || includes (shown b) x)
shown-append [] b x = refl
shown-append (n ∷ a) b x = ground (arith, shown-append a b x)

module _ (host : Host) (nodes : List ExecutionNodeAtom) where
  append_both-some :
      (a b : Option (List ExecutionTreeNode)) (out : List ExecutionTreeNode)
      → append_both host nodes a b ≡ some out
      → (first : List ExecutionTreeNode) × (second : List ExecutionTreeNode) × (a ≡ some first)
        × (b ≡ some second)
        × (out ≡ first ++ second)
  append_both-some (some first) (some second) out e = (first, second, refl, refl, cc e)
  append_both-some (some first) none out e = ground arith
  append_both-some none b out e = ground arith

  module _ (root : String) where
    abbrev Rooted : String → Type 0
    Rooted x = (k : ℕ) × Depth root nodes k x

    walk_all-Rooted :
        (visit : String → Option (List ExecutionTreeNode)) (ns : List ExecutionNodeAtom)
        → ((c : ExecutionNodeAtom) (out : List ExecutionTreeNode)
            → Memᴰ c ns
            → visit c.node_id ≡ some out
            → (x : String) → includes (shown out) x ≡ true
            → Rooted x)
        → (out : List ExecutionTreeNode) → walk_all host nodes visit ns ≡ some out
        → (x : String) → includes (shown out) x ≡ true
        → Rooted x
    unfolding walk_all
    walk_all-Rooted visit [] h out e x i = ground (arith, e, i)
    walk_all-Rooted visit (c ∷ cs) h out e x i =
        let (first, second, ea, eb, eo) =
          append_both-some (visit c.node_id) (walk_all host nodes visit cs) out e in
        elim (Bool-cases (includes (shown first) x)) [
          | inl yes_first ↦ h c first (Memᴰ.head refl) ea x yes_first
          | inr no_first ↦
              walk_all-Rooted visit cs (λ d o m. h d o (Memᴰ.tail m)) second eb x
                (ground (arith, shown-append first second x, eo, i, no_first))
        ]

    -- What the walk shows hangs under the root.
    pub walk-Rooted :
        (fuel k : ℕ) (id : String) (out : List ExecutionTreeNode)
        → Depth root nodes k id
        → walk host nodes fuel id ≡ some out
        → (x : String) → includes (shown out) x ≡ true
        → Rooted x
    unfolding walk walk_found emitted
    walk-Rooted zero k id out d e x i = ground (arith, e)
    walk-Rooted (suc fuel) k id out d e x i = elim (Option-cases (find_node host nodes id)) [
      | inl missing ↦
          let nothing : some [] ≡ some out = rw missing at e in ground (arith, nothing, i)
      | inr (n, found) ↦
          let (n_in, own) = find_node-Memᴰ host nodes id n found in
          let step = rw found at e in
          let (first, second, ea, eb, eo) =
            append_both-some (some (emitted host nodes n ∷ []))
              (walk_all host nodes (walk host nodes fuel) (children_of host nodes n.node_id)) out
              step in
          elim (Bool-cases (n.node_id === x)) [
            | inl same ↦ (k, subst (Depth root nodes k) (sym own ∙ (eq_iff n.node_id x).0 same) d)
            | inr other ↦
                walk_all-Rooted (walk host nodes fuel) (children_of host nodes n.node_id)
                  (λ c o m visited y j.
                    let (c_in, named, parent) = Memᴰ-children_of host nodes c n.node_id m in
                    walk-Rooted fuel (suc k) c.node_id o
                      (below c c_in named (subst (Depth root nodes k) (sym (parent ∙ own)) d))
                      visited y j)
                  second eb x (ground (arith, shown-append first second x, ea, eo, i, other))
          ]
    ]

  -- The first node that the walk shows is the one that it is sent to.
  pub walk-start :
      (fuel : ℕ) (c : ExecutionNodeAtom) (out : List ExecutionTreeNode)
      → find_node host nodes c.node_id ≡ some c
      → walk host nodes fuel c.node_id ≡ some out
      → includes (shown out) c.node_id ≡ true
  unfolding walk walk_found emitted
  walk-start zero c out f e = ground (arith, e)
  walk-start (suc fuel) c out f e =
      let (first, second, ea, eb, eo) =
        append_both-some (some (emitted host nodes c ∷ []))
          (walk_all host nodes (walk host nodes fuel) (children_of host nodes c.node_id)) out
          (rw f at e) in
      ground
        (arith, shown-append first second c.node_id, ea, eo, (eq_iff c.node_id c.node_id).1 refl)

  walk_all-shows :
      (visit : String → Option (List ExecutionTreeNode)) (ns : List ExecutionNodeAtom)
      (out : List ExecutionTreeNode) (c : ExecutionNodeAtom) (x : String)
      → Memᴰ c ns
      → walk_all host nodes visit ns ≡ some out
      → ((o : List ExecutionTreeNode) → visit c.node_id ≡ some o → includes (shown o) x ≡ true)
      → includes (shown out) x ≡ true
  unfolding walk_all
  walk_all-shows visit [] out c x m e h = elim m [ ]
  walk_all-shows visit (n ∷ ns) out c x (Memᴰ.head q) e h =
      let (first, second, ea, eb, eo) =
        append_both-some (visit n.node_id) (walk_all host nodes visit ns) out e in
      ground (arith, shown-append first second x, eo, h first (ap (λ a. visit a.node_id) q ∙ ea))
  walk_all-shows visit (n ∷ ns) out c x (Memᴰ.tail m) e h =
      let (first, second, ea, eb, eo) =
        append_both-some (visit n.node_id) (walk_all host nodes visit ns) out e in
      ground (arith, shown-append first second x, eo, walk_all-shows visit ns second c x m eb h)

  -- One of the children among whose subtrees an identity is shown.
  walk_all-where :
      (visit : String → Option (List ExecutionTreeNode)) (ns : List ExecutionNodeAtom)
      (out : List ExecutionTreeNode) (x : String)
      → walk_all host nodes visit ns ≡ some out
      → includes (shown out) x ≡ true
      → (c : ExecutionNodeAtom) × Memᴰ c ns
        × ((o : List ExecutionTreeNode) × (visit c.node_id ≡ some o)
            × (includes (shown o) x ≡ true))
  unfolding walk_all
  walk_all-where visit [] out x e i = ground (arith, e, i)
  walk_all-where visit (n ∷ ns) out x e i =
      let (first, second, ea, eb, eo) =
        append_both-some (visit n.node_id) (walk_all host nodes visit ns) out e in
      elim (Bool-cases (includes (shown first) x)) [
        | inl yes_first ↦ (n, Memᴰ.head refl, (first, ea, yes_first))
        | inr no_first ↦
            let (c, m, o) =
              walk_all-where visit ns second x eb
                (ground (arith, shown-append first second x, eo, i, no_first)) in
            (c, Memᴰ.tail m, o)
      ]

  -- With a node the walk shows its children.
  pub walk-closed :
      (fuel : ℕ) (id : String) (out : List ExecutionTreeNode) (c : ExecutionNodeAtom)
      → Memᴰ c nodes
      → find_node host nodes c.node_id ≡ some c
      → (parent_of c === "") ≡ false
      → walk host nodes fuel id ≡ some out
      → includes (shown out) (parent_of c) ≡ true
      → includes (shown out) c.node_id ≡ true
  unfolding walk walk_found emitted
  walk-closed zero id out c m f named e i = ground (arith, e)
  walk-closed (suc fuel) id out c m f named e i = elim (Option-cases (find_node host nodes id)) [
    | inl missing ↦ let nothing : some [] ≡ some out = rw missing at e in ground (arith, nothing, i)
    | inr (n, found) ↦
        let visit = walk host nodes fuel in
        let children = children_of host nodes n.node_id in
        let (first, second, ea, eb, eo) =
          append_both-some (some (emitted host nodes n ∷ [])) (walk_all host nodes visit children)
            out (rw found at e) in
        let deeper =
          elim (Bool-cases (n.node_id === parent_of c))
            as (λ _. includes (shown second) c.node_id ≡ true) [
              | inl same ↦
                  let child =
                    subst (λ p. Memᴰ c (children_of host nodes p))
                      (sym ((eq_iff n.node_id (parent_of c)).0 same))
                      (children_of-Memᴰ host nodes c m named) in
                  walk_all-shows visit children second c c.node_id child eb
                    (λ o v. walk-start fuel c o f v)
              | inr other ↦
                  let (d, d_in, (o, v, j)) =
                    walk_all-where visit children second (parent_of c) eb
                      (ground (arith, shown-append first second (parent_of c), ea, eo, i, other)) in
                  walk_all-shows visit children second d c.node_id d_in eb (λ p w.
                    let same_out : some o ≡ some p = sym v ∙ w in
                    walk-closed fuel d.node_id p c m f named w (ground (arith, j, same_out)))
            ] in
        ground (arith, shown-append first second c.node_id, eo, deeper)
  ]
