-- ===== src/ExecutionTree/Projection.antt =====
-- The projection of a run: it ends, and shows exactly the nodes whose parents lead to the root.
use mathlib.Core.List.{Memᴰ}
use tirion_watch.Prelude.{
  ℕ, zero, suc, String, none, some, List, [], ◌∷◌, ◌≡◌, ◌≢◌, ◌↔◌, inl, inr, refl, sym, ap, subst,
  ◌∙◌, map, true, false, not, ◌&&◌, if_ind, length, All, includes, IsUnique, find, head?, is_nil,
  is_some, ◌===◌, text_comparable, Bool-cases, Option-cases, map_set, keys, values, index_from,
  index_from-IsUnique, sort_by, Memᴰ-sort_by, is_nil-sort_by, Host, arith, eq_iff, find-Memᴰ,
  head-Memᴰ,
}
use tirion_watch.ExecutionTree.Model.{ExecutionNodeAtom, ProductionRun, ExecutionTreeSnapshot}
use tirion_watch.ExecutionTree.Merge.{compare_nodes}
use tirion_watch.ExecutionTree.{
  is_prompt, with_prompt, keyed, root_of, hang_under, hung, parent_of, find_node, walk, snapshot,
  project_from, project_run_tree,
}
use tirion_watch.ExecutionTree.Depth.{
  ids, IsHung, Depth, at_root, below, Depth-unique, same_node, find_node-Memᴰ, walk_returns,
}
use tirion_watch.ExecutionTree.Reached.{shown, walk-Rooted, walk-start, walk-closed}

abbrev Keyed : List (String × ExecutionNodeAtom) → Type 0
Keyed m = All (λ e. e.0 ≡ e.1.node_id) m

map_set-Keyed :
    (n : ExecutionNodeAtom) (m : List (String × ExecutionNodeAtom))
    → Keyed m
    → Keyed (map_set n.node_id n m)
unfolding map_set
map_set-Keyed n [] h = (refl, tt)
map_set-Keyed n ((j, w) ∷ m) h =
    if_ind Keyed (j === n.node_id) (λ e. ((eq_iff j n.node_id).0 e, h.1))
      (λ e. (h.0, map_set-Keyed n m h.1))

index_from-Keyed :
    (m : List (String × ExecutionNodeAtom)) (ns : List ExecutionNodeAtom)
    → Keyed m
    → Keyed (index_from (λ n. n.node_id) m ns)
unfolding index_from
index_from-Keyed m [] h = h
index_from-Keyed m (n ∷ ns) h = index_from-Keyed (map_set n.node_id n m) ns (map_set-Keyed n m h)

ids-values : (m : List (String × ExecutionNodeAtom)) → Keyed m → ids (values m) ≡ keys m
ids-values [] h = refl
ids-values ((j, w) ∷ m) h = cc (h.0, ids-values m h.1)

-- The nodes of the map of a run, no identity twice.
abbrev pub entries : ProductionRun → List ExecutionNodeAtom → List ExecutionNodeAtom
entries run nodes = values (keyed (with_prompt run nodes))

entries-IsUnique :
    (run : ProductionRun) (nodes : List ExecutionNodeAtom) → IsUnique (ids (entries run nodes))
unfolding keyed
entries-IsUnique run nodes =
    subst IsUnique
      (sym (
        ids-values (keyed (with_prompt run nodes))
          (index_from-Keyed [] (with_prompt run nodes) tt)))
      (index_from-IsUnique (λ n. n.node_id) [] (with_prompt run nodes) tt)

hang_under-id :
    (root : String) (known : List String) (n : ExecutionNodeAtom)
    → (hang_under root known n).node_id ≡ n.node_id
unfolding hang_under
hang_under-id root known n = ground arith

ids-hang_under :
    (root : String) (known : List String) (ns : List ExecutionNodeAtom)
    → ids (map (hang_under root known) ns) ≡ ids ns
ids-hang_under root known [] = refl
ids-hang_under root known (n ∷ ns) = cc (hang_under-id root known n, ids-hang_under root known ns)

Memᴰ-map :
    (f : ExecutionNodeAtom → ExecutionNodeAtom) (n : ExecutionNodeAtom)
    (ns : List ExecutionNodeAtom)
    → Memᴰ n ns
    → Memᴰ (f n) (map f ns)
Memᴰ-map f n [] m = elim m [ ]
Memᴰ-map f n (x ∷ xs) (Memᴰ.head e) = Memᴰ.head (ap f e)
Memᴰ-map f n (x ∷ xs) (Memᴰ.tail m) = Memᴰ.tail (Memᴰ-map f n xs m)

hung_root :
    (known : List String) (r : ExecutionNodeAtom) → parent_of (hang_under r.node_id known r) ≡ ""
unfolding hang_under
hung_root known r = ground (arith, eq_iff r.node_id r.node_id)

hung-IsHung :
    (nodes : List ExecutionNodeAtom) (r : ExecutionNodeAtom)
    → IsUnique (ids nodes)
    → Memᴰ r nodes
    → IsHung r.node_id (hung r.node_id nodes)
unfolding hung
hung-IsHung nodes r u m =
    let known = ids nodes in
    record {
      unique = subst IsUnique (sym (ids-hang_under r.node_id known nodes)) u;
      top = hang_under r.node_id known r;
      top_in = Memᴰ-map (hang_under r.node_id known) r nodes m;
      top_id = hang_under-id r.node_id known r;
      top_parent = hung_root known r;
    }

root_of-Memᴰ :
    (host : Host) (nodes : List ExecutionNodeAtom) (r : ExecutionNodeAtom)
    → root_of host nodes ≡ some r
    → Memᴰ r nodes
unfolding root_of
root_of-Memᴰ host nodes r e = elim (Option-cases (find is_prompt nodes)) [
  | inl missing ↦
      Memᴰ-sort_by (compare_nodes host) nodes
        (head-Memᴰ (sort_by (compare_nodes host) nodes) r (rw missing at e))
  | inr (n, found) ↦ find-Memᴰ is_prompt nodes r (found ∙ rw found at e)
]

module _ (host : Host) where
  root_of-is_some :
      (nodes : List ExecutionNodeAtom) → is_nil nodes ≡ false → is_some (root_of host nodes) ≡ true
  unfolding root_of
  root_of-is_some nodes h = ground (
    arith,
    is_nil-sort_by (compare_nodes host) nodes,
    head_of (sort_by (compare_nodes host) nodes),
  )
    where
      head_of : (xs : List ExecutionNodeAtom) → is_some (head? xs) ≡ not (is_nil xs)
      head_of [] = refl
      head_of (x ∷ xs) = refl

is_nil-map_set :
    (k : String) (n : ExecutionNodeAtom) (m : List (String × ExecutionNodeAtom))
    → is_nil (values (map_set k n m)) ≡ false
unfolding map_set
is_nil-map_set k n [] = refl
is_nil-map_set k n ((j, w) ∷ m) = ground arith

is_nil-index_from :
    (m : List (String × ExecutionNodeAtom)) (ns : List ExecutionNodeAtom)
    → (is_nil (values m) && is_nil ns) ≡ false
    → is_nil (values (index_from (λ n. n.node_id) m ns)) ≡ false
unfolding index_from
is_nil-index_from m [] h = ground (arith, h)
is_nil-index_from m (n ∷ ns) h =
    is_nil-index_from (map_set n.node_id n m) ns (ground (arith, is_nil-map_set n.node_id n m))

with_prompt-is_nil :
    (run : ProductionRun) (nodes : List ExecutionNodeAtom) → is_nil (with_prompt run nodes) ≡ false
unfolding with_prompt
with_prompt-is_nil run [] = refl
with_prompt-is_nil run (n ∷ ns) = ground arith

entries-is_nil :
    (run : ProductionRun) (nodes : List ExecutionNodeAtom) → is_nil (entries run nodes) ≡ false
unfolding keyed
entries-is_nil run nodes =
    is_nil-index_from [] (with_prompt run nodes) (with_prompt-is_nil run nodes)

find_node-none :
    (host : Host) (ns : List ExecutionNodeAtom) (c : ExecutionNodeAtom)
    → Memᴰ c ns
    → ¬ (find_node host ns c.node_id ≡ none)
unfolding find_node
find_node-none host [] c m e = elim m [ ]
find_node-none host (x ∷ xs) c (Memᴰ.head q) e =
    let same : x.node_id ≡ c.node_id = sym (ap (λ n. n.node_id) q) in
    ground (arith, e, (eq_iff x.node_id c.node_id).1 same)
find_node-none host (x ∷ xs) c (Memᴰ.tail m) e = ground (arith, e, find_node-none host xs c m)

named_parent : (p : String) → p ≢ "" → (p === "") ≡ false
named_parent p h = elim (Bool-cases (p === "")) [
  | inl e ↦ absurd (h ((eq_iff p "").0 e))
  | inr e ↦ e
]

module _ (host : Host) (run : ProductionRun) (nodes : List ExecutionNodeAtom) where
  root-cases :
      (r : ExecutionNodeAtom) × (root_of host (entries run nodes) ≡ some r)
      × IsHung r.node_id (hung r.node_id (entries run nodes))
  root-cases = elim (Option-cases (root_of host (entries run nodes))) [
    | inl missing ↦ absurd (
        ground
          (arith, root_of-is_some host (entries run nodes) (entries-is_nil run nodes), missing))
    | inr (r, e) ↦ (
      r,
      e,
      hung-IsHung (entries run nodes) r (entries-IsUnique run nodes)
          (root_of-Memᴰ host (entries run nodes) r e),
    )
  ]

  -- The projection of a run ends, whatever parents the nodes name, cycles included: the recursion is
  -- never deeper than there are nodes.
  pub project_run_tree_returns : is_some (project_run_tree host run nodes) ≡ true
  unfolding project_run_tree project_from
  project_run_tree_returns =
      let (r, e, h) = root-cases in
      let tree = hung r.node_id (entries run nodes) in
      let ends =
        walk_returns host tree h (suc (length tree)) 0 r.node_id [] at_root tt tt tt
          (omega (arith, length-ids tree)) in
      rw e (ground (arith, ends))
    where
      length-ids : (ns : List ExecutionNodeAtom) → length (ids ns) ≡ length ns
      length-ids [] = refl
      length-ids (n ∷ ns) = ap suc (length-ids ns)

  -- The run, the root and the walk behind a snapshot.
  projected :
      (tree : ExecutionTreeSnapshot)
      → project_run_tree host run nodes ≡ some tree
      → IsHung tree.root_node_key (hung tree.root_node_key (entries run nodes))
        × ((fuel : ℕ) × (walk host
                (hung tree.root_node_key (entries run nodes))
                fuel
                tree.root_node_key
              ≡ some tree.nodes))
  unfolding project_run_tree project_from snapshot
  projected tree e =
      let (r, re, h) = root-cases in
      let at_r = rw re at e in
      elim (Option-cases (
        walk host (hung r.node_id (entries run nodes))
          (suc (length (hung r.node_id (entries run nodes)))) r.node_id)) [
            | inl stuck ↦ ground (arith, at_r, stuck)
            | inr (out, walked) ↦
                let same : some (snapshot run r.node_id out) ≡ some tree =
                  rw (project_from, walked) at at_r in
                let key : r.node_id ≡ tree.root_node_key = cc same in
                let listed : out ≡ tree.nodes = cc same in
                (
                  subst (λ k. IsHung k (hung k (entries run nodes))) key h,
                  (
                    suc (length (hung r.node_id (entries run nodes))),
                    rw (← listed) (
                        subst
                          (λ k.
                            walk host (hung k (entries run nodes))
                              (suc (length (hung r.node_id (entries run nodes)))) k
                            ≡ some out)
                          key walked),
                  ),
                )
          ]

  find_node-own :
      (root : String) (ns : List ExecutionNodeAtom) (c : ExecutionNodeAtom)
      → IsHung root ns
      → Memᴰ c ns
      → find_node host ns c.node_id ≡ some c
  find_node-own root ns c h m = elim (Option-cases (find_node host ns c.node_id)) [
    | inl missing ↦ absurd (find_node-none host ns c m missing)
    | inr (n, e) ↦
        let (n_in, own) = find_node-Memᴰ host ns c.node_id n e in
        e ∙ ap some (same_node ns n c h.unique n_in m own)
  ]

  -- A node is shown exactly when its chain of parents, with missing parents replaced by the root,
  -- leads to the root.
  pub shown_exactly_when_rooted :
      (tree : ExecutionTreeSnapshot) (id : String)
      → project_run_tree host run nodes ≡ some tree
      → (includes (shown tree.nodes) id ≡ true)
        ↔ ((k : ℕ) × Depth tree.root_node_key (hung tree.root_node_key (entries run nodes)) k id)
  shown_exactly_when_rooted tree id e =
      let (h, (fuel, walked)) = projected tree e in
      let tree_nodes = hung tree.root_node_key (entries run nodes) in
      (
        walk-Rooted host tree_nodes tree.root_node_key fuel 0 tree.root_node_key tree.nodes at_root
            walked id,
        (λ d. rooted-shown tree h fuel walked d.0 id d.1),
      )
    where
      rooted-shown :
          (tree : ExecutionTreeSnapshot)
          → IsHung tree.root_node_key (hung tree.root_node_key (entries run nodes))
          → (fuel : ℕ)
          → walk host (hung tree.root_node_key (entries run nodes)) fuel tree.root_node_key
            ≡ some tree.nodes
          → (k : ℕ) (x : String)
          → Depth tree.root_node_key (hung tree.root_node_key (entries run nodes)) k x
          → includes (shown tree.nodes) x ≡ true
      rooted-shown tree h fuel walked zero x at_root =
          let tree_nodes = hung tree.root_node_key (entries run nodes) in
          let found = find_node-own tree.root_node_key tree_nodes h.top h h.top_in in
          subst (λ a. includes (shown tree.nodes) a ≡ true) h.top_id
            (walk-start host tree_nodes fuel h.top tree.nodes found
              (subst (λ a. walk host tree_nodes fuel a ≡ some tree.nodes) (sym h.top_id) walked))
      rooted-shown tree h fuel walked (suc k) x (below n m p d) =
          let tree_nodes = hung tree.root_node_key (entries run nodes) in
          walk-closed host tree_nodes fuel tree.root_node_key tree.nodes n m
            (find_node-own tree.root_node_key tree_nodes n h m) (named_parent (parent_of n) p)
            walked (rooted-shown tree h fuel walked k (parent_of n) d)

  -- A node that names itself as its parent is not shown.
  pub own_parent_is_not_shown :
      (tree : ExecutionTreeSnapshot) (n : ExecutionNodeAtom)
      → project_run_tree host run nodes ≡ some tree
      → Memᴰ n (hung tree.root_node_key (entries run nodes))
      → parent_of n ≡ n.node_id
      → n.node_id ≢ ""
      → includes (shown tree.nodes) n.node_id ≡ false
  own_parent_is_not_shown tree n e m own named =
      elim (Bool-cases (includes (shown tree.nodes) n.node_id)) [
        | inr absent ↦ absent
        | inl yes_shown ↦
            let (h, _) = projected tree e in
            let (k, d) = (shown_exactly_when_rooted tree n.node_id e).0 yes_shown in
            let deeper =
              below n m (λ q. named (sym own ∙ q))
                (subst (Depth tree.root_node_key (hung tree.root_node_key (entries run nodes)) k)
                  (sym own) d) in
            absurd (omega (arith, Depth-unique h n.node_id n.node_id refl d deeper))
      ]
