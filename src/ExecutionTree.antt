-- ===== src/ExecutionTree.antt =====
-- packages/engine/src/executionTreeProjection.ts: the tree of a run. The walk stops with `none` when
-- it goes deeper than its fuel, which is the number of nodes and one.
pub mod Model
pub mod Merge
mod Depth
mod Reached
mod Projection
mod Tests
use Prim.Native.String
use mathlib.Core.List.{flat_map}
use Prim.Native.Char.{code}
use tirion_watch.Prelude.{
  slice_to, slice_from, ℕ, zero, suc, ◌+◌, ◌-◌, String, Option, none, some, List, [], ◌∷◌, ◌++◌,
  map, Bool, true, false, not, ◌&&◌, ◌||◌, if◌then◌else◌, ltb, leb, eqb, length, is_nil, head?, any,
  includes, select, find, get_or, is_some, or_else, ◌===◌, text_comparable, option_comparable,
  map_get, keys, values, index_from, group_from, sort_by, Host, units,
}
use tirion_watch.ExecutionTree.Model.{
  ExecutionContentVisibility, visible, disabled_at_source, not_captured, ExecutionNodeContent,
  ExecutionNodeAtom, ExecutionTreeNode, ProductionRun, ExecutionTreeSnapshot, TreeVisibility, full,
  some_visible, topology_only, ExecutionRunSummary,
}
use tirion_watch.ExecutionTree.Merge.{compare_nodes, merge_execution_nodes}

unfoldable pub preview_text : Option String → Option String
unfolding slice_to
preview_text value =
    let text = get_or value "" in
    if text === ""
    then none
    else if leb (length (units text)) 240
    then some text
    else some (String.◌++◌ (slice_to 237 text) "...")

abbrev pub query_of : ProductionRun → String
query_of run = get_or run.query_id run.correlation_id

prompt_visibility : ProductionRun → ExecutionContentVisibility
prompt_visibility run =
    if not (get_or run.prompt_text "" === "")
    then visible
    else if run.prompt_state === "disabled"
    then disabled_at_source
    else not_captured

prompt_content : ProductionRun → ExecutionNodeContent
unfolding prompt_visibility
prompt_content run = record {
  kind = "prompt_text";
  visibility = prompt_visibility run;
  text = run.prompt_text;
  preview = preview_text run.prompt_text;
}

unfoldable pub prompt_node_for : ProductionRun → ExecutionNodeAtom
unfolding slice_from prompt_content
prompt_node_for run = record {
  node_id = String.◌++◌ "node_prompt_" (slice_from 4 (query_of run));
  query_id = query_of run;
  session_id = run.session_id;
  repository_key = none;
  request_id = none;
  invocation_id = none;
  provider = run.provider;
  runtime = run.runtime;
  signal = none;
  node_kind = "prompt";
  name = "Prompt";
  parent_node_id = none;
  outcome = "success";
  outcome_authority = none;
  started_at = run.started_at;
  ended_at = none;
  duration_ms = none;
  model = none;
  usage_purpose = none;
  tool_name = none;
  artifact_keys = none;
  artifact_evidence = none;
  input_tokens = none;
  output_tokens = none;
  cache_read_input_tokens = none;
  cache_creation_input_tokens = none;
  reasoning_output_tokens = none;
  contents = some (prompt_content run ∷ []);
}

abbrev pub is_prompt : ExecutionNodeAtom → Bool
is_prompt node = node.node_kind === "prompt"

unfoldable pub with_prompt : ProductionRun → List ExecutionNodeAtom → List ExecutionNodeAtom
with_prompt run nodes = if any is_prompt nodes then nodes else prompt_node_for run ∷ nodes

-- `new Map(nodes.map((node) => [node.nodeId, { ...node }]))`
unfoldable pub keyed : List ExecutionNodeAtom → List (String × ExecutionNodeAtom)
keyed nodes = index_from (λ n. n.node_id) [] nodes

unfoldable pub root_of : Host → List ExecutionNodeAtom → Option ExecutionNodeAtom
root_of host nodes = or_else (find is_prompt nodes) (head? (sort_by (compare_nodes host) nodes))

-- The loop over the nodes: the root loses its parent, and a node whose parent is missing gets the root.
unfoldable pub hang_under : String → List String → ExecutionNodeAtom → ExecutionNodeAtom
hang_under root known node =
    if node.node_id === root
    then record node { parent_node_id = none }
    else if get_or node.parent_node_id "" === ""
        || not (includes known (get_or node.parent_node_id ""))
    then record node { parent_node_id = some root }
    else node

-- A node whose parent is the empty text is under no parent.
abbrev pub parent_of : ExecutionNodeAtom → String
parent_of node = get_or node.parent_node_id ""

unfoldable pub child_order : List ExecutionNodeAtom → List (String × List ExecutionNodeAtom)
child_order nodes = group_from parent_of [] (select (λ n. not (parent_of n === "")) nodes)

-- `childOrder.get(id) ?? []` behind the sort of each list.
unfoldable pub children_of : Host → List ExecutionNodeAtom → String → List ExecutionNodeAtom
children_of host nodes id =
    sort_by (compare_nodes host) (get_or (map_get id (child_order nodes)) [])

-- `Math.max(0, siblings.findIndex((item) => item.nodeId === id))`
abbrev index_of : String → List ExecutionNodeAtom → ℕ
index_of id [] = 0
index_of id (n ∷ ns) =
    if n.node_id === id
    then 0
    else if any (λ m. m.node_id === id) ns
    then suc (index_of id ns)
    else 0

module _ (host : Host) (nodes : List ExecutionNodeAtom) where
  unfoldable pub siblings_of : ExecutionNodeAtom → List ExecutionNodeAtom
  siblings_of node =
      if parent_of node === "" then node ∷ [] else children_of host nodes (parent_of node)

  unfoldable pub emitted : ExecutionNodeAtom → ExecutionTreeNode
  emitted node = record {
    atom = node;
    node_key = node.node_id;
    parent_node_key = node.parent_node_id;
    sibling_order = index_of node.node_id (siblings_of node);
  }

  unfoldable pub find_node : String → Option ExecutionNodeAtom
  find_node id = find (λ n. n.node_id === id) nodes

  abbrev pub append_both :
      Option (List ExecutionTreeNode)
      → Option (List ExecutionTreeNode)
      → Option (List ExecutionTreeNode)
  append_both (some first) (some second) = some (first ++ second)
  append_both (some first) none = none
  append_both none second = none

  -- The loop over the children; `visit` is the recursive call.
  unfoldable pub walk_all :
      (String → Option (List ExecutionTreeNode))
      → List ExecutionNodeAtom
      → Option (List ExecutionTreeNode)
  walk_all visit [] = some []
  walk_all visit (n ∷ ns) = append_both (visit n.node_id) (walk_all visit ns)

  unfoldable pub walk_found :
      (String → Option (List ExecutionTreeNode))
      → Option ExecutionNodeAtom
      → Option (List ExecutionTreeNode)
  walk_found visit none = some []
  walk_found visit (some node) =
      append_both (some (emitted node ∷ [])) (walk_all visit (children_of host nodes node.node_id))

  unfoldable pub walk : ℕ → String → Option (List ExecutionTreeNode)
  walk zero id = none
  walk (suc fuel) id = walk_found (walk fuel) (find_node id)

-- The nodes that the walk starts with, under the root.
unfoldable pub hung : String → List ExecutionNodeAtom → List ExecutionNodeAtom
hung root nodes = map (hang_under root (map (λ n. n.node_id) nodes)) nodes

unfoldable pub snapshot : ProductionRun → String → List ExecutionTreeNode → ExecutionTreeSnapshot
snapshot run root nodes = record {
  run_id = run.run_id;
  query_id = query_of run;
  session_id = run.session_id;
  provider = run.provider;
  runtime = run.runtime;
  prompt_started_at = run.started_at;
  run_ended_at = run.ended_at;
  root_node_key = root;
  nodes = nodes;
}

module _ (host : Host) where
  -- The nodes of the map, and the root among them: there is one, since the prompt is there.
  unfoldable pub project_from :
      ProductionRun
      → List ExecutionNodeAtom
      → Option ExecutionNodeAtom
      → Option ExecutionTreeSnapshot
  project_from run nodes none = none
  project_from run nodes (some root) =
      let tree = hung root.node_id nodes in
      elim (walk host tree (suc (length tree)) root.node_id) [
        | none ↦ none
        | some out ↦ some (snapshot run root.node_id out)
      ]

  unfoldable pub project_run_tree :
      ProductionRun → List ExecutionNodeAtom → Option ExecutionTreeSnapshot
  project_run_tree run nodes =
      let entries = values (keyed (with_prompt run nodes)) in
      project_from run entries (root_of host entries)

  -- The nodes of a run's query.
  unfoldable pub by_query : List ExecutionNodeAtom → List (String × List ExecutionNodeAtom)
  by_query nodes = group_from (λ n. n.query_id) [] (merge_execution_nodes host nodes)

  unfoldable pub project :
      List ProductionRun → List ExecutionNodeAtom → List (Option ExecutionTreeSnapshot)
  project runs nodes =
      map (λ run. project_run_tree run (get_or (map_get (query_of run) (by_query nodes)) [])) runs

unfoldable pub content_visibility_for : List ExecutionTreeNode → TreeVisibility
content_visibility_for nodes =
    let contents = flat_map (λ n. get_or n.atom.contents []) nodes in
    let shown = length (select (λ c. is_visible c.visibility) contents) in
    if is_nil contents || eqb shown 0
    then topology_only
    else if eqb shown (length contents)
    then full
    else some_visible
  where
    is_visible : ExecutionContentVisibility → Bool
    is_visible visible = true
    is_visible _ = false

unfoldable pub summary_of : ExecutionTreeSnapshot → ExecutionRunSummary
summary_of tree = record {
  run_id = tree.run_id;
  query_id = tree.query_id;
  session_id = tree.session_id;
  provider = tree.provider;
  runtime = tree.runtime;
  prompt_started_at = tree.prompt_started_at;
  run_ended_at = tree.run_ended_at;
  node_count = length tree.nodes;
  content_visibility = content_visibility_for tree.nodes;
}
