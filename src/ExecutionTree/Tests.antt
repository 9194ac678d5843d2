-- ===== src/ExecutionTree/Tests.antt =====
-- A prompt with a child, a grandchild, an orphan, and a node that is its own parent.
use mathlib.Core.List.{Memᴰ}
use Prim.Native.Nat.{Ordering}
use tirion_watch.Prelude.{
  ℕ, String, Option, none, some, List, [], ◌∷◌, ◌≡◌, ◌↔◌, refl, true, false, is_some, includes,
  Host, get_or, map_get, map_set, index_from, group_from, group_add, sort_by, insert_sorted, units,
  text_comparable,
}
use tirion_watch.ExecutionTree.Model.{ExecutionNodeAtom, ProductionRun, ExecutionTreeSnapshot}
use tirion_watch.ExecutionTree.Merge.{compare_nodes}
use tirion_watch.ExecutionTree.{
  with_prompt, prompt_node_for, preview_text, keyed, root_of, hang_under, hung, child_order,
  children_of, siblings_of, emitted, find_node, walk_all, walk_found, walk, snapshot, project_from,
  project_run_tree,
}
use tirion_watch.ExecutionTree.Depth.{Depth}
use tirion_watch.ExecutionTree.Reached.{shown}
use tirion_watch.ExecutionTree.Projection.{
  entries, project_run_tree_returns, shown_exactly_when_rooted, own_parent_is_not_shown,
}

abbrev host : Host
host = record { get_time = λ text. none; locale_compare = λ a b. Ordering.eq }

abbrev node : String → String → Option String → ExecutionNodeAtom
node id kind parent = record {
  node_id = id;
  query_id = "q1";
  session_id = none;
  repository_key = none;
  request_id = none;
  invocation_id = none;
  provider = "p";
  runtime = "r";
  signal = none;
  node_kind = kind;
  name = id;
  parent_node_id = parent;
  outcome = "success";
  outcome_authority = none;
  started_at = "t";
  ended_at = none;
  duration_ms = none;
  model = none;
  usage_purpose = none;
  tool_name = none;
  artifact_keys = none;
  artifact_evidence = none;
  input_tokens = none;
  output_tokens = none;
  cache_read_input_tokens = none;
  cache_creation_input_tokens = none;
  reasoning_output_tokens = none;
  contents = none;
}

abbrev run : ProductionRun
run = record {
  run_id = "run1";
  query_id = some "q1";
  correlation_id = "c1";
  session_id = none;
  provider = "p";
  runtime = "r";
  started_at = "t";
  ended_at = none;
  prompt_text = none;
  prompt_state = "unavailable";
}

abbrev nodes : List ExecutionNodeAtom
nodes =
    node "a" "prompt" none
    ∷ node "b" "tool" (some "a")
    ∷ node "c" "tool" (some "b")
    ∷ node "d" "tool" (some "missing")
    ∷ node "e" "tool" (some "e")
    ∷ []

program : Unit {0}
unfolding compare_nodes with_prompt prompt_node_for preview_text keyed root_of hang_under hung
    child_order children_of siblings_of emitted find_node walk_all walk_found walk snapshot
    project_from project_run_tree map_get map_set index_from group_from group_add sort_by
    insert_sorted units
program = tt

empty_snapshot : ExecutionTreeSnapshot
unfolding snapshot
empty_snapshot = snapshot run "" []

abbrev tree : ExecutionTreeSnapshot
unfolding program empty_snapshot
tree = get_or (project_run_tree host run nodes) empty_snapshot

tree_of_run : project_run_tree host run nodes ≡ some tree
unfolding program empty_snapshot tree
tree_of_run = refl

-- The orphan hangs under the prompt, and the node that is its own parent is lost.
shown_nodes : shown tree.nodes ≡ "a" ∷ "b" ∷ "c" ∷ "d" ∷ []
unfolding program empty_snapshot tree
shown_nodes = refl

project_run_tree_returns_example : is_some (project_run_tree host run nodes) ≡ true
project_run_tree_returns_example = project_run_tree_returns host run nodes

shown_exactly_when_rooted_example :
    (includes (shown tree.nodes) "c" ≡ true)
    ↔ ((k : ℕ) × Depth tree.root_node_key (hung tree.root_node_key (entries run nodes)) k "c")
shown_exactly_when_rooted_example = shown_exactly_when_rooted host run nodes tree "c" tree_of_run

own_parent_is_not_shown_example : includes (shown tree.nodes) "e" ≡ false
unfolding program empty_snapshot tree
own_parent_is_not_shown_example =
    own_parent_is_not_shown host run nodes tree (node "e" "tool" (some "e")) tree_of_run
      (Memᴰ.tail (Memᴰ.tail (Memᴰ.tail (Memᴰ.tail (Memᴰ.head refl))))) refl (λ e. absurd (cc e))
