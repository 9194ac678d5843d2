-- ===== src/ExecutionTree/Merge.antt =====
-- packages/engine/src/executionTreeProjection.ts: several reports of one node become one node. An
-- optional field that a report lacks is absent, so a spread leaves the earlier value.
use tirion_watch.Prelude.{
  ℕ, String, Option, none, some, List, [], ◌∷◌, ◌++◌, Bool, not, ◌||◌, if◌then◌else◌, leb, eqb,
  is_nil, get_or, or_else, ◌===◌, text_comparable, str_leb, map_get, map_set, values, sort_by,
  then_by, at_most, Host,
}
use tirion_watch.ExecutionTree.Model.{
  ExecutionContentVisibility, visible, redacted, hidden_by_policy, disabled_at_source, not_captured,
  ExecutionNodeContent, ExecutionNodeAtom,
}

unfoldable pub latest_timestamp : Option String → Option String → Option String
latest_timestamp left right =
    if get_or left "" === ""
    then right
    else if get_or right "" === ""
    then left
    else if str_leb (get_or right "") (get_or left "")
    then left
    else right

-- `Math.max(left ?? 0, right ?? 0) || undefined`
longest : Option ℕ → Option ℕ → Option ℕ
longest left right =
    let duration = if leb (get_or left 0) (get_or right 0) then get_or right 0 else get_or left 0 in
    if eqb duration 0 then none else some duration

abbrev rank : ExecutionContentVisibility → ℕ
rank visible = 4
rank redacted = 3
rank hidden_by_policy = 2
rank disabled_at_source = 1
rank not_captured = 0

is_empty : Option String → Bool
is_empty text = get_or text "" === ""

unfoldable pub prefer_content : ExecutionNodeContent → ExecutionNodeContent → ExecutionNodeContent
unfolding is_empty
prefer_content existing incoming =
    if leb (rank existing.visibility) (rank incoming.visibility)
    then (if not (is_empty incoming.text) || not (is_empty incoming.preview)
        then incoming
        else record incoming {
          text = existing.text;
          preview = or_else incoming.preview existing.preview;
        })
    else existing

-- The content that the map keeps under a kind.
preferred : Option ExecutionNodeContent → ExecutionNodeContent → ExecutionNodeContent
preferred none content = content
preferred (some previous) content = prefer_content previous content

unfoldable pub add_content :
    List (String × ExecutionNodeContent)
    → List ExecutionNodeContent
    → List (String × ExecutionNodeContent)
unfolding preferred
add_content merged [] = merged
add_content merged (c ∷ cs) =
    add_content (map_set c.kind (preferred (map_get c.kind merged) c) merged) cs

unfoldable pub merge_contents :
    Option (List ExecutionNodeContent)
    → Option (List ExecutionNodeContent)
    → Option (List ExecutionNodeContent)
merge_contents existing incoming =
    let merged = values (add_content [] (get_or existing [] ++ get_or incoming [])) in
    if is_nil merged then none else some merged

unfoldable pub merge_execution_node : ExecutionNodeAtom → ExecutionNodeAtom → ExecutionNodeAtom
unfolding longest
merge_execution_node existing incoming = record {
  node_id = incoming.node_id;
  query_id = incoming.query_id;
  session_id = or_else incoming.session_id existing.session_id;
  repository_key = or_else incoming.repository_key existing.repository_key;
  request_id = or_else incoming.request_id existing.request_id;
  invocation_id = or_else incoming.invocation_id existing.invocation_id;
  provider = incoming.provider;
  runtime = incoming.runtime;
  signal = or_else incoming.signal existing.signal;
  node_kind = incoming.node_kind;
  name = incoming.name;
  parent_node_id = or_else incoming.parent_node_id existing.parent_node_id;
  outcome = incoming.outcome;
  outcome_authority = or_else incoming.outcome_authority existing.outcome_authority;
  started_at = incoming.started_at;
  ended_at = latest_timestamp existing.ended_at incoming.ended_at;
  duration_ms = longest existing.duration_ms incoming.duration_ms;
  model = or_else incoming.model existing.model;
  usage_purpose = or_else incoming.usage_purpose existing.usage_purpose;
  tool_name = or_else incoming.tool_name existing.tool_name;
  artifact_keys = or_else incoming.artifact_keys existing.artifact_keys;
  artifact_evidence = or_else incoming.artifact_evidence existing.artifact_evidence;
  input_tokens = or_else incoming.input_tokens existing.input_tokens;
  output_tokens = or_else incoming.output_tokens existing.output_tokens;
  cache_read_input_tokens =
      or_else incoming.cache_read_input_tokens existing.cache_read_input_tokens;
  cache_creation_input_tokens =
      or_else incoming.cache_creation_input_tokens existing.cache_creation_input_tokens;
  reasoning_output_tokens =
      or_else incoming.reasoning_output_tokens existing.reasoning_output_tokens;
  contents = merge_contents existing.contents incoming.contents;
}

-- What the map keeps under an identity.
abbrev merged_with : Option ExecutionNodeAtom → ExecutionNodeAtom → ExecutionNodeAtom
merged_with none node = node
merged_with (some existing) node = merge_execution_node existing node

unfoldable pub merge_from :
    List (String × ExecutionNodeAtom) → List ExecutionNodeAtom → List (String × ExecutionNodeAtom)
merge_from merged [] = merged
merge_from merged (n ∷ ns) =
    merge_from (map_set n.node_id (merged_with (map_get n.node_id merged) n) merged) ns

-- `compareNodes(left, right) <= 0`
unfoldable pub compare_nodes : Host → ExecutionNodeAtom → ExecutionNodeAtom → Bool
compare_nodes host left right = at_most (
    then_by (host.locale_compare left.started_at right.started_at)
      (host.locale_compare left.node_id right.node_id))

unfoldable pub merge_execution_nodes : Host → List ExecutionNodeAtom → List ExecutionNodeAtom
merge_execution_nodes host nodes = sort_by (compare_nodes host) (values (merge_from [] nodes))
