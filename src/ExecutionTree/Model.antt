-- ===== src/ExecutionTree/Model.antt =====
-- packages/agent-contract/src/index.ts: the nodes of an execution tree, and the run that it is drawn
-- for. A union of literals that is only copied or compared is a text.
use tirion_watch.Prelude.{ℕ, String, Option, List}

pub data ExecutionContentVisibility : Type 0 where
  visible redacted hidden_by_policy disabled_at_source not_captured : ExecutionContentVisibility

pub record ExecutionNodeContent : Type 0 where
  pub kind : String
  pub visibility : ExecutionContentVisibility
  pub text : Option String
  pub preview : Option String

pub record ExecutionNodeAtom : Type 0 where
  pub node_id : String
  pub query_id : String
  pub session_id : Option String
  pub repository_key : Option String
  pub request_id : Option String
  pub invocation_id : Option String
  pub provider : String
  pub runtime : String
  pub signal : Option String
  pub node_kind : String
  pub name : String
  pub parent_node_id : Option String
  pub outcome : String
  pub outcome_authority : Option String
  pub started_at : String
  pub ended_at : Option String
  pub duration_ms : Option ℕ
  pub model : Option String
  pub usage_purpose : Option String
  pub tool_name : Option String
  pub artifact_keys : Option (List String)
  pub artifact_evidence : Option String
  pub input_tokens : Option ℕ
  pub output_tokens : Option ℕ
  pub cache_read_input_tokens : Option ℕ
  pub cache_creation_input_tokens : Option ℕ
  pub reasoning_output_tokens : Option ℕ
  pub contents : Option (List ExecutionNodeContent)

pub record ExecutionTreeNode : Type 0 where
  pub atom : ExecutionNodeAtom
  pub node_key : String
  pub parent_node_key : Option String
  pub sibling_order : ℕ

-- Of a run the fields stand that the projection reads.
pub record ProductionRun : Type 0 where
  pub run_id : String
  pub query_id : Option String
  pub correlation_id : String
  pub session_id : Option String
  pub provider : String
  pub runtime : String
  pub started_at : String
  pub ended_at : Option String
  pub prompt_text : Option String
  pub prompt_state : String

pub record ExecutionTreeSnapshot : Type 0 where
  pub run_id : String
  pub query_id : String
  pub session_id : Option String
  pub provider : String
  pub runtime : String
  pub prompt_started_at : String
  pub run_ended_at : Option String
  pub root_node_key : String
  pub nodes : List ExecutionTreeNode

pub data TreeVisibility : Type 0 where
  full some_visible topology_only : TreeVisibility

pub record ExecutionRunSummary : Type 0 where
  pub run_id : String
  pub query_id : String
  pub session_id : Option String
  pub provider : String
  pub runtime : String
  pub prompt_started_at : String
  pub run_ended_at : Option String
  pub node_count : ℕ
  pub content_visibility : TreeVisibility
