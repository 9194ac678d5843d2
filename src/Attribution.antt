-- ===== src/Attribution.antt =====
-- src/types.ts: the evidence that ties agent queries to files, and the commits that it may explain.
-- An optional field is an `Option`; a sequence number or a count is a natural number.
use tirion_watch.Prelude.{ℕ, String, Bool, Option, List}

pub data ChangeKind : Type 0 where
  added modified deleted renamed binary : ChangeKind

pub ChangeKind-discrete : Discrete ChangeKind
ChangeKind-discrete = hlevel

pub data AttributionDecision : Type 0 where
  reportable pending_evidence rejected expired rewrite_pending superseded : AttributionDecision
  legacy_unverified : AttributionDecision

pub AttributionDecision-discrete : Discrete AttributionDecision
AttributionDecision-discrete = hlevel

pub data AttributionProofKind : Type 0 where
  exact_content_state observed_deletion episode_inheritance : AttributionProofKind

pub record ArtifactStateEvidence : Type 0 where
  pub artifact_key : String
  pub previous_artifact_key : Option String
  pub state_key : Option String
  pub worktree_state_key : Option String
  pub index_state_key : Option String
  pub change_kind : ChangeKind
  pub observed_sequence : ℕ

pub record CausalWriteArtifactEvidence : Type 0 where
  pub artifact_key : String
  pub execution_node_id : String

pub record MatchedCausalWriteArtifactEvidence : Type 0 where
  pub query_id : String
  pub artifact_key : String
  pub execution_node_id : String

pub record ObservedCommitCandidate : Type 0 where
  pub candidate_id : String
  pub epoch_id : String
  pub repo_key : String
  pub commit_hash : String
  pub commit_message : Option String
  pub parent_hashes : List String
  pub ref_key : Option String
  pub observed_at : String
  pub committed_at : Option String
  pub observed_sequence : ℕ
  pub artifact_states : List ArtifactStateEvidence
  pub decision : AttributionDecision
  pub reason_codes : List String

pub record AttributionProof : Type 0 where
  pub kind : AttributionProofKind
  pub anchor_query_ids : List String
  pub inherited_query_ids : List String
  pub matched_artifact_count : ℕ
  pub matched_causal_write_artifacts : Option (List MatchedCausalWriteArtifactEvidence)
  pub reason_codes : List String

pub record QueryWorkEvidence : Type 0 where
  pub query_id : String
  pub run_ids : List String
  pub repo_key : String
  pub epoch_id : Option String
  pub started_at : String
  pub completed_at : Option String
  pub settling_until : Option String
  pub expires_at : Option String
  pub baseline_trusted : Bool
  pub baseline_reasons : List String
  pub head_commit_at_start : Option String
  pub baseline_sequence : Option ℕ
  pub dirty_at_start : Bool
  pub observed_change_count : ℕ
  pub artifact_keys : List String
  pub causal_artifact_keys : Option (List String)
  pub causal_write_artifacts : Option (List CausalWriteArtifactEvidence)
  pub native_rejected_causal_write_artifacts : Option (List CausalWriteArtifactEvidence)
  pub causal_write_artifacts_complete : Option Bool
  pub baseline_artifact_states : Option (List ArtifactStateEvidence)
  pub artifact_states : Option (List ArtifactStateEvidence)
  pub added_lines : ℕ
  pub deleted_lines : ℕ
  pub first_observed_at : Option String
  pub last_observed_at : Option String

pub data WorkEpisodeStatus : Type 0 where
  open_ claimed stale manual_review expired : WorkEpisodeStatus

pub WorkEpisodeStatus-discrete : Discrete WorkEpisodeStatus
WorkEpisodeStatus-discrete = hlevel

pub record AgenticWorkEpisode : Type 0 where
  pub observation_schema_version : Option ℕ
  pub episode_id : String
  pub repo_key : Option String
  pub repo_keys : Option (List String)
  pub epoch_ids : Option (List String)
  pub chat_session_id : Option String
  pub query_ids : List String
  pub run_ids : List String
  pub head_commit_at_start : Option String
  pub started_at : String
  pub last_query_activity_at : Option String
  pub last_agent_activity_at : String
  pub last_observed_change_at : Option String
  pub status : WorkEpisodeStatus
  pub evidence : List QueryWorkEvidence
  pub claimed_by_commit_hash : Option String
  pub claimed_at : Option String
  pub decision : Option AttributionDecision
  pub confidence : Option String
  pub confidence_reasons : Option (List String)
