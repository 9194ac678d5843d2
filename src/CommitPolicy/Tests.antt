-- ===== src/CommitPolicy/Tests.antt =====
-- A commit that one query explains, and the policy's answers about it.
use Prim.Native.String.{compare}
use tirion_watch.Prelude.{
  ◌+◌, ◌≤◌, String, true, false, none, some, [], ◌∷◌, ◌≡◌, ◌≢◌, ◌⊎◌, refl, if◌then◌else◌, ◌===◌,
  text_comparable, Host, includes, str_leb, All, sorted_unique_strings, unique_strings, dedup,
  sort_by, map_set, is_blank, units,
}
use tirion_watch.Attribution.{
  modified, AttributionDecision, reportable, pending_evidence, rejected, legacy_unverified,
  ArtifactStateEvidence, ObservedCommitCandidate, QueryWorkEvidence, AgenticWorkEpisode, open_,
  AttributionProof,
}
use tirion_watch.CommitPolicy
use tirion_watch.CommitPolicy.Evidence
use tirion_watch.CommitPolicy.{
  CommitAttributionPolicyInput, evaluate_commit_attribution, reportable_proof,
}
use tirion_watch.CommitPolicy.Soundness.{Backs, anchors_sound}
use tirion_watch.CommitPolicy.Inheritance.{Inherits, inherited_sound, query_ids_sound}
use tirion_watch.CommitPolicy.Refusals.{HasShape, evaluate-HasShape, reportable_in_window}
use tirion_watch.CommitPolicy.Causal.{Origin, matched_causal_sound}

abbrev pub sample_host : Host
sample_host = record {
  get_time = λ s.
      if s === "09:00"
      then some 32400000
      else if s === "10:00"
      then some 36000000
      else if s === "11:00"
      then some 39600000
      else none;
  locale_compare = compare;
}

abbrev state : String → String → ArtifactStateEvidence
state artifact content = record {
  artifact_key = artifact;
  previous_artifact_key = none;
  state_key = some content;
  worktree_state_key = some content;
  index_state_key = none;
  change_kind = modified;
  observed_sequence = 4;
}

abbrev pub sample_evidence : String → QueryWorkEvidence
sample_evidence query = record {
  query_id = query;
  run_ids = "r1" ∷ [];
  repo_key = "repo";
  epoch_id = some "epoch";
  started_at = "09:00";
  completed_at = none;
  settling_until = none;
  expires_at = none;
  baseline_trusted = true;
  baseline_reasons = [];
  head_commit_at_start = none;
  baseline_sequence = some 2;
  dirty_at_start = false;
  observed_change_count = 1;
  artifact_keys = "a" ∷ [];
  causal_artifact_keys = none;
  causal_write_artifacts = some (record { artifact_key = "a"; execution_node_id = "n1" } ∷ []);
  native_rejected_causal_write_artifacts = none;
  causal_write_artifacts_complete = some true;
  baseline_artifact_states = none;
  artifact_states = some (state "a" "k1" ∷ state "b" "k2" ∷ []);
  added_lines = 1;
  deleted_lines = 0;
  first_observed_at = none;
  last_observed_at = none;
}

abbrev pub sample_episode : AgenticWorkEpisode
sample_episode = record {
  observation_schema_version = some 1;
  episode_id = "e1";
  repo_key = some "repo";
  repo_keys = some ("repo" ∷ []);
  epoch_ids = some ("epoch" ∷ []);
  chat_session_id = some "s1";
  query_ids = "q1" ∷ "q2" ∷ [];
  run_ids = "r1" ∷ [];
  head_commit_at_start = none;
  started_at = "09:00";
  last_query_activity_at = some "10:00";
  last_agent_activity_at = "10:00";
  last_observed_change_at = none;
  status = open_;
  evidence = sample_evidence "q1" ∷ [];
  claimed_by_commit_hash = none;
  claimed_at = none;
  decision = some pending_evidence;
  confidence = none;
  confidence_reasons = none;
}

abbrev sample_candidate : ObservedCommitCandidate
sample_candidate = record {
  candidate_id = "c1";
  epoch_id = "epoch";
  repo_key = "repo";
  commit_hash = "abc";
  commit_message = none;
  parent_hashes = [];
  ref_key = none;
  observed_at = "11:00";
  committed_at = none;
  observed_sequence = 5;
  artifact_states = state "a" "k1" ∷ [];
  decision = pending_evidence;
  reason_codes = [];
}

abbrev sample_input : CommitAttributionPolicyInput
sample_input = record {
  candidate = sample_candidate;
  episode = sample_episode;
  lineage_verified_query_ids = "q1" ∷ [];
  active_query_ids = [];
  candidate_anchor_query_ids = [];
}

program : Unit {0}
unfolding evaluate_commit_attribution CommitPolicy.evaluate_anchors CommitPolicy.hard_failure_reason
    CommitPolicy.reportable_proof CommitPolicy.proof_evidence CommitPolicy.proof_anchor_query_ids
    CommitPolicy.pending_reason CommitPolicy.inherited CommitPolicy.retained_candidate_anchors
    CommitPolicy.anchors CommitPolicy.proven_anchors CommitPolicy.content_candidates
    CommitPolicy.current_epoch_evidence CommitPolicy.repository_evidence
    Evidence.artifact_states_match Evidence.attributable_artifact_states
    Evidence.has_content_continuity Evidence.proof_kind_for Evidence.matched_artifact_count
    Evidence.matched_artifact_keys Evidence.pair_matched Evidence.matched_pairs Evidence.by_pair
    Evidence.matched_causal_write_artifacts_for_commit sorted_unique_strings unique_strings dedup
    sort_by map_set is_blank str_leb units
program = tt

abbrev result_decision : CommitAttributionPolicyInput → AttributionDecision
result_decision input = (evaluate_commit_attribution input sample_host).decision

decisions :
    (result_decision sample_input ≡ reportable)
    × (result_decision (record sample_input { lineage_verified_query_ids = [] }) ≡ pending_evidence)
    × (result_decision (record sample_input {
      candidate = record sample_candidate { decision = legacy_unverified };
    })
        ≡ rejected)
unfolding program
decisions = (refl, refl, refl)

reported : (evaluate_commit_attribution sample_input sample_host).query_ids ≡ "q1" ∷ "q2" ∷ []
unfolding program
reported = refl

abbrev sample_proof : AttributionProof
sample_proof = reportable_proof sample_input sample_host

proved : (evaluate_commit_attribution sample_input sample_host).proof ≡ some sample_proof
unfolding program
proved = refl

anchors_sound_example : (e : QueryWorkEvidence) × Backs sample_input "q1" e
unfolding program
anchors_sound_example = anchors_sound sample_host sample_input sample_proof "q1" proved refl

inherited_sound_example : Inherits sample_input "q2"
unfolding program
inherited_sound_example = inherited_sound sample_host sample_input sample_proof "q2" proved refl

query_ids_sound_example :
    (includes sample_input.active_query_ids "q2" ≡ false)
    × (Inherits sample_input "q2" ⊎ ((e : QueryWorkEvidence) × Backs sample_input "q2" e))
unfolding program
query_ids_sound_example = query_ids_sound sample_host sample_input "q2" refl

evaluate-HasShape_example : HasShape (evaluate_commit_attribution sample_input sample_host)
evaluate-HasShape_example = evaluate-HasShape sample_host sample_input

reportable_in_window_example :
    (32400000 ≤ 39600000)
    × (39600000 ≤ 36000000 + CommitPolicy.claim_window_ms)
    × (sample_input.candidate.decision ≢ legacy_unverified)
unfolding program
reportable_in_window_example =
    reportable_in_window sample_host sample_input 39600000 32400000 36000000 refl refl refl refl

matched_causal_sound_example :
    All
      (Origin (CommitPolicy.proof_evidence sample_input) sample_input.candidate.artifact_states)
      (record { query_id = "q1"; artifact_key = "a"; execution_node_id = "n1" } ∷ [])
unfolding program
matched_causal_sound_example =
    matched_causal_sound sample_host sample_input sample_proof
      (record { query_id = "q1"; artifact_key = "a"; execution_node_id = "n1" } ∷ []) proved refl
