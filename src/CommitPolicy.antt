-- ===== src/CommitPolicy.antt =====
-- src/attribution/commitAttributionPolicy.ts: whether a work episode explains an observed commit.
-- `Set<string>` arguments are lists that are only asked for membership.
pub mod Evidence
pub mod Soundness
pub mod Inheritance
pub mod Refusals
pub mod Causal
pub mod Tests
use tirion_watch.Prelude.{
  ℕ, ◌*◌, String, Bool, true, false, not, ◌&&◌, ◌||◌, Option, none, some, List, [], ◌∷◌, ◌++◌, map,
  ltb, leb, if◌then◌else◌, is_nil, any, every, select, includes, ◌===◌, text_comparable,
  option_comparable, sorted_unique_strings, Host, time_ltb, time_exceeds, length, eqb,
}
use tirion_watch.Attribution.{
  AttributionDecision, reportable, pending_evidence, rejected, legacy_unverified,
  AttributionDecision-discrete, AttributionProof, ObservedCommitCandidate, QueryWorkEvidence,
  AgenticWorkEpisode,
}
use tirion_watch.CommitPolicy.Evidence.{
  has_content_continuity, proof_kind_for, matched_artifact_count,
  matched_causal_write_artifacts_for_commit,
}

abbrev claim_window_ms : ℕ
claim_window_ms = 14400000

pub record CommitAttributionPolicyInput : Type 0 where
  pub candidate : ObservedCommitCandidate
  pub episode : AgenticWorkEpisode
  pub lineage_verified_query_ids : List String
  pub active_query_ids : List String
  pub candidate_anchor_query_ids : List String

pub record CommitAttributionPolicyResult : Type 0 where
  pub decision : AttributionDecision
  pub query_ids : List String
  pub proof : Option AttributionProof
  pub reason_codes : List String

abbrev is_legacy : AttributionDecision → Bool
is_legacy legacy_unverified = true
is_legacy _ = false

unfoldable pub hard_failure_reason :
    Host → ObservedCommitCandidate → AgenticWorkEpisode → Option String
hard_failure_reason host candidate episode =
    let observed = host.get_time candidate.observed_at in
    if is_legacy candidate.decision
    then some "legacy_candidate"
    else if time_ltb observed (host.get_time episode.started_at)
    then some "candidate_before_episode"
    else if time_exceeds observed (host.get_time episode.last_agent_activity_at) claim_window_ms
    then some "claim_window_expired"
    else none

abbrev query_ids_of : List QueryWorkEvidence → List String
query_ids_of evidence = map (λ e. e.query_id) evidence

-- `baselineSequence === null || observedSequence > baselineSequence`
abbrev pub after_baseline : ObservedCommitCandidate → QueryWorkEvidence → Bool
after_baseline candidate evidence = elim evidence.baseline_sequence [
  | none ↦ true
  | some baseline ↦ ltb baseline candidate.observed_sequence
]

module _ (input : CommitAttributionPolicyInput) where
  open input use {candidate, episode}

  abbrev pub in_repository : QueryWorkEvidence → Bool
  in_repository evidence = evidence.repo_key === candidate.repo_key

  abbrev pub in_epoch : QueryWorkEvidence → Bool
  in_epoch evidence = evidence.epoch_id === some candidate.epoch_id

  unfoldable pub repository_evidence : List QueryWorkEvidence
  repository_evidence = select in_repository episode.evidence

  unfoldable pub current_epoch_evidence : List QueryWorkEvidence
  current_epoch_evidence = select in_epoch repository_evidence

  unfoldable pub content_candidates : List QueryWorkEvidence
  content_candidates =
      select (λ e. has_content_continuity e candidate.artifact_states)
        (select (after_baseline candidate)
          (select (λ e. e.baseline_trusted) current_epoch_evidence))

  unfoldable pub proven_anchors : List String
  proven_anchors = sorted_unique_strings (
      query_ids_of
        (select (λ e. includes input.lineage_verified_query_ids e.query_id) content_candidates))

  unfoldable pub anchors : List String
  anchors = select (λ q. not (includes input.active_query_ids q)) proven_anchors

  unfoldable pub retained_candidate_anchors : List String
  retained_candidate_anchors = select (includes input.candidate_anchor_query_ids) proven_anchors

  -- Evidence of `q` that stops it from being inherited.
  abbrev pub contradicts : String → QueryWorkEvidence → Bool
  contradicts q e =
      e.query_id === q
      && (not (in_repository e)
          || not (in_epoch e)
          || not (after_baseline candidate e)
          || not (includes input.lineage_verified_query_ids q))

  unfoldable pub inherited : List String
  inherited =
      let episode_repos = sorted_unique_strings (map (λ e. e.repo_key) episode.evidence) in
      if eqb (length episode_repos) 1
      then select (λ q. not (any (contradicts q) episode.evidence))
          (select (λ q. not (includes input.active_query_ids q))
            (select (λ q. not (includes anchors q)) episode.query_ids))
      else []

  unfoldable pub pending_reason : String
  pending_reason =
      if not (is_nil proven_anchors)
      then "query_already_claimed_by_other_commit"
      else if not (is_nil current_epoch_evidence)
          && every (λ e. not (after_baseline candidate e)) current_epoch_evidence
      then "candidate_before_evidence_window"
      else if not (is_nil content_candidates)
      then "lineage_not_verified"
      else if not (is_nil repository_evidence)
      then "same_file_without_state_continuity"
      else "no_repository_evidence"

  unfoldable pub proof_anchor_query_ids : List String
  proof_anchor_query_ids = sorted_unique_strings (anchors ++ retained_candidate_anchors)

  unfoldable pub proof_evidence : List QueryWorkEvidence
  proof_evidence = select (λ e. includes proof_anchor_query_ids e.query_id) current_epoch_evidence

  unfoldable pub reportable_proof : Host → AttributionProof
  reportable_proof host =
      let matched =
        matched_causal_write_artifacts_for_commit host proof_evidence candidate.artifact_states in
      record {
        kind = proof_kind_for proof_evidence candidate.artifact_states;
        anchor_query_ids = proof_anchor_query_ids;
        inherited_query_ids = inherited;
        matched_artifact_count = matched_artifact_count proof_evidence candidate.artifact_states;
        matched_causal_write_artifacts = if is_nil matched then none else some matched;
        reason_codes = sorted_unique_strings (
            "active_epoch"
            ∷ "lineage_verified"
            ∷ "content_state_continuity"
            ∷ (if is_nil inherited then [] else "unambiguous_episode_inheritance" ∷ []));
      }

  abbrev refuse : AttributionDecision → String → CommitAttributionPolicyResult
  refuse decision reason = record {
    decision = decision;
    query_ids = [];
    proof = none;
    reason_codes = reason ∷ [];
  }

  -- Behind the rejections: whether there is an anchor.
  unfoldable pub evaluate_anchors : Host → CommitAttributionPolicyResult
  evaluate_anchors host =
      if is_nil anchors && is_nil retained_candidate_anchors
      then refuse pending_evidence pending_reason
      else record {
        decision = reportable;
        query_ids = sorted_unique_strings (anchors ++ inherited);
        proof = some (reportable_proof host);
        reason_codes = "verified_content_continuity" ∷ [];
      }

  unfoldable pub evaluate_commit_attribution : Host → CommitAttributionPolicyResult
  evaluate_commit_attribution host =
      if not (is_nil repository_evidence) && is_nil current_epoch_evidence
      then refuse rejected "epoch_mismatch"
      else elim (hard_failure_reason host candidate episode) [
        | some reason ↦ refuse rejected reason
        | none ↦ evaluate_anchors host
      ]
