-- ===== src/CommitPolicy/Soundness.antt =====
-- What a reportable decision of `evaluateCommitAttribution` rests on.
use tirion_watch.Prelude.{
  String, Bool, true, false, not, ◌&&◌, some, List, ◌++◌, ◌≡◌, refl, subst, map, arith, is_nil,
  select, includes, text_comparable, option_comparable, eq_iff, Host, includes-map, Memᴰ-select,
  any-Memᴰ, includes-sorted_unique_strings, includes-append, includes-select, is_present,
}
use mathlib.Core.List.{Memᴰ}
use tirion_watch.Attribution.{
  reportable, ArtifactStateEvidence, QueryWorkEvidence, AttributionProof,
}
use tirion_watch.CommitPolicy.Evidence.{
  artifact_states_match, attributable_artifact_states, has_content_continuity,
}
use tirion_watch.CommitPolicy.{
  CommitAttributionPolicyInput, after_baseline, in_repository, in_epoch, repository_evidence,
  current_epoch_evidence, content_candidates, proven_anchors, anchors, retained_candidate_anchors,
  proof_anchor_query_ids, reportable_proof, evaluate_anchors, evaluate_commit_attribution,
}

-- Evidence `e` of query `q` that ties the query to the commit.
pub record Backs (input : CommitAttributionPolicyInput) (q : String) (e : QueryWorkEvidence)
    : Type 0 where
  pub recorded : Memᴰ e input.episode.evidence
  pub own : e.query_id ≡ q
  pub same_repository : e.repo_key ≡ input.candidate.repo_key
  pub same_epoch : e.epoch_id ≡ some input.candidate.epoch_id
  pub trusted : e.baseline_trusted ≡ true
  pub fresh : after_baseline input.candidate e ≡ true
  pub verified : includes input.lineage_verified_query_ids q ≡ true
  pub observed : ArtifactStateEvidence
  pub attributable : Memᴰ observed (attributable_artifact_states e)
  pub committed : ArtifactStateEvidence
  pub in_commit : Memᴰ committed input.candidate.artifact_states
  pub continues : artifact_states_match observed committed ≡ true

module _ (input : CommitAttributionPolicyInput) where
  Memᴰ-current_epoch_evidence :
      {e : QueryWorkEvidence}
      → Memᴰ e (current_epoch_evidence input)
      → Memᴰ e input.episode.evidence
        × (e.repo_key ≡ input.candidate.repo_key)
        × (e.epoch_id ≡ some input.candidate.epoch_id)
  unfolding current_epoch_evidence repository_evidence
  Memᴰ-current_epoch_evidence {e} m =
      let (within, epoch) = Memᴰ-select (in_epoch input) (repository_evidence input) m in
      let (recorded, repository) =
        Memᴰ-select (in_repository input) input.episode.evidence within in
      (
        recorded,
        (eq_iff e.repo_key input.candidate.repo_key).0 repository,
        (option_comparable.equal_iff e.epoch_id (some input.candidate.epoch_id)).0 epoch,
      )

  content_candidates-Backs :
      {e : QueryWorkEvidence}
      → Memᴰ e (content_candidates input)
      → includes input.lineage_verified_query_ids e.query_id ≡ true
      → Backs input e.query_id e × Memᴰ e (current_epoch_evidence input)
  unfolding content_candidates has_content_continuity
  content_candidates-Backs {e} m verified =
      let (fresh_ones, continuity) = Memᴰ-select _ _ m in
      let (trusted_ones, fresh) = Memᴰ-select _ _ fresh_ones in
      let (current, trusted) =
        Memᴰ-select (λ (x : QueryWorkEvidence). x.baseline_trusted) _ trusted_ones in
      let (recorded, repository, epoch) = Memᴰ-current_epoch_evidence current in
      let (observed, attributable, some_match) = any-Memᴰ _ _ continuity in
      let (committed, in_commit, continues) = any-Memᴰ _ _ some_match in
      (
        record {
          recorded = recorded;
          own = refl;
          same_repository = repository;
          same_epoch = epoch;
          trusted = trusted;
          fresh = fresh;
          verified = verified;
          observed = observed;
          attributable = attributable;
          committed = committed;
          in_commit = in_commit;
          continues = continues;
        },
        current,
      )

  pub proven_anchors-Backs :
      (q : String)
      → includes (proven_anchors input) q ≡ true
      → (e : QueryWorkEvidence) × Backs input q e × Memᴰ e (current_epoch_evidence input)
  unfolding proven_anchors
  proven_anchors-Backs q h =
      let verified : QueryWorkEvidence → Bool =
        λ e. includes input.lineage_verified_query_ids e.query_id in
      let ids : List String = map (λ e. e.query_id) (select verified (content_candidates input)) in
      let listed : includes ids q ≡ true = ground (arith, includes-sorted_unique_strings ids q) in
      let (e, m, own) =
        includes-map (λ (x : QueryWorkEvidence). x.query_id)
          (select verified (content_candidates input)) q listed in
      let (candidate, lineage) = Memᴰ-select verified (content_candidates input) m in
      let (backs, current) = content_candidates-Backs candidate lineage in
      (e, subst (λ p. Backs input p e) own backs, current)

  pub proven_anchors-is_present :
      (q : String) → includes (proven_anchors input) q ≡ true → is_present q ≡ true
  unfolding proven_anchors
  proven_anchors-is_present q h = ground (
    arith,
    includes-sorted_unique_strings
        (map (λ (e : QueryWorkEvidence). e.query_id)
          (select (λ (e : QueryWorkEvidence). includes input.lineage_verified_query_ids e.query_id)
            (content_candidates input)))
        q,
  )

  pub includes-anchors-retained :
      (q : String)
      → includes (anchors input ++ retained_candidate_anchors input) q ≡ true
      → includes (proven_anchors input) q ≡ true
  unfolding anchors retained_candidate_anchors
  includes-anchors-retained q h = ground (
    arith,
    includes-append (anchors input) (retained_candidate_anchors input) q,
    includes-select (λ (r : String). not (includes input.active_query_ids r)) (proven_anchors input)
        q,
    includes-select (includes input.candidate_anchor_query_ids) (proven_anchors input) q,
  )

  pub proof_anchor_query_ids-Backs :
      (q : String)
      → includes (proof_anchor_query_ids input) q ≡ true
      → (e : QueryWorkEvidence) × Backs input q e × Memᴰ e (current_epoch_evidence input)
  unfolding proof_anchor_query_ids
  proof_anchor_query_ids-Backs q h = proven_anchors-Backs q (
      includes-anchors-retained q (
        ground (
          arith,
          includes-sorted_unique_strings (anchors input ++ retained_candidate_anchors input) q,
        )))

module _ (host : Host) (input : CommitAttributionPolicyInput) where
  -- A result that carries a proof is the reportable one.
  pub evaluate_proof :
      (proof : AttributionProof)
      → (evaluate_commit_attribution input host).proof ≡ some proof
      → (proof ≡ reportable_proof input host)
        × ((evaluate_commit_attribution input host).decision ≡ reportable)
        × ((is_nil (anchors input) && is_nil (retained_candidate_anchors input)) ≡ false)
  unfolding evaluate_commit_attribution evaluate_anchors
  evaluate_proof proof h = ground arith

-- Whenever a result carries a proof, each anchor query of the proof has evidence in the episode
-- that names the commit's repository and epoch, has a trusted baseline which the commit comes
-- after, belongs to a query of verified lineage, and holds an attributable artifact state that a
-- state of the commit matches.
pub anchors_sound :
    (host : Host) (input : CommitAttributionPolicyInput) (proof : AttributionProof) (q : String)
    → (evaluate_commit_attribution input host).proof ≡ some proof
    → includes proof.anchor_query_ids q ≡ true
    → (e : QueryWorkEvidence) × Backs input q e
unfolding reportable_proof
anchors_sound host input proof q h m =
    let (same, _, _) = evaluate_proof host input proof h in
    let (e, backs, _) = proof_anchor_query_ids-Backs input q (rw same at m) in (e, backs)
