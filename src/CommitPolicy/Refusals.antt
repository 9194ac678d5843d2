-- ===== src/CommitPolicy/Refusals.antt =====
-- When a commit is refused, and what every result has in common.
use tirion_watch.Prelude.{
  ℕ, ◌+◌, ◌≤◌, ◌<◌, String, Bool, true, false, ◌&&◌, none, some, List, [], ◌∷◌, ◌++◌, ◌≡◌, ◌≢◌,
  arith, Bool-cases, inl, inr, ◌⊎◌, is_nil, any, select, includes, length, Host,
  includes-sorted_unique_strings, includes-append, IsUnique, IsSorted, str_leb,
  sorted_unique_strings-IsUnique, sorted_unique_strings-IsSorted, select-Memᴰ, Memᴰ-any,
  map-includes, includes-dedup, text_comparable, flat_map-Memᴰ, eq_refl,
}
use mathlib.Core.List.{Memᴰ, flat_map}
use tirion_watch.Attribution.{
  reportable, pending_evidence, rejected, legacy_unverified, QueryWorkEvidence, AttributionProof,
  ArtifactStateEvidence,
}
use tirion_watch.CommitPolicy.Evidence.{
  matched_artifact_keys, matched_artifact_count, attributable_artifact_states,
  artifact_states_match,
}
use tirion_watch.CommitPolicy.{
  CommitAttributionPolicyInput, CommitAttributionPolicyResult, claim_window_ms, hard_failure_reason,
  current_epoch_evidence, proven_anchors, anchors, inherited, retained_candidate_anchors,
  proof_anchor_query_ids, proof_evidence, reportable_proof, evaluate_anchors,
  evaluate_commit_attribution,
}
use tirion_watch.CommitPolicy.Soundness.{
  Backs, evaluate_proof, proven_anchors-Backs, proven_anchors-is_present, includes-anchors-retained,
}

-- The shape of a result: reportable with a proof, or refused with neither a proof nor a query.
abbrev pub HasShape : CommitAttributionPolicyResult → Type 0
HasShape r =
    (r.decision ≡ reportable) × (r.proof ≢ none)
    ⊎ ((r.decision ≡ pending_evidence) ⊎ (r.decision ≡ rejected))
      × (r.proof ≡ none)
      × (r.query_ids ≡ [])
      × (length r.reason_codes ≡ 1)

-- Every result is reportable and has a proof, or is pending or rejected and then has no proof, no
-- query and one reason.
pub evaluate-HasShape :
    (host : Host) (input : CommitAttributionPolicyInput)
    → HasShape (evaluate_commit_attribution input host)
unfolding evaluate_commit_attribution evaluate_anchors
evaluate-HasShape host input = ground arith

-- The reported queries are in order, and none is reported twice.
pub query_ids_canonical :
    (host : Host) (input : CommitAttributionPolicyInput)
    → IsSorted str_leb (evaluate_commit_attribution input host).query_ids
      × IsUnique (evaluate_commit_attribution input host).query_ids
unfolding evaluate_commit_attribution evaluate_anchors
query_ids_canonical host input = ground (
  arith,
  sorted_unique_strings-IsUnique (anchors input ++ inherited input),
  sorted_unique_strings-IsSorted (anchors input ++ inherited input),
)

-- With readable dates, a reportable commit was observed from the episode's start on and at most
-- the claim window after its last agent activity, and it is no legacy candidate.
pub reportable_in_window :
    (host : Host) (input : CommitAttributionPolicyInput) (observed started active : ℕ)
    → host.get_time input.candidate.observed_at ≡ some observed
    → host.get_time input.episode.started_at ≡ some started
    → host.get_time input.episode.last_agent_activity_at ≡ some active
    → (evaluate_commit_attribution input host).decision ≡ reportable
    → (started ≤ observed)
      × (observed ≤ active + claim_window_ms)
      × (input.candidate.decision ≢ legacy_unverified)
unfolding evaluate_commit_attribution hard_failure_reason
reportable_in_window host input observed started active o s a h = ground arith

module _ (input : CommitAttributionPolicyInput) where
  head-Memᴰ : (xs : List String) → is_nil xs ≡ false → (q : String) × (includes xs q ≡ true)
  head-Memᴰ [] h = ground arith
  head-Memᴰ (x ∷ xs) h = (x, ground (arith, eq_refl x))

  -- Some proven query survives the filters that lead to a reportable result.
  some_anchor :
      (is_nil (anchors input) && is_nil (retained_candidate_anchors input)) ≡ false
      → (q : String) × (includes (anchors input ++ retained_candidate_anchors input) q ≡ true)
  some_anchor h = elim (Bool-cases (is_nil (anchors input))) [
    | inl none_left ↦
        let (q, m) = head-Memᴰ (retained_candidate_anchors input) (ground arith) in
        (q, ground (arith, includes-append (anchors input) (retained_candidate_anchors input) q))
    | inr left ↦
        let (q, m) = head-Memᴰ (anchors input) left in
        (q, ground (arith, includes-append (anchors input) (retained_candidate_anchors input) q))
  ]

  in_proof_evidence :
      (q : String) (e : QueryWorkEvidence)
      → includes (anchors input ++ retained_candidate_anchors input) q ≡ true
      → includes (proven_anchors input) q ≡ true
      → e.query_id ≡ q
      → Memᴰ e (current_epoch_evidence input)
      → Memᴰ e (proof_evidence input)
  unfolding proof_evidence proof_anchor_query_ids
  in_proof_evidence q e listed proven own current =
      select-Memᴰ (λ (x : QueryWorkEvidence). includes (proof_anchor_query_ids input) x.query_id)
        (current_epoch_evidence input) current
        (rw own (
          rw includes-sorted_unique_strings
            (ground (arith, proven_anchors-is_present input q proven))))

  includes-matched_artifact_keys :
      {q : String} {e : QueryWorkEvidence} (b : Backs input q e)
      → Memᴰ e (proof_evidence input)
      → includes
          (matched_artifact_keys (proof_evidence input) input.candidate.artifact_states)
          b.observed.artifact_key
        ≡ true
  unfolding matched_artifact_keys
  includes-matched_artifact_keys {q} {e} b m =
      let states : List ArtifactStateEvidence = input.candidate.artifact_states in
      let matches : ArtifactStateEvidence → Bool =
        λ o. any (λ c. artifact_states_match o c) states in
      let observed_ones : List ArtifactStateEvidence =
        flat_map attributable_artifact_states (proof_evidence input) in
      let found : Memᴰ b.observed (select matches observed_ones) =
        select-Memᴰ matches observed_ones
          (flat_map-Memᴰ attributable_artifact_states (proof_evidence input) m b.attributable)
          (Memᴰ-any (λ c. artifact_states_match b.observed c) states b.in_commit b.continues) in
      rw includes-dedup (
        map-includes (λ (o : ArtifactStateEvidence). o.artifact_key) (select matches observed_ones)
          found)

  matched_artifact_count_pos :
      (is_nil (anchors input) && is_nil (retained_candidate_anchors input)) ≡ false
      → 0 < matched_artifact_count (proof_evidence input) input.candidate.artifact_states
  unfolding matched_artifact_count
  matched_artifact_count_pos h =
      let (q, listed) = some_anchor h in
      let proven = includes-anchors-retained input q listed in
      let (e, backs, current) = proven_anchors-Backs input q proven in
      length_pos (matched_artifact_keys (proof_evidence input) input.candidate.artifact_states)
        backs.observed.artifact_key
        (includes-matched_artifact_keys backs
          (in_proof_evidence q e listed proven backs.own current))
    where
      length_pos : (xs : List String) (x : String) → includes xs x ≡ true → 0 < length xs
      length_pos [] x m = cc
      length_pos (y ∷ ys) x m = omega arith

-- Whenever a result carries a proof, the proof counts at least one matched artifact.
pub reportable_matches :
    (host : Host) (input : CommitAttributionPolicyInput) (proof : AttributionProof)
    → (evaluate_commit_attribution input host).proof ≡ some proof
    → 0 < proof.matched_artifact_count
unfolding reportable_proof
reportable_matches host input proof h =
    let (same, _, anchored) = evaluate_proof host input proof h in
    rw same (matched_artifact_count_pos input anchored)
