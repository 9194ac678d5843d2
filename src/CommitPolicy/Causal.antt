-- ===== src/CommitPolicy/Causal.antt =====
-- The causal pairs that a commit's proof keeps.
use mathlib.Core.List.{Memᴰ}
use tirion_watch.Prelude.{
  String, Bool, true, false, none, some, List, [], ◌∷◌, ◌≡◌, refl, subst, map, arith, Bool-cases,
  inl, inr, get_or, select, includes, dedup, Host, eq_iff, text_comparable, map_set, values, All,
  All-append, All-sort_by, includes-map, includes-dedup, Memᴰ-select, any-Memᴰ, ◌===◌,
  if◌then◌else◌, is_nil, and_right,
}
use tirion_watch.Attribution.{
  ArtifactStateEvidence, CausalWriteArtifactEvidence, MatchedCausalWriteArtifactEvidence,
  QueryWorkEvidence, AttributionProof,
}
use tirion_watch.CommitPolicy.Evidence.{
  artifact_states_match, attributable_artifact_states, pair_matched, matched_of, matched_pairs,
  by_pair, matched_causal_write_artifacts_for_commit,
}
use tirion_watch.CommitPolicy.{
  CommitAttributionPolicyInput, proof_evidence, reportable_proof, evaluate_commit_attribution,
}
use tirion_watch.CommitPolicy.Soundness.{evaluate_proof}

-- Under a complete causal census only artifacts that the census names are attributable.
pub attributable_artifact_states_census :
    (e : QueryWorkEvidence) (observed : ArtifactStateEvidence)
    → e.causal_write_artifacts_complete ≡ some true
    → Memᴰ observed (attributable_artifact_states e)
    → (pair : CausalWriteArtifactEvidence) × Memᴰ pair (get_or e.causal_write_artifacts [])
      × (pair.artifact_key ≡ observed.artifact_key)
unfolding attributable_artifact_states
attributable_artifact_states_census e observed complete m =
    let pairs : List CausalWriteArtifactEvidence = get_or e.causal_write_artifacts [] in
    let names : List String = map (λ (p : CausalWriteArtifactEvidence). p.artifact_key) pairs in
    let named : ArtifactStateEvidence → Bool = λ s. includes (dedup names) s.artifact_key in
    let (_, listed) = Memᴰ-select named (get_or e.artifact_states []) (rw complete at m) in
    includes-map (λ (p : CausalWriteArtifactEvidence). p.artifact_key) pairs observed.artifact_key
      (rw (← includes-dedup names observed.artifact_key) listed)

-- Where a kept pair comes from.
pub record Origin (evidence : List QueryWorkEvidence) (committed : List ArtifactStateEvidence)
    (v : MatchedCausalWriteArtifactEvidence) : Type 0 where
  pub item : QueryWorkEvidence
  pub in_evidence : Memᴰ item evidence
  pub complete : item.causal_write_artifacts_complete ≡ some true
  pub pair : CausalWriteArtifactEvidence
  pub in_census : Memᴰ pair (get_or item.causal_write_artifacts [])
  pub same : v ≡ matched_of item.query_id pair
  pub observed : ArtifactStateEvidence
  pub was_observed : Memᴰ observed (get_or item.artifact_states [])
  pub same_artifact : observed.artifact_key ≡ pair.artifact_key
  pub state : ArtifactStateEvidence
  pub in_commit : Memᴰ state committed
  pub continues : artifact_states_match observed state ≡ true

module _ (committed : List ArtifactStateEvidence) where
  Origin-cons :
      (item : QueryWorkEvidence) (rest : List QueryWorkEvidence)
      {v : MatchedCausalWriteArtifactEvidence}
      → Origin rest committed v
      → Origin (item ∷ rest) committed v
  Origin-cons item rest o = record {
    item = o.item;
    in_evidence = Memᴰ.tail o.in_evidence;
    complete = o.complete;
    pair = o.pair;
    in_census = o.in_census;
    same = o.same;
    observed = o.observed;
    was_observed = o.was_observed;
    same_artifact = o.same_artifact;
    state = o.state;
    in_commit = o.in_commit;
    continues = o.continues;
  }

  All-Origin-cons :
      (item : QueryWorkEvidence) (rest : List QueryWorkEvidence)
      (vs : List MatchedCausalWriteArtifactEvidence)
      → All (Origin rest committed) vs
      → All (Origin (item ∷ rest) committed) vs
  All-Origin-cons item rest [] h = tt
  All-Origin-cons item rest (v ∷ vs) h =
      (Origin-cons item rest h.0, All-Origin-cons item rest vs h.1)

  own-Origin :
      (item : QueryWorkEvidence) (rest : List QueryWorkEvidence)
      (pair : CausalWriteArtifactEvidence)
      → item.causal_write_artifacts_complete ≡ some true
      → Memᴰ pair (get_or item.causal_write_artifacts [])
      → pair_matched item committed pair ≡ true
      → Origin (item ∷ rest) committed (matched_of item.query_id pair)
  unfolding pair_matched
  own-Origin item rest pair complete m matched =
      let (observed, was_observed, both) = any-Memᴰ _ _ matched in
      let (state, in_commit, continues) =
        any-Memᴰ (λ (c : ArtifactStateEvidence). artifact_states_match observed c) committed
          (and_right _ _ both) in
      record {
        item = item;
        in_evidence = Memᴰ.head refl;
        complete = complete;
        pair = pair;
        in_census = m;
        same = refl;
        observed = observed;
        was_observed = was_observed;
        same_artifact = ground (arith, eq_iff observed.artifact_key pair.artifact_key);
        state = state;
        in_commit = in_commit;
        continues = continues;
      }

  own-All-Origin :
      (item : QueryWorkEvidence) (rest : List QueryWorkEvidence)
      (pairs : List CausalWriteArtifactEvidence)
      → item.causal_write_artifacts_complete ≡ some true
      → ((pair : CausalWriteArtifactEvidence)
          → Memᴰ pair pairs
          → Memᴰ pair (get_or item.causal_write_artifacts []))
      → All
          (Origin (item ∷ rest) committed)
          (map (matched_of item.query_id) (select (pair_matched item committed) pairs))
  own-All-Origin item rest [] complete sub = tt
  own-All-Origin item rest (pair ∷ pairs) complete sub =
      let later = own-All-Origin item rest pairs complete (λ p m. sub p (Memᴰ.tail m)) in
      elim (Bool-cases (pair_matched item committed pair)) [
        | inl e ↦ rw e (own-Origin item rest pair complete (sub pair (Memᴰ.head refl)) e, later)
        | inr e ↦ rw e later
      ]

  matched_pairs-Origin :
      (evidence : List QueryWorkEvidence)
      → All (Origin evidence committed) (matched_pairs evidence committed)
  unfolding matched_pairs
  matched_pairs-Origin [] = tt
  matched_pairs-Origin (item ∷ rest) =
      let later = All-Origin-cons item rest _ (matched_pairs-Origin rest) in
      elim (Bool-cases (get_or item.causal_write_artifacts_complete false)) [
        | inl e ↦ rw e (
            All-append (Origin (item ∷ rest) committed) _ _
              (own-All-Origin item rest (get_or item.causal_write_artifacts []) (ground arith)
                (λ p m. m))
              later)
        | inr e ↦ rw e later
      ]

module _ (P : MatchedCausalWriteArtifactEvidence → Type 0) where
  All-values-map_set :
      (k : String) (v : MatchedCausalWriteArtifactEvidence)
      (m : List (String × MatchedCausalWriteArtifactEvidence))
      → P v
      → All P (values m)
      → All P (values (map_set k v m))
  unfolding map_set
  All-values-map_set k v [] p h = (p, tt)
  All-values-map_set k v ((j, w) ∷ m) p h = elim (Bool-cases (j === k)) [
    | inl e ↦ rw e (p, h.1)
    | inr e ↦ rw e (h.0, All-values-map_set k v m p h.1)
  ]

  All-by_pair :
      (vs : List MatchedCausalWriteArtifactEvidence)
      (m : List (String × MatchedCausalWriteArtifactEvidence))
      → All P vs
      → All P (values m)
      → All P (values (by_pair vs m))
  unfolding by_pair
  All-by_pair [] m h k = k
  All-by_pair (v ∷ vs) m h k = All-by_pair vs _ h.1 (All-values-map_set _ v m h.0 k)

matched-Origin :
    (host : Host) (evidence : List QueryWorkEvidence) (committed : List ArtifactStateEvidence)
    → All
        (Origin evidence committed)
        (matched_causal_write_artifacts_for_commit host evidence committed)
unfolding matched_causal_write_artifacts_for_commit
matched-Origin host evidence committed =
    All-sort_by _ (Origin evidence committed) _
      (All-by_pair (Origin evidence committed) _ [] (matched_pairs-Origin committed evidence) tt)

kept_some :
    (xs kept : List MatchedCausalWriteArtifactEvidence)
    → (if is_nil xs then none else some xs) ≡ some kept
    → xs ≡ kept
kept_some [] kept h = cc
kept_some (x ∷ xs) kept h = cc

-- Every causal pair that a proof keeps comes from proof evidence with a complete census which
-- names the pair, and the evidence observed a state of that artifact which the commit continues.
pub matched_causal_sound :
    (host : Host) (input : CommitAttributionPolicyInput) (proof : AttributionProof)
    (kept : List MatchedCausalWriteArtifactEvidence)
    → (evaluate_commit_attribution input host).proof ≡ some proof
    → proof.matched_causal_write_artifacts ≡ some kept
    → All (Origin (proof_evidence input) input.candidate.artifact_states) kept
unfolding reportable_proof
matched_causal_sound host input proof kept h k =
    let (same, _, _) = evaluate_proof host input proof h in
    subst (All (Origin (proof_evidence input) input.candidate.artifact_states))
      (kept_some _ kept (rw same at k)) (matched-Origin host (proof_evidence input) _)
