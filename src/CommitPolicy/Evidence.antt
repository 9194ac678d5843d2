-- ===== src/CommitPolicy/Evidence.antt =====
-- src/attribution/commitAttributionPolicy.ts: which observed artifact states a commit continues.
use Prim.Native.String
use mathlib.Core.List.{flat_map}
use tirion_watch.Prelude.{
  ℕ, String, Bool, true, false, not, ◌&&◌, ◌||◌, some, List, [], ◌∷◌, ◌++◌, map, length,
  if◌then◌else◌, get_or, any, select, includes, dedup, ◌===◌, text_comparable, option_comparable,
  map_set, values, sort_by, Host, at_most, then_by,
}
use tirion_watch.Attribution.{
  ChangeKind, deleted, AttributionProofKind, exact_content_state, observed_deletion,
  ArtifactStateEvidence, CausalWriteArtifactEvidence, MatchedCausalWriteArtifactEvidence,
  QueryWorkEvidence,
}

abbrev is_deleted : ChangeKind → Bool
is_deleted deleted = true
is_deleted _ = false

-- `artifactStatesMatch`; `!committed.stateKey` also holds of the empty text.
unfoldable pub artifact_states_match : ArtifactStateEvidence → ArtifactStateEvidence → Bool
artifact_states_match observed committed =
    let same_artifact =
      observed.artifact_key === committed.artifact_key
      || some observed.artifact_key === committed.previous_artifact_key
      || observed.previous_artifact_key === some committed.artifact_key in
    if not same_artifact
    then false
    else if is_deleted observed.change_kind && is_deleted committed.change_kind
    then true
    else if get_or committed.state_key "" === ""
    then false
    else committed.state_key === observed.worktree_state_key
      || committed.state_key === observed.index_state_key

-- A complete causal census limits the evidence to the artifacts that it names.
unfoldable pub attributable_artifact_states : QueryWorkEvidence → List ArtifactStateEvidence
attributable_artifact_states evidence =
    let states = get_or evidence.artifact_states [] in
    let artifact_keys =
      dedup (map (λ a. a.artifact_key) (get_or evidence.causal_write_artifacts [])) in
    if not (get_or evidence.causal_write_artifacts_complete false)
    then states
    else select (λ s. includes artifact_keys s.artifact_key) states

unfoldable pub has_content_continuity : QueryWorkEvidence → List ArtifactStateEvidence → Bool
has_content_continuity evidence committed =
    any (λ observed. any (λ candidate. artifact_states_match observed candidate) committed)
      (attributable_artifact_states evidence)

unfoldable pub proof_kind_for :
    List QueryWorkEvidence → List ArtifactStateEvidence → AttributionProofKind
proof_kind_for evidence committed =
    let deletion =
      any
        (λ item.
          any
            (λ observed.
              any
                (λ candidate.
                  is_deleted observed.change_kind
                  && is_deleted candidate.change_kind
                  && observed.artifact_key === candidate.artifact_key)
                committed)
            (attributable_artifact_states item))
        evidence in
    if deletion then observed_deletion else exact_content_state

-- The artifact keys of the observed states that some committed state matches, without repeats.
unfoldable pub matched_artifact_keys :
    List QueryWorkEvidence → List ArtifactStateEvidence → List String
matched_artifact_keys evidence committed = dedup (
    map (λ observed. observed.artifact_key)
      (select (λ observed. any (λ candidate. artifact_states_match observed candidate) committed)
        (flat_map attributable_artifact_states evidence)))

unfoldable pub matched_artifact_count : List QueryWorkEvidence → List ArtifactStateEvidence → ℕ
unfolding matched_artifact_keys
matched_artifact_count evidence committed = length (matched_artifact_keys evidence committed)

-- Whether one causal pair of `item` matched the commit.
unfoldable pub pair_matched :
    QueryWorkEvidence → List ArtifactStateEvidence → CausalWriteArtifactEvidence → Bool
pair_matched item committed pair =
    any
      (λ observed.
        observed.artifact_key === pair.artifact_key
        && any (λ candidate. artifact_states_match observed candidate) committed)
      (get_or item.artifact_states [])

abbrev pub matched_of : String → CausalWriteArtifactEvidence → MatchedCausalWriteArtifactEvidence
matched_of query_id pair = record {
  query_id = query_id;
  artifact_key = pair.artifact_key;
  execution_node_id = pair.execution_node_id;
}

-- The two nested loops, up to the map that they fill: the matched pairs in the order of the walk.
unfoldable pub matched_pairs :
    List QueryWorkEvidence → List ArtifactStateEvidence → List MatchedCausalWriteArtifactEvidence
matched_pairs [] committed = []
matched_pairs (item ∷ rest) committed =
    let later = matched_pairs rest committed in
    let own =
      map (matched_of item.query_id)
        (select (pair_matched item committed) (get_or item.causal_write_artifacts [])) in
    if get_or item.causal_write_artifacts_complete false then own ++ later else later

abbrev pair_key : MatchedCausalWriteArtifactEvidence → String
pair_key value =
    String.◌++◌ value.query_id
      (String.◌++◌ ":" (String.◌++◌ value.artifact_key (String.◌++◌ ":" value.execution_node_id)))

-- `byPair.set(key, value)` for each pair.
unfoldable pub by_pair :
    List MatchedCausalWriteArtifactEvidence
    → List (String × MatchedCausalWriteArtifactEvidence)
    → List (String × MatchedCausalWriteArtifactEvidence)
by_pair [] m = m
by_pair (v ∷ vs) m = by_pair vs (map_set (pair_key v) v m)

abbrev pair_at_most :
    Host → MatchedCausalWriteArtifactEvidence → MatchedCausalWriteArtifactEvidence → Bool
pair_at_most host left right = at_most (
    then_by (host.locale_compare left.query_id right.query_id) (
      then_by (host.locale_compare left.artifact_key right.artifact_key)
        (host.locale_compare left.execution_node_id right.execution_node_id)))

unfoldable pub matched_causal_write_artifacts_for_commit :
    Host
    → List QueryWorkEvidence
    → List ArtifactStateEvidence
    → List MatchedCausalWriteArtifactEvidence
unfolding matched_pairs by_pair
matched_causal_write_artifacts_for_commit host evidence committed =
    sort_by (pair_at_most host) (values (by_pair (matched_pairs evidence committed) []))
