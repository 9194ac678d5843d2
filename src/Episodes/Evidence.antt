-- ===== src/Episodes/Evidence.antt =====
-- src/attribution/agenticWorkEpisode.ts: the evidence of an episode, and how new evidence about a
-- query, a repository and an epoch joins the earlier. A field that the new evidence lacks is absent, so a
-- spread leaves the earlier value.
use Prim.Native.String
use tirion_watch.Prelude.{
  ℕ, String, Option, none, some, List, [], ◌∷◌, ◌++◌, Bool, true, false, ◌&&◌, ◌||◌, if◌then◌else◌,
  leb, length, get_or, or_else, str_leb, at_most, then_by, map_get, map_set, values, index_from,
  sort_by, sorted_unique_strings, text_comparable, Host,
}
use tirion_watch.Attribution.{ArtifactStateEvidence, CausalWriteArtifactEvidence, QueryWorkEvidence}

unfoldable pub max_iso : String → String → String
max_iso a b = if str_leb a b then b else a

unfoldable pub max_iso_optional : Option String → Option String → Option String
max_iso_optional none b = b
max_iso_optional (some a) none = some a
max_iso_optional (some a) (some b) = some (if str_leb a b then b else a)

unfoldable pub min_iso_optional : Option String → Option String → Option String
min_iso_optional none b = b
min_iso_optional (some a) none = some a
min_iso_optional (some a) (some b) = some (if str_leb a b then a else b)

unfoldable pub larger : ℕ → ℕ → ℕ
larger a b = if leb a b then b else a

join : String → String → String
join left right = String.◌++◌ left (String.◌++◌ ":" right)

unfoldable pub evidence_key : QueryWorkEvidence → String
unfolding join
evidence_key evidence =
    join evidence.query_id (join evidence.repo_key (get_or evidence.epoch_id "legacy"))

unfoldable pub merge_artifact_states :
    List ArtifactStateEvidence → List ArtifactStateEvidence → List ArtifactStateEvidence
merge_artifact_states a b =
    values (index_from (λ s. s.artifact_key) (index_from (λ s. s.artifact_key) [] a) b)

pair_text : CausalWriteArtifactEvidence → String
unfolding join
pair_text item = join item.artifact_key item.execution_node_id

module _ (host : Host) where
  unfoldable pub merge_causal_write_artifacts :
      List CausalWriteArtifactEvidence
      → List CausalWriteArtifactEvidence
      → List CausalWriteArtifactEvidence
  unfolding pair_text
  merge_causal_write_artifacts a b =
      sort_by
        (λ left right. at_most (
          then_by (host.locale_compare left.artifact_key right.artifact_key)
            (host.locale_compare left.execution_node_id right.execution_node_id)))
        (values (index_from pair_text [] (a ++ b)))

  unfoldable pub merge_pairs :
      Bool
      → Option (List CausalWriteArtifactEvidence)
      → Option (List CausalWriteArtifactEvidence)
      → Option (List CausalWriteArtifactEvidence)
  unfolding merge_causal_write_artifacts
  merge_pairs true a b = b
  merge_pairs false a b = some (merge_causal_write_artifacts (get_or a []) (get_or b []))

  -- `replaces` is set where the new evidence is a complete census.
  unfoldable pub merge_record :
      Bool → List ArtifactStateEvidence → QueryWorkEvidence → QueryWorkEvidence → QueryWorkEvidence
  unfolding larger merge_pairs min_iso_optional max_iso_optional
  merge_record replaces artifact_states a b = record {
    query_id = b.query_id;
    run_ids = sorted_unique_strings (a.run_ids ++ b.run_ids);
    repo_key = b.repo_key;
    epoch_id = or_else b.epoch_id a.epoch_id;
    started_at = b.started_at;
    completed_at = or_else b.completed_at a.completed_at;
    settling_until = or_else b.settling_until a.settling_until;
    expires_at = or_else b.expires_at a.expires_at;
    baseline_trusted = a.baseline_trusted && b.baseline_trusted;
    baseline_reasons = sorted_unique_strings (a.baseline_reasons ++ b.baseline_reasons);
    head_commit_at_start = or_else b.head_commit_at_start a.head_commit_at_start;
    baseline_sequence = or_else b.baseline_sequence a.baseline_sequence;
    dirty_at_start = a.dirty_at_start || b.dirty_at_start;
    observed_change_count = length artifact_states;
    artifact_keys = sorted_unique_strings (a.artifact_keys ++ b.artifact_keys);
    causal_artifact_keys = some (
        if replaces
        then sorted_unique_strings (get_or b.causal_artifact_keys [])
        else sorted_unique_strings
            (get_or a.causal_artifact_keys [] ++ get_or b.causal_artifact_keys []));
    causal_write_artifacts = merge_pairs replaces a.causal_write_artifacts b.causal_write_artifacts;
    native_rejected_causal_write_artifacts =
        merge_pairs replaces a.native_rejected_causal_write_artifacts
          b.native_rejected_causal_write_artifacts;
    causal_write_artifacts_complete =
        if get_or a.causal_write_artifacts_complete false
          || get_or b.causal_write_artifacts_complete false
        then some true
        else none;
    baseline_artifact_states = or_else b.baseline_artifact_states a.baseline_artifact_states;
    artifact_states = some artifact_states;
    added_lines = larger a.added_lines b.added_lines;
    deleted_lines = larger a.deleted_lines b.deleted_lines;
    first_observed_at = min_iso_optional a.first_observed_at b.first_observed_at;
    last_observed_at = max_iso_optional a.last_observed_at b.last_observed_at;
  }

  unfoldable pub merge_evidence_record : QueryWorkEvidence → QueryWorkEvidence → QueryWorkEvidence
  unfolding merge_record
  merge_evidence_record a b =
      merge_record (get_or b.causal_write_artifacts_complete false)
        (merge_artifact_states (get_or a.artifact_states []) (get_or b.artifact_states [])) a b

  -- What the map keeps under a key.
  abbrev pub with_evidence : Option QueryWorkEvidence → QueryWorkEvidence → QueryWorkEvidence
  with_evidence none evidence = evidence
  with_evidence (some current) evidence = merge_evidence_record current evidence

  unfoldable pub add_evidence :
      List (String × QueryWorkEvidence) → List QueryWorkEvidence → List (String × QueryWorkEvidence)
  add_evidence by_query_repo [] = by_query_repo
  add_evidence by_query_repo (e ∷ es) =
      add_evidence
        (map_set (evidence_key e) (with_evidence (map_get (evidence_key e) by_query_repo) e)
          by_query_repo)
        es

  unfoldable pub merge_evidence :
      List QueryWorkEvidence → List QueryWorkEvidence → List QueryWorkEvidence
  merge_evidence existing next = values (add_evidence (index_from evidence_key [] existing) next)
