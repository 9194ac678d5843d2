-- ===== src/Episodes/Compaction.antt =====
-- src/storage/workEpisodeLedger.ts: the load of the ledger joins stored episodes that belong together.
use Prim.Native.String
use tirion_watch.Prelude.{
  ℕ, ◌+◌, ◌*◌, String, Option, none, some, List, [], ◌∷◌, ◌++◌, map, Bool, true, false, not, ◌&&◌,
  ◌||◌, if◌then◌else◌, leb, any, length, get_or, or_else, includes, dedup, ◌===◌, text_comparable,
  option_comparable, str_leb, map_get, map_set, values, index_from, sort_by, sorted_unique_strings,
  at_most, Host,
}
use mathlib.Core.List.{flat_map}
use tirion_watch.Attribution.{
  QueryWorkEvidence, WorkEpisodeStatus, open_, claimed, stale, manual_review, AgenticWorkEpisode,
}
use tirion_watch.Episodes.Evidence.{
  evidence_key, larger, max_iso_optional, min_iso_optional, merge_artifact_states,
}
use tirion_watch.Episodes.Store.{Ledger, normalize_episode, repo_keys_of, status_comparable}

intersects : List String → List String → Bool
intersects a b = any (λ value. includes a value) b

truthy : Option String → Bool
truthy text = not (get_or text "" === "")

joined_texts : List String → String
joined_texts [] = ""
joined_texts (s ∷ []) = s
joined_texts (s ∷ t ∷ ts) = String.◌++◌ s (String.◌++◌ "," (joined_texts (t ∷ ts)))

or_text : String → String → String
or_text text default = if text === "" then default else text

unfoldable pub episode_group_key : AgenticWorkEpisode → String
unfolding joined_texts or_text
episode_group_key episode =
    String.◌++◌ (or_text (joined_texts (repo_keys_of episode)) "repo-unbound") (
      String.◌++◌ ":" (
        String.◌++◌ (get_or episode.chat_session_id (joined_texts episode.query_ids))
          (String.◌++◌ ":" (get_or episode.head_commit_at_start "head-unavailable"))))

-- The first begins four hours after the second ends at the latest; a date that cannot be read is no gap.
within_gap : Option ℕ → Option ℕ → Bool
within_gap (some started) (some ended) = leb started (ended + 4 * 60 * 60 * 1000)
within_gap _ _ = false

unfoldable pub should_merge_episodes : Host → AgenticWorkEpisode → AgenticWorkEpisode → Bool
unfolding truthy intersects within_gap
should_merge_episodes host a b =
    if truthy a.claimed_by_commit_hash && (a.claimed_by_commit_hash === b.claimed_by_commit_hash)
    then true
    else if intersects a.query_ids b.query_ids || intersects a.run_ids b.run_ids
    then true
    else if truthy a.claimed_by_commit_hash
        || truthy b.claimed_by_commit_hash
        || (a.status === claimed)
        || (b.status === claimed)
    then false
    else within_gap (host.get_time b.started_at) (host.get_time a.last_agent_activity_at)

-- The evidence that the load joins; unlike that of the tracker it knows no census of causal writes.
unfoldable pub compacted_evidence : QueryWorkEvidence → QueryWorkEvidence → QueryWorkEvidence
unfolding larger
compacted_evidence current item = record current {
  run_ids = sorted_unique_strings (current.run_ids ++ item.run_ids);
  completed_at = max_iso_optional current.completed_at item.completed_at;
  baseline_trusted = current.baseline_trusted && item.baseline_trusted;
  baseline_reasons = sorted_unique_strings (current.baseline_reasons ++ item.baseline_reasons);
  dirty_at_start = current.dirty_at_start || item.dirty_at_start;
  observed_change_count = length (dedup (current.artifact_keys ++ item.artifact_keys));
  artifact_keys = sorted_unique_strings (current.artifact_keys ++ item.artifact_keys);
  artifact_states =
      some (
        merge_artifact_states (get_or current.artifact_states []) (get_or item.artifact_states []));
  added_lines = larger current.added_lines item.added_lines;
  deleted_lines = larger current.deleted_lines item.deleted_lines;
  first_observed_at = min_iso_optional current.first_observed_at item.first_observed_at;
  last_observed_at = max_iso_optional current.last_observed_at item.last_observed_at;
}

abbrev with_compacted : Option QueryWorkEvidence → QueryWorkEvidence → QueryWorkEvidence
with_compacted none item = item
with_compacted (some current) item = compacted_evidence current item

add_compacted :
    List (String × QueryWorkEvidence) → List QueryWorkEvidence → List (String × QueryWorkEvidence)
unfolding compacted_evidence
add_compacted by_query_repo [] = by_query_repo
add_compacted by_query_repo (e ∷ es) =
    add_compacted
      (map_set (evidence_key e) (with_compacted (map_get (evidence_key e) by_query_repo) e)
        by_query_repo)
      es

unfoldable pub compact_evidence :
    List QueryWorkEvidence → List QueryWorkEvidence → List QueryWorkEvidence
unfolding add_compacted
compact_evidence a b = values (add_compacted (index_from evidence_key [] a) b)

abbrev episode_status_priority : WorkEpisodeStatus → ℕ
episode_status_priority claimed = 4
episode_status_priority manual_review = 3
episode_status_priority open_ = 2
episode_status_priority stale = 1
episode_status_priority WorkEpisodeStatus.expired = 1

confidence_priority : Option String → ℕ
confidence_priority confidence =
    if confidence === some "high" then 3 else if confidence === some "medium" then 2 else 1

abbrev only_text : List String → Option String
only_text (key ∷ []) = some key
only_text _ = none

preferred_id : AgenticWorkEpisode → AgenticWorkEpisode → String
unfolding truthy
preferred_id a b =
    if truthy a.claimed_by_commit_hash
    then a.episode_id
    else if truthy b.claimed_by_commit_hash
    then b.episode_id
    else a.episode_id

unfoldable pub joined_episode : AgenticWorkEpisode → AgenticWorkEpisode → AgenticWorkEpisode
unfolding preferred_id truthy confidence_priority
joined_episode a b =
    let repo_keys = sorted_unique_strings (get_or a.repo_keys [] ++ get_or b.repo_keys []) in
    let claimed_by = or_else a.claimed_by_commit_hash b.claimed_by_commit_hash in
    record a {
      episode_id = preferred_id a b;
      repo_key = only_text repo_keys;
      repo_keys = some repo_keys;
      epoch_ids = some (sorted_unique_strings (get_or a.epoch_ids [] ++ get_or b.epoch_ids []));
      query_ids = sorted_unique_strings (a.query_ids ++ b.query_ids);
      run_ids = sorted_unique_strings (a.run_ids ++ b.run_ids);
      started_at = if str_leb a.started_at b.started_at then a.started_at else b.started_at;
      last_agent_activity_at =
          if str_leb a.last_agent_activity_at b.last_agent_activity_at
          then b.last_agent_activity_at
          else a.last_agent_activity_at;
      last_observed_change_at =
          max_iso_optional a.last_observed_change_at b.last_observed_change_at;
      status =
          if truthy claimed_by
          then claimed
          else if leb (episode_status_priority b.status) (episode_status_priority a.status)
          then a.status
          else b.status;
      claimed_by_commit_hash = claimed_by;
      claimed_at = max_iso_optional a.claimed_at b.claimed_at;
      evidence = compact_evidence a.evidence b.evidence;
      decision = or_else a.decision b.decision;
      confidence =
          if leb (confidence_priority b.confidence) (confidence_priority a.confidence)
          then a.confidence
          else b.confidence;
      confidence_reasons = some (
          sorted_unique_strings (get_or a.confidence_reasons [] ++ get_or b.confidence_reasons []));
    }

unfoldable pub merge_episodes : AgenticWorkEpisode → AgenticWorkEpisode → AgenticWorkEpisode
unfolding joined_episode
merge_episodes a b = normalize_episode (joined_episode a b)

module _ (host : Host) where
  -- The first episode of the clusters that the new one belongs to takes it in, or it comes last.
  unfoldable pub join_cluster :
      AgenticWorkEpisode → List AgenticWorkEpisode → List AgenticWorkEpisode
  join_cluster episode [] = episode ∷ []
  join_cluster episode (c ∷ cs) =
      let later = c ∷ join_cluster episode cs in
      if should_merge_episodes host c episode then merge_episodes c episode ∷ cs else later

  unfoldable pub group_episodes :
      List (String × List AgenticWorkEpisode)
      → List AgenticWorkEpisode
      → List (String × List AgenticWorkEpisode)
  group_episodes groups [] = groups
  group_episodes groups (e ∷ es) =
      let key = episode_group_key e in
      group_episodes (map_set key (join_cluster e (get_or (map_get key groups) [])) groups) es

  unfoldable pub earliest_first : AgenticWorkEpisode → AgenticWorkEpisode → Bool
  earliest_first a b = at_most (host.locale_compare a.started_at b.started_at)

  unfoldable pub compact_episodes : List AgenticWorkEpisode → List AgenticWorkEpisode
  compact_episodes stored =
      flat_map (λ cluster. cluster)
        (values (group_episodes [] (sort_by earliest_first (map normalize_episode stored))))

  -- The map of the ledger behind the load.
  unfoldable pub load_and_compact : List AgenticWorkEpisode → Ledger
  load_and_compact stored = index_from (λ e. e.episode_id) [] (compact_episodes stored)
