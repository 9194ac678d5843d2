-- ===== src/Episodes/Tests.antt =====
-- A session with two queries, its evidence, a claim and its end.
use mathlib.Core.List.{Memᴰ, flat_map}
use tirion_watch.Prelude.{
  includes, any, how_many, ◌≤◌, eq_iff, arith, String, Option, none, some, List, [], ◌∷◌, ◌≡◌, ◌≢◌,
  refl, subst, ap, get_or, map, true, false, map_get, map_set, index_from, dedup,
  sorted_unique_strings, unique_strings, sort_by, insert_sorted, text_comparable, str_leb, units,
  values, is_blank,
}
use tirion_watch.Attribution.{
  QueryWorkEvidence, AgenticWorkEpisode, open_, claimed, pending_evidence, reportable,
  rewrite_pending,
}
use tirion_watch.CommitPolicy.Tests.{sample_evidence, sample_host}
use tirion_watch.Episodes.Evidence.{
  evidence_key, max_iso, max_iso_optional, min_iso_optional, merge_artifact_states,
  merge_causal_write_artifacts, merge_pairs, merge_record, merge_evidence_record, add_evidence,
  merge_evidence,
}
use tirion_watch.Episodes.Store.{
  Ledger, normalize_episode, matches_query, list_episodes, unchanged, upsert_episode,
}
use tirion_watch.Episodes.Model.{
  AgenticQueryRun, TrackerHost, and_then, session_grouping_id, session_grouping_id_from_episode,
  same_chat_session, run_time, query_activity_at, new_episode, lookup_query, extended,
  default_stale_ms,
}
use tirion_watch.Episodes.{
  is_stale, event_of, upsert, upsert_each, mark_stale_open_episodes, continues_with, extend_found,
  find_or_extend, observe_query, observe_run, bound_evidence, bound, bind_found, bind_item,
  observe_workspace_evidence, claim_found, mark_claimed, reopen_superseded_commit, check_at_start,
  check_each, start_loaded, start,
}
use tirion_watch.Episodes.Sound.{IsKept}
use tirion_watch.Episodes.Steps.{
  Mutates, run_observed, evidence_observed, observation, commit_claimed, mutation, Reachable, empty,
  step, reachable_IsKept,
}
use tirion_watch.Episodes.History.{
  Grows, start_here, then_mutation, none_yet, then_observed, episodes_only_grow, claims_survive,
}
use tirion_watch.Episodes.Reopening.{superseded_claims_nothing, other_claims_stay}
use tirion_watch.Episodes.Tracking.{IsTracked, run_joins_episode}
use tirion_watch.Episodes.Compaction.{
  episode_group_key, should_merge_episodes, joined_episode, merge_episodes, join_cluster,
  group_episodes, earliest_first, compact_episodes, compact_evidence, compacted_evidence,
  load_and_compact,
}
use tirion_watch.Episodes.Loads.{initialize, first_load}
use tirion_watch.Episodes.Identities.{has_id}
use tirion_watch.Episodes.Starting.{start_keeps_queries}
use tirion_watch.Episodes.Compacted.{compaction_keeps_queries}
use tirion_watch.Episodes.Census.{IsRenewed, complete_census_replaces}

-- Every write goes through, and changes the text.
abbrev env : String → TrackerHost
env uuid = record {
  ledger_host = record {
    host = sample_host;
    validate_attribution = λ e. true;
    same_text = λ a b. false;
  };
  stale_ms = default_stale_ms;
  now = 36000000;
  now_iso = "10:00";
  random_uuid = uuid;
}

abbrev run : String → AgenticQueryRun
run query = record {
  id = "r1";
  query_id = some query;
  query_started_at = some "09:00";
  started_at = some "09:00";
  ended_at = none;
  chat_session_id = some "chat";
  copilot_session_id = none;
  trace_chat_session_id = none;
  trace_id = "t1";
}

program : Unit {0}
unfolding evidence_key max_iso max_iso_optional min_iso_optional merge_artifact_states
    merge_causal_write_artifacts merge_pairs merge_record merge_evidence_record add_evidence
    merge_evidence normalize_episode matches_query list_episodes unchanged upsert_episode and_then
    session_grouping_id session_grouping_id_from_episode same_chat_session run_time
    query_activity_at new_episode lookup_query extended is_stale event_of upsert upsert_each
    mark_stale_open_episodes continues_with extend_found find_or_extend observe_query observe_run
    bound_evidence bound bind_found bind_item observe_workspace_evidence claim_found mark_claimed
    reopen_superseded_commit check_at_start check_each start map_get map_set index_from dedup
    sorted_unique_strings unique_strings sort_by insert_sorted str_leb units is_blank
program = tt

abbrev with_queries : List String → AgenticWorkEpisode
with_queries queries = record {
  observation_schema_version = some 1;
  episode_id = "e1";
  repo_key = none;
  repo_keys = some [];
  epoch_ids = some [];
  chat_session_id = some "chat";
  query_ids = queries;
  run_ids = "r1" ∷ [];
  head_commit_at_start = none;
  started_at = "09:00";
  last_query_activity_at = some "09:00";
  last_agent_activity_at = "09:00";
  last_observed_change_at = none;
  status = open_;
  evidence = [];
  claimed_by_commit_hash = none;
  claimed_at = none;
  decision = some pending_evidence;
  confidence = none;
  confidence_reasons = none;
}

abbrev claimed_episode : AgenticWorkEpisode
claimed_episode = record (with_queries ("q1" ∷ "q2" ∷ [])) {
  status = claimed;
  claimed_by_commit_hash = some "abc";
  claimed_at = some "10:00";
  decision = some reportable;
}

abbrev first : Ledger
first = ("e1", with_queries ("q1" ∷ [])) ∷ []

-- The second query of the session joins its episode.
abbrev second : Ledger
second = ("e1", with_queries ("q1" ∷ "q2" ∷ [])) ∷ []

abbrev claimed_ledger : Ledger
claimed_ledger = ("e1", claimed_episode) ∷ []

abbrev reopened_episode : AgenticWorkEpisode
reopened_episode = record (with_queries ("q1" ∷ "q2" ∷ [])) { decision = some rewrite_pending }

observed_first : (observe_run (env "e1") (run "q1") []).ledger ≡ first
unfolding program
observed_first = refl

observed_second : (observe_run (env "e2") (run "q2") first).ledger ≡ second
unfolding program
observed_second = refl

marked_claimed : (mark_claimed (env "e3") "e1" "abc" "10:00" second).ledger ≡ claimed_ledger
unfolding program
marked_claimed = refl

-- The file of a repository is bound to the episode.
evidence_is_bound :
    map
      (λ (e : AgenticWorkEpisode). e.repo_key)
      (values (observe_workspace_evidence (env "e3") (sample_evidence "q1" ∷ []) second).ledger)
    ≡ some "repo" ∷ []
unfolding program
evidence_is_bound = refl

abbrev no_episodes : Ledger
no_episodes = []

first_fresh : map_get "e1" no_episodes ≡ none
unfolding map_get
first_fresh = refl

second_fresh : map_get "e2" first ≡ none
unfolding program
second_fresh = refl

reachable_first : Reachable first
reachable_first =
    subst Reachable observed_first
      (step empty (mutation (observation (run_observed (env "e1") (run "q1") first_fresh))))

second_joined : Mutates first second
second_joined =
    subst (Mutates first) observed_second
      (observation (run_observed (env "e2") (run "q2") second_fresh))

reachable_second : Reachable second
reachable_second = step reachable_first (mutation second_joined)

reachable_claimed : Reachable claimed_ledger
reachable_claimed =
    subst Reachable marked_claimed
      (step reachable_second (mutation (commit_claimed (env "e3") "e1" "abc" "10:00")))

held_first : map_get "e1" first ≡ some (with_queries ("q1" ∷ []))
unfolding program
held_first = refl

held_claimed : map_get "e1" claimed_ledger ≡ some claimed_episode
unfolding program
held_claimed = refl

reachable_IsKept_example : IsKept claimed_ledger
reachable_IsKept_example = reachable_IsKept reachable_claimed

episodes_only_grow_example :
    (later : AgenticWorkEpisode) × (map_get "e1" second ≡ some later)
    × Grows (with_queries ("q1" ∷ [])) later
episodes_only_grow_example =
    episodes_only_grow "e1" (with_queries ("q1" ∷ [])) reachable_first
      (then_mutation start_here second_joined) held_first

claims_survive_example :
    (later : AgenticWorkEpisode) × (map_get "e1"
        (observe_workspace_evidence (env "e4") (sample_evidence "q2" ∷ []) claimed_ledger).ledger
      ≡ some later)
    × (later.status ≡ claimed)
    × (later.claimed_by_commit_hash ≡ claimed_episode.claimed_by_commit_hash)
    × (later.claimed_at ≡ claimed_episode.claimed_at)
claims_survive_example =
    claims_survive "e1" claimed_episode reachable_claimed
      (then_observed none_yet (evidence_observed (env "e4") (sample_evidence "q2" ∷ [])))
      held_claimed refl

texts_tell : (a b : AgenticWorkEpisode) → false ≡ true → a ≡ b
texts_tell a b h = absurd (cc h)

quiet_reopening : (reopen_superseded_commit (env "e3") "abc" claimed_ledger).threw ≡ false
unfolding program
quiet_reopening = refl

held_reopened :
    map_get "e1" (reopen_superseded_commit (env "e3") "abc" claimed_ledger).ledger
    ≡ some reopened_episode
unfolding program
held_reopened = refl

superseded_claims_nothing_example : reopened_episode.claimed_by_commit_hash ≢ some "abc"
superseded_claims_nothing_example =
    superseded_claims_nothing (env "e3") "abc" claimed_ledger "e1" reopened_episode
      reachable_claimed texts_tell quiet_reopening held_reopened

abbrev claim_of : Option String → String
claim_of o = get_or o ""

other_commit : claimed_episode.claimed_by_commit_hash ≢ some "other"
other_commit e = absurd (different (ap claim_of e))
  where
    different : ◌≢◌ {A = String} "abc" "other"
    different q = cc q

other_claims_stay_example :
    map_get "e1" (reopen_superseded_commit (env "e3") "other" claimed_ledger).ledger
    ≡ some claimed_episode
other_claims_stay_example =
    other_claims_stay (env "e3") "other" claimed_ledger "e1" claimed_episode reachable_claimed
      (λ e. cc e) held_claimed other_commit

run_joins_episode_example :
    IsTracked (env "e2") (run "q2") "q2" (observe_run (env "e2") (run "q2") first).ledger
unfolding program
run_joins_episode_example =
    run_joins_episode (env "e2") (run "q2") "q2" first texts_tell refl refl refl refl refl

complete_census_replaces_example :
    (merged : QueryWorkEvidence) × Memᴰ merged
      (merge_evidence sample_host (sample_evidence "q1" ∷ []) (sample_evidence "q1" ∷ []))
    × IsRenewed sample_host (sample_evidence "q1") merged
complete_census_replaces_example =
    complete_census_replaces sample_host (sample_evidence "q1" ∷ []) (sample_evidence "q1") refl

-- A claimed and an open episode with a query in common.
abbrev stored : List AgenticWorkEpisode
stored = claimed_episode ∷ record (with_queries ("q2" ∷ "q3" ∷ [])) { episode_id = "e2" } ∷ []

compacted_once :
    map (λ (e : AgenticWorkEpisode). e.query_ids) (compact_episodes sample_host stored)
    ≡ ("q1" ∷ "q2" ∷ "q3" ∷ []) ∷ []
unfolding program episode_group_key should_merge_episodes joined_episode merge_episodes join_cluster
    group_episodes earliest_first compact_episodes compact_evidence compacted_evidence flat_map
compacted_once = refl

compaction_keeps_queries_example :
    any (λ c. includes c.query_ids "q2") (compact_episodes sample_host stored) ≡ true
unfolding program
compaction_keeps_queries_example =
    compaction_keeps_queries sample_host "q2" refl stored claimed_episode (Memᴰ.head refl) refl

e1-ne-e2 : ◌≢◌ {A = String} "e1" "e2"
e1-ne-e2 q = cc ((eq_iff "e1" "e2").1 q)

stored_once : (id : String) → how_many (has_id id) stored ≤ 1
stored_once id = ground (arith, eq_iff "e1" id, eq_iff "e2" id, e1-ne-e2)

start_keeps_queries_example :
    any
      (λ c. includes c.query_ids "q3")
      (values
        (start (env "e3") stored false (record { episodes = []; loading = none })).state.episodes)
    ≡ true
start_keeps_queries_example =
    start_keeps_queries (env "e3") "q3" (unfold is_blank in refl) stored []
      (record (with_queries ("q2" ∷ "q3" ∷ [])) { episode_id = "e2" }) stored_once
      (Memᴰ.tail (Memᴰ.head refl)) refl

-- The start joins the two episodes, and reports one.
started_once :
    (start (env "e3") stored false (record { episodes = []; loading = none })).reported ≡ some 1
unfolding program episode_group_key should_merge_episodes joined_episode merge_episodes join_cluster
    group_episodes earliest_first compact_episodes compact_evidence compacted_evidence flat_map
    start_loaded initialize first_load load_and_compact
started_once = refl
