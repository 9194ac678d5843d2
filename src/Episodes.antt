-- ===== src/Episodes.antt =====
-- src/attribution/agenticWorkEpisode.ts: the tracker of work episodes, over the ledger of
-- src/storage/workEpisodeLedger.ts. A mutation is a function of the ledger; the queue runs them one
-- after another. `start` is not in that queue: the agent awaits it before it gives the tracker work.
pub mod Evidence
pub mod Store
pub mod Model
mod Sound
mod Kept
mod Steps
mod Progress
mod History
mod Saving
pub mod Compaction
pub mod Loads
mod Compacted
mod Census
mod Identities
mod Starting
mod Tests
mod Tracking
mod Reopening
use tirion_watch.Prelude.{
  ℕ, ◌*◌, String, Option, none, some, List, [], ◌∷◌, ◌++◌, map, Bool, true, false, not, ◌&&◌, ◌||◌,
  if◌then◌else◌, eqb, ltb, length, head?, includes, select, find, get_or, is_some, or_else, ◌===◌,
  text_comparable, option_comparable, str_leb, sorted_unique_strings, time_exceeds, first_some,
}
use mathlib.Core.List.{flat_map}
use tirion_watch.Attribution.{
  AttributionDecision, pending_evidence, reportable, rewrite_pending, expired, legacy_unverified,
  QueryWorkEvidence, WorkEpisodeStatus, open_, claimed, stale, AgenticWorkEpisode,
}
use tirion_watch.Episodes.Evidence.{evidence_key, max_iso, max_iso_optional, merge_evidence}
use tirion_watch.Episodes.Store.{
  WorkEpisodeQuery, any_episode, LedgerHost, Ledger, list_episodes, upsert_episode,
  status_comparable,
}
use tirion_watch.Episodes.Loads.{Loading, LedgerState, initialize}
use tirion_watch.Episodes.Model.{
  AgenticQueryRun, TrackerHost, EpisodeEvent, Mutated, done, and_then, default_stale_ms,
  session_grouping_id, session_grouping_id_from_episode, claimed_later, same_chat_session, run_time,
  query_activity_at, new_episode, stale_of, lookup_query, extended,
}

-- The tracker behind `start`, the number of joined episodes that it reports, the events of the single
-- episodes, and whether it threw.
pub record Started : Type 0 where
  pub running : Bool
  pub state : LedgerState
  pub reported : Option ℕ
  pub events : List EpisodeEvent
  pub threw : Bool

module _ (env : TrackerHost) where
  abbrev pub listed : WorkEpisodeQuery → Ledger → List AgenticWorkEpisode
  listed query ledger = list_episodes env.ledger_host query ledger

  unfoldable pub is_stale : AgenticWorkEpisode → String → Bool
  is_stale episode at =
      time_exceeds (env.ledger_host.host.get_time at)
        (env.ledger_host.host.get_time episode.last_agent_activity_at) env.stale_ms

  unfoldable pub event_of : AgenticWorkEpisode → String → Option String → EpisodeEvent
  event_of episode reason commit_hash = record {
    state = episode.status;
    reason = reason;
    episode_id = episode.episode_id;
    commit_hash = commit_hash;
    decision = get_or episode.decision pending_evidence;
  }

  unfoldable pub upsert : AgenticWorkEpisode → String → Option String → Ledger → Mutated
  upsert episode reason commit_hash ledger =
      let written = upsert_episode env.ledger_host episode ledger in
      record {
        ledger = written.ledger;
        events = if written.threw then [] else event_of episode reason commit_hash ∷ [];
        threw = written.threw;
      }

  -- A loop that saves each listed episode behind a change.
  unfoldable pub upsert_each :
      (AgenticWorkEpisode → AgenticWorkEpisode)
      → String
      → Option String
      → List AgenticWorkEpisode
      → Ledger
      → Mutated
  upsert_each change reason commit_hash [] ledger = done ledger
  upsert_each change reason commit_hash (e ∷ es) ledger =
      and_then (upsert (change e) reason commit_hash ledger)
        (upsert_each change reason commit_hash es)

  unfoldable pub mark_stale_open_episodes : String → Ledger → Mutated
  mark_stale_open_episodes at ledger =
      upsert_each stale_of "episode_stale" none
        (select (λ e. is_stale e at) (listed (record any_episode { status = some open_ }) ledger))
        ledger

  unfoldable pub continues_with : AgenticQueryRun → String → String → AgenticWorkEpisode → Bool
  continues_with run query_id at episode =
      (episode.status === open_
        || (episode.status === claimed
            && (includes episode.query_ids query_id
                || claimed_later episode.claimed_at at
                || same_chat_session episode run)))
      && not (is_stale episode at)
      && (session_grouping_id_from_episode episode === session_grouping_id run)

  -- A found episode is extended; a new one is saved first.
  unfoldable pub extend_found :
      AgenticQueryRun → String → String → Option AgenticWorkEpisode → Ledger → Mutated
  extend_found run query_id at (some episode) ledger =
      upsert (extended env run query_id episode) "episode_extended" none ledger
  extend_found run query_id at none ledger =
      let fresh = new_episode env run query_id at in
      and_then (upsert fresh "episode_created" none ledger)
        (upsert (extended env run query_id fresh) "episode_extended" none)

  unfoldable pub find_or_extend : AgenticQueryRun → String → String → Ledger → Mutated
  find_or_extend run query_id at ledger =
      extend_found run query_id at
        (find (continues_with run query_id at) (listed (lookup_query run query_id) ledger)) ledger

  unfoldable pub observe_query : AgenticQueryRun → String → Ledger → Mutated
  observe_query run query_id ledger =
      let at = run_time env run in
      and_then (mark_stale_open_episodes at ledger) (λ marked.
        if time_exceeds (some env.now) (env.ledger_host.host.get_time at) env.stale_ms
        then done marked
        else find_or_extend run query_id at marked)

  unfoldable pub observe_run : AgenticQueryRun → Ledger → Mutated
  observe_run run ledger =
      if get_or run.query_id "" === ""
      then done ledger
      else observe_query run (get_or run.query_id "") ledger

  -- The evidence of other queries, repositories and of the same epoch stays, and the item joins it.
  unfoldable pub bound_evidence :
      QueryWorkEvidence → List QueryWorkEvidence → List QueryWorkEvidence
  bound_evidence item evidence =
      merge_evidence env.ledger_host.host
        (select
          (λ e.
            not (e.query_id === item.query_id)
            || not (e.repo_key === item.repo_key)
            || (e.epoch_id === item.epoch_id))
          evidence)
        (item ∷ [])

  abbrev only : List String → Option String
  only (key ∷ []) = some key
  only _ = none

  abbrev option_list : Option String → List String
  option_list none = []
  option_list (some s) = s ∷ []

  unfoldable pub bound : QueryWorkEvidence → AgenticWorkEpisode → AgenticWorkEpisode
  bound item episode =
      let evidence = bound_evidence item episode.evidence in
      let repo_keys = sorted_unique_strings (get_or episode.repo_keys [] ++ item.repo_key ∷ []) in
      record episode {
        evidence = evidence;
        run_ids = sorted_unique_strings (episode.run_ids ++ item.run_ids);
        repo_keys = some repo_keys;
        epoch_ids = some (sorted_unique_strings (flat_map (λ e. option_list e.epoch_id) evidence));
        repo_key = only repo_keys;
        head_commit_at_start = or_else episode.head_commit_at_start item.head_commit_at_start;
        last_observed_change_at =
            max_iso_optional episode.last_observed_change_at
              (or_else item.last_observed_at item.first_observed_at);
        last_agent_activity_at =
            max_iso episode.last_agent_activity_at
              (get_or (or_else item.completed_at item.last_observed_at) item.started_at);
        decision = some pending_evidence;
      }

  unfoldable pub bind_found : QueryWorkEvidence → Option AgenticWorkEpisode → Ledger → Mutated
  bind_found item none ledger = done ledger
  bind_found item (some episode) ledger =
      upsert (bound item episode) "episode_evidence_bound" none ledger

  unfoldable pub bind_item : QueryWorkEvidence → Ledger → Mutated
  bind_item item ledger =
      bind_found item
        (find (λ e. includes e.query_ids item.query_id)
          (listed (record any_episode { query_id = some item.query_id }) ledger))
        ledger

  unfoldable pub observe_workspace_evidence : List QueryWorkEvidence → Ledger → Mutated
  observe_workspace_evidence [] ledger = done ledger
  observe_workspace_evidence (item ∷ evidence) ledger =
      and_then (bind_item item ledger) (observe_workspace_evidence evidence)

  abbrev pub claimed_for : String → String → AgenticWorkEpisode → AgenticWorkEpisode
  claimed_for commit_hash claimed_at episode = record episode {
    status = claimed;
    decision = some reportable;
    claimed_by_commit_hash = some commit_hash;
    claimed_at = some claimed_at;
  }

  unfoldable pub claim_found : String → String → Option AgenticWorkEpisode → Ledger → Mutated
  claim_found commit_hash claimed_at none ledger = done ledger
  claim_found commit_hash claimed_at (some episode) ledger =
      upsert (claimed_for commit_hash claimed_at episode) "episode_claimed" (some commit_hash)
        ledger

  unfoldable pub mark_claimed : String → String → String → Ledger → Mutated
  mark_claimed episode_id commit_hash claimed_at ledger =
      claim_found commit_hash claimed_at
        (head? (listed (record any_episode { episode_id = some episode_id }) ledger)) ledger

  abbrev pub reopened : AgenticWorkEpisode → AgenticWorkEpisode
  reopened episode = record episode {
    status = open_;
    decision = some rewrite_pending;
    claimed_by_commit_hash = none;
    claimed_at = none;
  }

  unfoldable pub reopen_superseded_commit : String → Ledger → Mutated
  reopen_superseded_commit commit_hash ledger =
      upsert_each reopened "history_rewrite_pending" (some commit_hash)
        (listed (record any_episode { commit_hash = some commit_hash }) ledger) ledger

  abbrev pub quarantined : AgenticWorkEpisode → AgenticWorkEpisode
  quarantined episode = record episode {
    status = WorkEpisodeStatus.expired;
    decision = some legacy_unverified;
  }

  -- One turn of the loop of `start`.
  unfoldable pub check_at_start : AgenticWorkEpisode → Ledger → Mutated
  check_at_start episode ledger =
      if eqb (get_or episode.observation_schema_version 0) 1
      then (if episode.status === open_ && is_stale episode env.now_iso
          then upsert (stale_of episode) "episode_stale" none ledger
          else done ledger)
      else upsert (quarantined episode) "legacy_episode_quarantined" none ledger

  unfoldable pub check_each : List AgenticWorkEpisode → Ledger → Mutated
  check_each [] ledger = done ledger
  check_each (e ∷ es) ledger = and_then (check_at_start e ledger) (check_each es)

  -- `start` behind the load of the ledger.
  unfoldable pub start_loaded : Ledger → Loading → Started
  start_loaded episodes loading =
      let checked = check_each (listed any_episode episodes) episodes in
      if loading.threw
      then record {
        running = true;
        state = record { episodes = episodes; loading = some loading };
        reported = none;
        events = [];
        threw = true;
      }
      else record {
        running = true;
        state = record { episodes = checked.ledger; loading = some loading };
        reported = if ltb 0 loading.removed then some loading.removed else none;
        events = checked.events;
        threw = checked.threw;
      }

  unfoldable pub start : List AgenticWorkEpisode → Bool → LedgerState → Started
  unfolding start_loaded
  start stored running state =
      let (episodes, loading) = initialize env.ledger_host stored state in
      if running
      then record { running = true; state = state; reported = none; events = []; threw = false }
      else start_loaded episodes loading
