-- ===== src/Episodes/Model.antt =====
-- src/attribution/agenticWorkEpisode.ts: what the tracker reads of a run and keeps of an episode, and the
-- changes of one episode that need no ledger.
use tirion_watch.Prelude.{
  ℕ, ◌*◌, String, Option, none, some, List, [], ◌∷◌, ◌++◌, Bool, true, false, not, ◌&&◌, ◌||◌,
  if◌then◌else◌, head?, includes, get_or, is_some, or_else, ◌===◌, text_comparable,
  option_comparable, str_leb, sorted_unique_strings,
}
use tirion_watch.Attribution.{
  AttributionDecision, pending_evidence, expired, WorkEpisodeStatus, open_, claimed, stale,
  AgenticWorkEpisode,
}
use tirion_watch.Episodes.Evidence.{max_iso}
use tirion_watch.Episodes.Store.{
  WorkEpisodeQuery, any_episode, LedgerHost, Ledger, status_comparable,
}

-- Of a run the fields stand that the tracker reads.
pub record AgenticQueryRun : Type 0 where
  pub id : String
  pub query_id : Option String
  pub query_started_at : Option String
  pub started_at : Option String
  pub ended_at : Option String
  pub chat_session_id : Option String
  pub copilot_session_id : Option String
  pub trace_chat_session_id : Option String
  pub trace_id : String

-- What a mutation is carried out with: `now()` and its text, and the next `randomUUID()`.
pub record TrackerHost : Type 0 where
  pub ledger_host : LedgerHost
  pub stale_ms : ℕ
  pub now : ℕ
  pub now_iso : String
  pub random_uuid : String

pub record EpisodeEvent : Type 0 where
  pub state : WorkEpisodeStatus
  pub reason : String
  pub episode_id : String
  pub commit_hash : Option String
  pub decision : AttributionDecision

-- The ledger behind a mutation, the recorded events, and whether an exception ended it.
pub record Mutated : Type 0 where
  pub ledger : Ledger
  pub events : List EpisodeEvent
  pub threw : Bool

abbrev pub done : Ledger → Mutated
done ledger = record { ledger = ledger; events = []; threw = false }

continue : Mutated → Mutated → Mutated
continue first rest = record {
  ledger = rest.ledger;
  events = first.events ++ rest.events;
  threw = rest.threw;
}

-- Two statements: an exception of the first skips the second.
unfoldable pub and_then : Mutated → (Ledger → Mutated) → Mutated
unfolding continue
and_then first next = if first.threw then first else continue first (next first.ledger)

abbrev pub default_stale_ms : ℕ
default_stale_ms = 4 * 60 * 60 * 1000

unfoldable pub session_grouping_id : AgenticQueryRun → String
session_grouping_id run =
    get_or
      (or_else run.chat_session_id
        (or_else run.copilot_session_id (or_else run.trace_chat_session_id run.query_id)))
      run.trace_id

unfoldable pub session_grouping_id_from_episode : AgenticWorkEpisode → String
session_grouping_id_from_episode episode =
    get_or (or_else episode.chat_session_id (head? episode.query_ids)) episode.episode_id

unfoldable pub same_chat_session : AgenticWorkEpisode → AgenticQueryRun → Bool
same_chat_session episode run =
    is_some episode.chat_session_id && (episode.chat_session_id === run.chat_session_id)

-- The claim of an episode does not lie before `at`.
abbrev pub claimed_later : Option String → String → Bool
claimed_later none at = true
claimed_later (some claimed_at) at = str_leb at claimed_at

unfoldable pub run_time : TrackerHost → AgenticQueryRun → String
run_time env run = get_or (or_else run.query_started_at run.started_at) env.now_iso

unfoldable pub query_activity_at : TrackerHost → AgenticQueryRun → String
query_activity_at env run =
    get_or (or_else run.ended_at (or_else run.started_at run.query_started_at)) (run_time env run)

unfoldable pub new_episode : TrackerHost → AgenticQueryRun → String → String → AgenticWorkEpisode
new_episode env run query_id at = record {
  observation_schema_version = some 1;
  episode_id = env.random_uuid;
  repo_key = none;
  repo_keys = some [];
  epoch_ids = some [];
  chat_session_id = run.chat_session_id;
  query_ids = query_id ∷ [];
  run_ids = run.id ∷ [];
  head_commit_at_start = none;
  started_at = at;
  last_query_activity_at = some at;
  last_agent_activity_at = at;
  last_observed_change_at = none;
  status = open_;
  evidence = [];
  claimed_by_commit_hash = none;
  claimed_at = none;
  decision = some pending_evidence;
  confidence = none;
  confidence_reasons = none;
}

abbrev pub stale_of : AgenticWorkEpisode → AgenticWorkEpisode
stale_of episode = record episode { status = stale; decision = some expired }

-- The filter that the lookup of an episode for a run gives to the ledger.
unfoldable pub lookup_query : AgenticQueryRun → String → WorkEpisodeQuery
lookup_query run query_id =
    if get_or run.chat_session_id "" === ""
    then record any_episode { query_id = some query_id }
    else record any_episode { chat_session_id = run.chat_session_id }

unfoldable pub extended :
    TrackerHost → AgenticQueryRun → String → AgenticWorkEpisode → AgenticWorkEpisode
extended env run query_id episode =
    let at = query_activity_at env run in
    record episode {
      query_ids = sorted_unique_strings (episode.query_ids ++ query_id ∷ []);
      run_ids = sorted_unique_strings (episode.run_ids ++ run.id ∷ []);
      last_query_activity_at =
          some (max_iso (get_or episode.last_query_activity_at episode.last_agent_activity_at) at);
      last_agent_activity_at = max_iso episode.last_agent_activity_at at;
      decision =
          if not (episode.status === claimed) || not (includes episode.query_ids query_id)
          then some pending_evidence
          else episode.decision;
    }
