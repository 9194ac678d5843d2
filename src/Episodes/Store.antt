-- ===== src/Episodes/Store.antt =====
-- src/storage/workEpisodeLedger.ts: the map of episodes behind the file. The privacy guard and the
-- comparison of the JSON texts are parameters; reading and writing the file are not modelled.
use tirion_watch.Prelude.{
  ℕ, zero, suc, ◌+◌, ◌*◌, String, Option, none, some, List, [], ◌∷◌, map, Bool, true, false, not,
  ◌&&◌, ◌||◌, if◌then◌else◌, any, every, select, get_or, includes, ◌===◌, text_comparable,
  option_comparable, Comparable, eqb_iff, eqb→eq, refl, sym, ap, subst, ◌∙◌, ◌↔◌, ◌≡◌, str_leb,
  map_get, map_set, values, index_from, sort_by, sorted_unique_strings, Host, time_leb, at_most,
  length, eqb,
}
use tirion_watch.Attribution.{
  QueryWorkEvidence, WorkEpisodeStatus, open_, claimed, stale, manual_review, expired,
  AgenticWorkEpisode,
}

pub record DateRange : Type 0 where
  pub from : String
  pub to : String

pub record WorkEpisodeQuery : Type 0 where
  pub limit : Option ℕ
  pub range : Option DateRange
  pub episode_id : Option String
  pub repo_key : Option String
  pub commit_hash : Option String
  pub status : Option WorkEpisodeStatus
  pub query_id : Option String
  pub run_id : Option String
  pub chat_session_id : Option String

abbrev pub any_episode : WorkEpisodeQuery
any_episode = record {
  limit = none;
  range = none;
  episode_id = none;
  repo_key = none;
  commit_hash = none;
  status = none;
  query_id = none;
  run_id = none;
  chat_session_id = none;
}

-- What the ledger is made with: `privacyGuard.validateAttribution(episode).ok`, and whether two
-- episodes have the same JSON text.
pub record LedgerHost : Type 0 where
  pub host : Host
  pub validate_attribution : AgenticWorkEpisode → Bool
  pub same_text : AgenticWorkEpisode → AgenticWorkEpisode → Bool

abbrev pub Ledger : Type 0
Ledger = List (String × AgenticWorkEpisode)

-- The episodes behind a write, and whether it threw.
pub record Written : Type 0 where
  pub ledger : Ledger
  pub threw : Bool

abbrev pub repo_keys_of : AgenticWorkEpisode → List String
repo_keys_of episode = get_or episode.repo_keys (alone episode.repo_key)
  where
    alone : Option String → List String
    alone none = []
    alone (some key) = if key === "" then [] else key ∷ []

normalize_evidence : QueryWorkEvidence → QueryWorkEvidence
normalize_evidence evidence = record evidence {
  run_ids = sorted_unique_strings evidence.run_ids;
  baseline_reasons = sorted_unique_strings evidence.baseline_reasons;
  artifact_keys = sorted_unique_strings evidence.artifact_keys;
}

unfoldable pub normalize_episode : AgenticWorkEpisode → AgenticWorkEpisode
unfolding normalize_evidence
normalize_episode episode = record episode {
  repo_keys = some (sorted_unique_strings (repo_keys_of episode));
  epoch_ids = some (sorted_unique_strings (get_or episode.epoch_ids []));
  query_ids = sorted_unique_strings episode.query_ids;
  run_ids = sorted_unique_strings episode.run_ids;
  evidence = map normalize_evidence episode.evidence;
  confidence_reasons = elim episode.confidence_reasons [
    | none ↦ none
    | some reasons ↦ some (sorted_unique_strings reasons)
  ];
}

abbrev pub status_number : WorkEpisodeStatus → ℕ
status_number open_ = 0
status_number claimed = 1
status_number stale = 2
status_number manual_review = 3
status_number expired = 4

numbered_status : ℕ → WorkEpisodeStatus
numbered_status n =
    if eqb n 0
    then open_
    else if eqb n 1
    then claimed
    else if eqb n 2
    then stale
    else if eqb n 3
    then manual_review
    else expired

status_number-numbered : (s : WorkEpisodeStatus) → numbered_status (status_number s) ≡ s
unfolding numbered_status
status_number-numbered open_ = refl
status_number-numbered claimed = refl
status_number-numbered stale = refl
status_number-numbered manual_review = refl
status_number-numbered expired = refl

pub status_equal_iff :
    (s t : WorkEpisodeStatus) → (eqb (status_number s) (status_number t) ≡ true) ↔ (s ≡ t)
status_equal_iff s t = (
  (λ h.
      sym (status_number-numbered s)
      ∙ ap numbered_status (eqb→eq (status_number s) (status_number t) h)
      ∙ status_number-numbered t),
  (λ h.
      subst (λ u. eqb (status_number s) (status_number u) ≡ true) h
        ((eqb_iff (status_number s) (status_number s)).1 refl)),
)

instance abbrev pub status_comparable : Comparable WorkEpisodeStatus
status_comparable = record {
  equal = λ s t. eqb (status_number s) (status_number t);
  equal_iff = status_equal_iff;
}

-- A filter by a text that the query gives; the empty text filters nothing.
filters : Option String → (String → Bool) → Bool
filters none test = true
filters (some wanted) test = wanted === "" || test wanted

in_range : Option DateRange → String → Bool
in_range none at = true
in_range (some range) at = str_leb range.from at && str_leb at range.to

has_status : Option WorkEpisodeStatus → WorkEpisodeStatus → Bool
has_status none status = true
has_status (some wanted) status = status === wanted

unfoldable pub matches_query : WorkEpisodeQuery → AgenticWorkEpisode → Bool
unfolding filters in_range has_status
matches_query query episode =
    filters query.episode_id (λ wanted. episode.episode_id === wanted)
    && filters query.repo_key (λ wanted.
      episode.repo_key === some wanted || includes (get_or episode.repo_keys []) wanted)
    && filters query.commit_hash (λ wanted. episode.claimed_by_commit_hash === some wanted)
    && has_status query.status episode.status
    && in_range query.range episode.last_agent_activity_at

take_some {ℓ} : {A : Type ℓ} → ℕ → List A → List A
take_some zero xs = []
take_some (suc n) [] = []
take_some (suc n) (x ∷ xs) = x ∷ take_some n xs

limited {ℓ} : {A : Type ℓ} → Option ℕ → List A → List A
unfolding take_some
limited none xs = xs
limited (some n) xs = take_some n xs

module _ (env : LedgerHost) where
  -- `b.lastAgentActivityAt.localeCompare(a.lastAgentActivityAt) <= 0`
  abbrev pub latest_activity_first : AgenticWorkEpisode → AgenticWorkEpisode → Bool
  latest_activity_first a b =
      at_most (env.host.locale_compare b.last_agent_activity_at a.last_agent_activity_at)

  unfoldable pub list_episodes : WorkEpisodeQuery → Ledger → List AgenticWorkEpisode
  unfolding limited
  list_episodes query ledger =
      limited query.limit
        (sort_by latest_activity_first (select (matches_query query) (values ledger)))

  unfoldable pub unchanged : Option AgenticWorkEpisode → AgenticWorkEpisode → Bool
  unchanged none next = false
  unchanged (some existing) next = env.same_text existing next

  -- The write validates every episode of the map, behind the change of the map.
  unfoldable pub upsert_episode : AgenticWorkEpisode → Ledger → Written
  upsert_episode episode ledger =
      let next = normalize_episode episode in
      let changed = map_set next.episode_id next ledger in
      if not (env.validate_attribution episode)
      then record { ledger = ledger; threw = true }
      else if unchanged (map_get next.episode_id ledger) next
      then record { ledger = ledger; threw = false }
      else record {
        ledger = changed;
        threw = not (every env.validate_attribution (values changed));
      }

  abbrev day_ms : ℕ
  day_ms = 24 * 60 * 60 * 1000

  -- The query identities that are kept, or else the days; both tell of an episode whether it stays.
  abbrev pub retains : ℕ → ℕ → Option (List String) → AgenticWorkEpisode → Bool
  retains now days (some retained) episode = any (λ q. includes retained q) episode.query_ids
  retains now days none episode =
      time_leb (some now) (later (env.host.get_time episode.last_agent_activity_at))
    where
      later : Option ℕ → Option ℕ
      later none = none
      later (some at) = some (at + days * day_ms)

  unfoldable pub apply_retention : ℕ → ℕ → Option (List String) → Ledger → Written
  apply_retention now days retained_query_ids ledger =
      let retained = select (retains now days retained_query_ids) (values ledger) in
      let kept = index_from (λ e. e.episode_id) [] retained in
      if eqb days 0 || eqb (length retained) (length ledger)
      then record { ledger = ledger; threw = false }
      else record { ledger = kept; threw = not (every env.validate_attribution (values kept)) }
