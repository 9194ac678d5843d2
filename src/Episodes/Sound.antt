-- ===== src/Episodes/Sound.antt =====
-- The episodes of a ledger are in order, whatever the tracker does.
use mathlib.Core.List.{Memᴰ}
use tirion_watch.Prelude.{
  String, none, some, List, [], ◌≡◌, refl, sym, subst, true, not, if_ind, All, includes, IsUnique,
  IsSorted, is_present, get_or, select, text_comparable, str_leb, map_get, map_set, keys, values,
  map_set-IsUnique, All-map_set, All-map_get, Memᴰ-map_get, Memᴰ-sort_by, Memᴰ-select,
  sorted_unique_strings, sorted_unique_strings-IsUnique, sorted_unique_strings-IsSorted,
  includes-sorted_unique_strings, is_some, arith,
}
use tirion_watch.Attribution.{open_, claimed, AgenticWorkEpisode}
use tirion_watch.Episodes.Store.{
  WorkEpisodeQuery, LedgerHost, Ledger, Written, normalize_episode, matches_query, list_episodes,
  latest_activity_first, unchanged, upsert_episode, status_comparable,
}

-- The texts of a stored list: no blank, none twice, in order.
pub record IsTidy (texts : List String) : Type 0 where
  pub unique : IsUnique texts
  pub sorted : IsSorted str_leb texts
  pub present : (s : String) → includes texts s ≡ true → is_present s ≡ true

pub sorted_unique_strings-IsTidy : (texts : List String) → IsTidy (sorted_unique_strings texts)
sorted_unique_strings-IsTidy texts = record {
  unique = sorted_unique_strings-IsUnique texts;
  sorted = sorted_unique_strings-IsSorted texts;
  present = λ s h. ground (arith, h, includes-sorted_unique_strings texts s);
}

-- An episode as the ledger keeps it: a claimed one names its commit, an open one none.
pub record IsSound (episode : AgenticWorkEpisode) : Type 0 where
  pub queries : IsTidy episode.query_ids
  pub runs : IsTidy episode.run_ids
  pub repositories : IsTidy (get_or episode.repo_keys [])
  pub epochs : IsTidy (get_or episode.epoch_ids [])
  pub claim_named : episode.status ≡ claimed → is_some episode.claimed_by_commit_hash ≡ true
  pub open_unclaimed : episode.status ≡ open_ → episode.claimed_by_commit_hash ≡ none

-- What a change of an episode has to keep.
abbrev pub IsClaimedRight : AgenticWorkEpisode → Type 0
IsClaimedRight episode =
    (episode.status ≡ claimed → is_some episode.claimed_by_commit_hash ≡ true)
    × (episode.status ≡ open_ → episode.claimed_by_commit_hash ≡ none)

pub normalize_episode-IsSound :
    (episode : AgenticWorkEpisode) → IsClaimedRight episode → IsSound (normalize_episode episode)
unfolding normalize_episode
normalize_episode-IsSound episode h = record {
  queries = sorted_unique_strings-IsTidy episode.query_ids;
  runs = sorted_unique_strings-IsTidy episode.run_ids;
  repositories = sorted_unique_strings-IsTidy _;
  epochs = sorted_unique_strings-IsTidy _;
  claim_named = h.0;
  open_unclaimed = h.1;
}

abbrev pub Entry : String × AgenticWorkEpisode → Type 0
Entry e = (e.0 ≡ e.1.episode_id) × IsSound e.1

-- No identity twice, each episode under its own identity, and in order.
pub record IsKept (ledger : Ledger) : Type 0 where
  pub unique : IsUnique (keys ledger)
  pub entries : All Entry ledger

pub empty-IsKept : IsKept []
empty-IsKept = record { unique = tt; entries = tt }

normalize_episode-id :
    (episode : AgenticWorkEpisode) → (normalize_episode episode).episode_id ≡ episode.episode_id
unfolding normalize_episode
normalize_episode-id episode = refl

pub held :
    (ledger : Ledger) (id : String) (e : AgenticWorkEpisode)
    → IsKept ledger
    → map_get id ledger ≡ some e
    → Entry (id, e)
held ledger id e k q = All-map_get Entry id e ledger k.entries q

module _ (env : LedgerHost) where
  -- A write leaves the map, or changes the entry of the episode.
  pub upsert_episode-cases {ι} :
      (P : Ledger → Type ι) (episode : AgenticWorkEpisode) (ledger : Ledger)
      → P ledger
      → P (map_set episode.episode_id (normalize_episode episode) ledger)
      → P (upsert_episode env episode ledger).ledger
  unfolding upsert_episode normalize_episode
  upsert_episode-cases P episode ledger before behind =
      if_ind (λ (w : Written). P w.ledger) (not (env.validate_attribution episode)) (λ e. before)
        (λ e.
          if_ind (λ (w : Written). P w.ledger)
            (unchanged env (map_get episode.episode_id ledger) (normalize_episode episode))
            (λ e. before) (λ e. behind))

  pub upsert_episode-IsKept :
      (episode : AgenticWorkEpisode) (ledger : Ledger)
      → IsKept ledger
      → IsClaimedRight episode
      → IsKept (upsert_episode env episode ledger).ledger
  upsert_episode-IsKept episode ledger k h = upsert_episode-cases IsKept episode ledger k (record {
    unique = map_set-IsUnique episode.episode_id (normalize_episode episode) ledger k.unique;
    entries =
        All-map_set Entry episode.episode_id (normalize_episode episode) ledger
          (sym (normalize_episode-id episode), normalize_episode-IsSound episode h) k.entries;
  })

  -- A listed episode stands in the ledger under its identity, and fits the query.
  pub list_episodes-held :
      (query : WorkEpisodeQuery) (ledger : Ledger) (e : AgenticWorkEpisode)
      → query.limit ≡ none
      → IsKept ledger
      → Memᴰ e (list_episodes env query ledger)
      → (map_get e.episode_id ledger ≡ some e) × IsSound e × (matches_query query e ≡ true)
  unfolding list_episodes matches_query
  list_episodes-held query ledger e all k m =
      let (there, fits) = Memᴰ-select (matches_query query) (values ledger) (
        Memᴰ-sort_by (latest_activity_first env) (select (matches_query query) (values ledger))
          (rw all at m)) in
      let (id, q) = Memᴰ-map_get e ledger k.unique there in
      let (own, sound) = held ledger id e k q in
      (subst (λ i. map_get i ledger ≡ some e) own q, sound, fits)
