-- ===== src/Episodes/Starting.antt =====
-- The first start of the tracker loses no query of the stored episodes.
use mathlib.Core.List.{Memᴰ}
use tirion_watch.Prelude.{
  ◌≤◌, String, none, some, List, [], ◌∷◌, ◌≡◌, inl, inr, refl, sym, ap, subst, ◌∙◌, Bool, true,
  false, ◌&&◌, any, if_ind, Bool-cases, All, get_or, includes, is_present,
  includes-sorted_unique_strings, IsUnique, ◌===◌, text_comparable, eqb, eq_iff, map_get, map_set,
  map_get-map_set, keys, values, index_from-IsUnique, All-index_from, All-map_get, Memᴰ-map_get,
  Memᴰ-sort_by, Memᴰ-select, Memᴰ-All, select, how_many, Host, arith,
}
use tirion_watch.Attribution.{open_, AgenticWorkEpisode}
use tirion_watch.Episodes.Store.{
  any_episode, Ledger, normalize_episode, matches_query, list_episodes, latest_activity_first,
  status_comparable,
}
use tirion_watch.Episodes.Model.{TrackerHost, Mutated, stale_of}
use tirion_watch.Episodes.Compaction.{compact_episodes, load_and_compact}
use tirion_watch.Episodes.Loads.{Loading, initialize, first_load}
use tirion_watch.Episodes.{
  listed, is_stale, upsert, quarantined, check_at_start, check_each, Started, start, start_loaded,
}
use tirion_watch.Episodes.Sound.{upsert_episode-cases}
use tirion_watch.Episodes.Kept.{and_then-keeps}
use tirion_watch.Episodes.Compacted.{any-map_set_old, compaction_keeps_queries}
use tirion_watch.Episodes.Identities.{has_id, compact_episodes-ids, any-index_from}

-- Each episode stands under its own identity, and no identity twice.
abbrev IsOwn : String × AgenticWorkEpisode → Type 0
IsOwn entry = entry.0 ≡ entry.1.episode_id

all_own : (es : List AgenticWorkEpisode) → All (λ e. e.episode_id ≡ e.episode_id) es
all_own [] = tt
all_own (x ∷ xs) = (refl, all_own xs)

load_and_compact-IsUnique :
    (host : Host) (es : List AgenticWorkEpisode) → IsUnique (keys (load_and_compact host es))
unfolding load_and_compact
load_and_compact-IsUnique host es =
    index_from-IsUnique (λ e. e.episode_id) [] (compact_episodes host es) tt

load_and_compact-IsOwn :
    (host : Host) (es : List AgenticWorkEpisode) → All IsOwn (load_and_compact host es)
unfolding load_and_compact
load_and_compact-IsOwn host es =
    All-index_from IsOwn (λ e. e.episode_id) [] (compact_episodes host es) tt
      (all_own (compact_episodes host es))

module _ (env : TrackerHost) where
  listed-held :
      (l : Ledger) (e : AgenticWorkEpisode)
      → IsUnique (keys l)
      → All IsOwn l
      → Memᴰ e (listed env any_episode l)
      → map_get e.episode_id l ≡ some e
  unfolding list_episodes
  listed-held l e unique own m =
      let (there, _) = Memᴰ-select (matches_query any_episode) (values l) (
        Memᴰ-sort_by (latest_activity_first env.ledger_host)
          (select (matches_query any_episode) (values l)) m) in
      let (id, q) = Memᴰ-map_get e l unique there in
      let same = All-map_get IsOwn id e l own q in subst (λ i. map_get i l ≡ some e) same q

  module _ (q : String) (named : is_present q ≡ true) where
    abbrev has : AgenticWorkEpisode → Bool
    has episode = includes episode.query_ids q

    has-normalize_episode : (e : AgenticWorkEpisode) → has (normalize_episode e) ≡ has e
    unfolding normalize_episode
    has-normalize_episode e = includes-sorted_unique_strings e.query_ids q ∙ ground (arith, named)

    -- An episode that has the query had it in the ledger of the load, and some episode has it.
    abbrev HasStill : Ledger → Ledger → Type 0
    HasStill l m =
        ((id : String) (w v : AgenticWorkEpisode)
          → map_get id l ≡ some v
          → map_get id m ≡ some w
          → has w ≡ true
          → has v ≡ true)
        × (any has (values m) ≡ true)

    module _ (l m : Ledger) (e c : AgenticWorkEpisode) (here : map_get e.episode_id l ≡ some e)
        (same_id : c.episode_id ≡ e.episode_id) (same_queries : c.query_ids ≡ e.query_ids) where
      has-changed : has (normalize_episode c) ≡ has e
      has-changed = has-normalize_episode c ∙ ap (λ qs. includes qs q) same_queries

      written-HasStill : HasStill l m → HasStill l (map_set c.episode_id (normalize_episode c) m)
      written-HasStill (came, there) = (
        (λ id w v in_l in_m has_w. elim (Bool-cases (c.episode_id === id)) [
          | inl same ↦
              let entry : some (normalize_episode c) ≡ some w =
                (rw same at (sym (map_get-map_set c.episode_id id (normalize_episode c) m)))
                ∙ in_m in
              let value : normalize_episode c ≡ w = cc entry in
              let own : e.episode_id ≡ id = sym same_id ∙ (eq_iff c.episode_id id).0 same in
              let of_l : some e ≡ some v = sym here ∙ (ap (λ i. map_get i l) own ∙ in_l) in
              let old : e ≡ v = cc of_l in ap has (sym old) ∙ sym has-changed ∙ ap has value ∙ has_w
          | inr other ↦
              came id w v in_l
                ((rw other at (sym (map_get-map_set c.episode_id id (normalize_episode c) m)))
                  ∙ in_m)
                has_w
        ]),
        any-map_set_old has c.episode_id (normalize_episode c) m
            (λ w at has_w.
              has-changed ∙ came c.episode_id w e (ap (λ i. map_get i l) same_id ∙ here) at has_w)
            there,
      )

      upsert-HasStill :
          (reason : String) → HasStill l m → HasStill l (upsert env c reason none m).ledger
      unfolding upsert
      upsert-HasStill reason h =
          upsert_episode-cases env.ledger_host (HasStill l) c m h (written-HasStill h)

    check_at_start-HasStill :
        (l m : Ledger) (e : AgenticWorkEpisode)
        → map_get e.episode_id l ≡ some e
        → HasStill l m
        → HasStill l (check_at_start env e m).ledger
    unfolding check_at_start
    check_at_start-HasStill l m e here h =
        if_ind (λ (w : Mutated). HasStill l w.ledger)
          (eqb (get_or e.observation_schema_version 0) 1)
          (λ _.
            if_ind (λ (w : Mutated). HasStill l w.ledger)
              (e.status === open_ && is_stale env e env.now_iso)
              (λ _. upsert-HasStill l m e (stale_of e) here refl refl "episode_stale" h) (λ _. h))
          (λ _.
            upsert-HasStill l m e (quarantined env e) here refl refl "legacy_episode_quarantined" h)

    check_each-HasStill :
        (es : List AgenticWorkEpisode) (l m : Ledger)
        → All (λ e. map_get e.episode_id l ≡ some e) es
        → HasStill l m
        → HasStill l (check_each env es m).ledger
    unfolding check_each
    check_each-HasStill [] l m here h = h
    check_each-HasStill (e ∷ es) l m here h =
        and_then-keeps (HasStill l) (check_at_start env e m) (check_each env es)
          (check_at_start-HasStill l m e here.0 h)
          (check_each-HasStill es l (check_at_start env e m).ledger here.1)

    checked_has :
        (l : Ledger)
        → IsUnique (keys l)
        → All IsOwn l
        → any has (values l) ≡ true
        → any has (values (check_each env (listed env any_episode l) l).ledger) ≡ true
    checked_has l unique own there =
        (check_each-HasStill (listed env any_episode l) l l
          (Memᴰ-All (λ e. map_get e.episode_id l ≡ some e) (listed env any_episode l)
            (λ e m. listed-held l e unique own m))
          (
            (λ id w v in_l in_m has_w.
                let entry : some w ≡ some v = sym in_m ∙ in_l in
                let same : w ≡ v = cc entry in ap has (sym same) ∙ has_w),
            there,
          )).1

    start_loaded-has :
        (l : Ledger) (loading : Loading)
        → IsUnique (keys l)
        → All IsOwn l
        → any has (values l) ≡ true
        → any has (values (start_loaded env l loading).state.episodes) ≡ true
    unfolding start_loaded
    start_loaded-has l loading unique own there =
        if_ind (λ (s : Started). any has (values s.state.episodes) ≡ true) loading.threw
          (λ _. there) (λ _. checked_has l unique own there)

    loaded_has :
        (stored : List AgenticWorkEpisode) (e : AgenticWorkEpisode)
        → ((id : String) → how_many (has_id id) stored ≤ 1)
        → Memᴰ e stored
        → has e ≡ true
        → any has (values (load_and_compact env.ledger_host.host stored)) ≡ true
    unfolding load_and_compact
    loaded_has stored e once m h =
        let host = env.ledger_host.host in
        any-index_from has [] (compact_episodes host stored)
          (λ id. omega (arith, once id, compact_episodes-ids id host stored))
          (ground (arith, compaction_keeps_queries host q named stored e m h))

    -- A tracker that is not running starts on a ledger that is not loaded, whose stored identities are
    -- different: a query, not blank, of a stored episode belongs to an episode of the ledger behind the
    -- start, however the episodes are joined, go stale or are quarantined, and whatever writes throw.
    pub start_keeps_queries :
        (stored : List AgenticWorkEpisode) (before : Ledger) (e : AgenticWorkEpisode)
        → ((id : String) → how_many (has_id id) stored ≤ 1)
        → Memᴰ e stored
        → includes e.query_ids q ≡ true
        → any
            (λ c. includes c.query_ids q)
            (values
              (start env stored false
                (record { episodes = before; loading = none })).state.episodes)
          ≡ true
    unfolding start initialize first_load
    start_keeps_queries stored before e once m h =
        let host = env.ledger_host.host in
        start_loaded-has (load_and_compact host stored) (first_load env.ledger_host stored).1
          (load_and_compact-IsUnique host stored) (load_and_compact-IsOwn host stored)
          (loaded_has stored e once m h)
