-- ===== src/Episodes/Identities.antt =====
-- The compaction gives no identity twice, and the map of the load holds every episode.
use mathlib.Core.List.{flat_map}
use tirion_watch.Prelude.{
  ℕ, ◌+◌, ◌≤◌, String, none, List, [], ◌∷◌, ◌≡◌, inl, inr, refl, sym, ◌∙◌, map, Bool, true, false,
  ◌||◌, any, if◌then◌else◌, if_ind, Bool-cases, get_or, includes, ◌===◌, text_comparable, eq_iff,
  map_get, map_set, keys, values, includes-keys-map_set, index_from, sort_by, how_many,
  how_many-append, how_many-sort_by, Host, arith,
}
use tirion_watch.Attribution.{AgenticWorkEpisode}
use tirion_watch.Episodes.Store.{normalize_episode}
use tirion_watch.Episodes.Compaction.{
  episode_group_key, should_merge_episodes, joined_episode, merge_episodes, join_cluster,
  group_episodes, earliest_first, compact_episodes,
}
use tirion_watch.Episodes.Compacted.{any-map_set_new, any-map_set_old}

abbrev pub has_id : String → AgenticWorkEpisode → Bool
has_id id episode = episode.episode_id === id

module _ (id : String) where
  merge_episodes-id :
      (a b : AgenticWorkEpisode)
      → (if has_id id (merge_episodes a b) then 1 else 0)
        ≤ (if has_id id b then 1 else 0) + (if has_id id a then 1 else 0)
  unfolding merge_episodes joined_episode normalize_episode
  merge_episodes-id a b = ground arith

  normalized-ids :
      (es : List AgenticWorkEpisode)
      → how_many (has_id id) (map normalize_episode es) ≡ how_many (has_id id) es
  unfolding normalize_episode
  normalized-ids [] = refl
  normalized-ids (e ∷ es) = omega (arith, normalized-ids es)

  -- The episodes of all groups.
  abbrev in_groups : List (String × List AgenticWorkEpisode) → ℕ
  in_groups [] = 0
  in_groups ((k, cluster) ∷ m) = how_many (has_id id) cluster + in_groups m

  in_groups-flat_map :
      (m : List (String × List AgenticWorkEpisode))
      → how_many (has_id id) (flat_map (λ cluster. cluster) (values m)) ≡ in_groups m
  unfolding flat_map
  in_groups-flat_map [] = refl
  in_groups-flat_map ((k, cluster) ∷ m) = omega (
    arith,
    how_many-append (has_id id) cluster (flat_map (λ cluster. cluster) (values m)),
    in_groups-flat_map m,
  )

  in_groups-map_set :
      (k : String) (cluster : List AgenticWorkEpisode) (m : List (String × List AgenticWorkEpisode))
      → in_groups (map_set k cluster m) + how_many (has_id id) (get_or (map_get k m) [])
        ≡ in_groups m + how_many (has_id id) cluster
  unfolding map_set map_get
  in_groups-map_set k cluster [] = omega arith
  in_groups-map_set k cluster ((j, c) ∷ m) = elim (Bool-cases (j === k)) [
    | inl same ↦ rw same (omega arith)
    | inr other ↦ rw other (omega (arith, in_groups-map_set k cluster m))
  ]

  module _ (host : Host) where
    join_cluster-ids :
        (e : AgenticWorkEpisode) (cs : List AgenticWorkEpisode)
        → how_many (has_id id) (join_cluster host e cs)
          ≤ (if has_id id e then 1 else 0) + how_many (has_id id) cs
    unfolding join_cluster
    join_cluster-ids e [] = omega arith
    join_cluster-ids e (c ∷ cs) =
        if_ind
          (λ es.
            how_many (has_id id) es
            ≤ (if has_id id e then 1 else 0) + how_many (has_id id) (c ∷ cs))
          (should_merge_episodes host c e) (λ _. omega (arith, merge_episodes-id c e))
          (λ _. omega (arith, join_cluster-ids e cs))

    group_episodes-ids :
        (groups : List (String × List AgenticWorkEpisode)) (es : List AgenticWorkEpisode)
        → in_groups (group_episodes host groups es) ≤ in_groups groups + how_many (has_id id) es
    unfolding group_episodes
    group_episodes-ids groups [] = omega arith
    group_episodes-ids groups (e ∷ es) =
        let key = episode_group_key e in
        let before = get_or (map_get key groups) [] in
        let cluster = join_cluster host e before in
        omega (
          arith,
          group_episodes-ids (map_set key cluster groups) es,
          in_groups-map_set key cluster groups,
          join_cluster-ids e before,
        )

    pub compact_episodes-ids :
        (stored : List AgenticWorkEpisode)
        → how_many (has_id id) (compact_episodes host stored) ≤ how_many (has_id id) stored
    unfolding compact_episodes
    compact_episodes-ids stored =
        let sorted = sort_by (earliest_first host) (map normalize_episode stored) in
        omega (
          arith,
          in_groups-flat_map (group_episodes host [] sorted),
          group_episodes-ids [] sorted,
          how_many-sort_by (has_id id) (earliest_first host) (map normalize_episode stored),
          normalized-ids stored,
        )

-- No identity of the map comes again, and none comes twice.
abbrev IsFresh : List (String × AgenticWorkEpisode) → List AgenticWorkEpisode → Type 0
IsFresh m es = (id : String) → (if includes (keys m) id then 1 else 0) + how_many (has_id id) es ≤ 1

absent_get :
    (k : String) (m : List (String × AgenticWorkEpisode))
    → includes (keys m) k ≡ false
    → map_get k m ≡ none
unfolding map_get
absent_get k [] h = refl
absent_get k ((j, w) ∷ m) h = ground (arith, absent_get k m, h)

module _ (p : AgenticWorkEpisode → Bool) where
  pub any-index_from :
      (m : List (String × AgenticWorkEpisode)) (es : List AgenticWorkEpisode)
      → IsFresh m es
      → (any p (values m) || any p es) ≡ true
      → any p (values (index_from (λ e. e.episode_id) m es)) ≡ true
  unfolding index_from
  any-index_from m [] fresh h = ground (arith, h)
  any-index_from m (e ∷ es) fresh h =
      let id = e.episode_id in
      let once = fresh id in
      let absent : includes (keys m) id ≡ false = ground (arith, once, (eq_iff id id).1 refl) in
      let new = any-map_set_new p id e m in
      let old =
        any-map_set_old p id e m
          (λ w at _. absurd (ground (arith, sym (absent_get id m absent) ∙ at))) in
      any-index_from (map_set id e m) es
        (λ other.
          ground
            (arith, includes-keys-map_set id other e m, fresh other, once, absent, eq_iff id other))
        (elim (Bool-cases (any p (values m))) [
          | inl there ↦ ground (arith, old there)
          | inr _ ↦ elim (Bool-cases (p e)) [
            | inl own ↦ ground (arith, new own)
            | inr _ ↦ ground (arith, h)
          ]
        ])
