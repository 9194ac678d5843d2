-- ===== src/Episodes/Compacted.antt =====
-- The compaction loses no query.
use mathlib.Core.List.{Memᴰ, flat_map}
use tirion_watch.Prelude.{
  String, some, List, [], ◌∷◌, ◌++◌, ◌≡◌, inl, inr, refl, sym, ap, ◌∙◌, map, Bool, true, ◌||◌, any,
  any-sort_by, get_or, includes, includes-append, is_present, includes-sorted_unique_strings, ◌===◌,
  text_comparable, Bool-cases, map_get, map_set, values, sort_by, Host, arith,
}
use tirion_watch.Attribution.{AgenticWorkEpisode}
use tirion_watch.Episodes.Store.{normalize_episode}
use tirion_watch.Episodes.Compaction.{
  episode_group_key, joined_episode, merge_episodes, join_cluster, group_episodes, earliest_first,
  compact_episodes,
}

any-append {ℓ} :
    {A : Type ℓ} (p : A → Bool) (xs ys : List A) → any p (xs ++ ys) ≡ (any p xs || any p ys)
any-append p [] ys = refl
any-append p (x ∷ xs) ys = ground (arith, any-append p xs ys)

any-flatten {ℓ} :
    {A : Type ℓ} (p : A → Bool) (xss : List (List A))
    → any p (flat_map (λ xs. xs) xss) ≡ any (λ xs. any p xs) xss
unfolding flat_map
any-flatten p [] = refl
any-flatten p (xs ∷ xss) =
    any-append p xs (flat_map (λ ys. ys) xss) ∙ ap (λ b. any p xs || b) (any-flatten p xss)

module _ {ℓ} {V : Type ℓ} (p : V → Bool) (k : String) (v : V) where
  pub any-map_set_new : (m : List (String × V)) → p v ≡ true → any p (values (map_set k v m)) ≡ true
  unfolding map_set
  any-map_set_new [] h = ground (arith, h)
  any-map_set_new ((j, w) ∷ m) h = ground (arith, h, any-map_set_new m h)

  pub any-map_set_old :
      (m : List (String × V))
      → ((w : V) → map_get k m ≡ some w → p w ≡ true → p v ≡ true)
      → any p (values m) ≡ true
      → any p (values (map_set k v m)) ≡ true
  unfolding map_set map_get
  any-map_set_old [] keeps h = ground (arith, h)
  any-map_set_old ((j, w) ∷ m) keeps h = elim (Bool-cases (j === k)) [
    | inl same ↦
        let here = keeps w (rw same refl) in
        rw same (elim (Bool-cases (p w)) [
          | inl e ↦ ground (arith, here e)
          | inr e ↦ ground (arith, e, h)
        ])
    | inr other ↦
        let later = any-map_set_old m (λ u q. keeps u (rw other q)) in
        rw other (elim (Bool-cases (p w)) [
          | inl e ↦ ground (arith, e)
          | inr e ↦ ground (arith, later (ground (arith, e, h)))
        ])
  ]

module _ (host : Host) (q : String) (named : is_present q ≡ true) where
  abbrev has : AgenticWorkEpisode → Bool
  has episode = includes episode.query_ids q

  pub has-normalize : (e : AgenticWorkEpisode) → has e ≡ true → has (normalize_episode e) ≡ true
  unfolding normalize_episode
  has-normalize e h = includes-sorted_unique_strings e.query_ids q ∙ ground (arith, h, named)

  joined-has :
      (a b : AgenticWorkEpisode) → (has a || has b) ≡ true → has (joined_episode a b) ≡ true
  unfolding joined_episode
  joined-has a b h =
      includes-sorted_unique_strings (a.query_ids ++ b.query_ids) q
      ∙ ground (arith, includes-append a.query_ids b.query_ids q, h, named)

  merge_episodes-has :
      (a b : AgenticWorkEpisode) → (has a || has b) ≡ true → has (merge_episodes a b) ≡ true
  unfolding merge_episodes
  merge_episodes-has a b h = has-normalize (joined_episode a b) (joined-has a b h)

  join_cluster-has :
      (e : AgenticWorkEpisode) (cs : List AgenticWorkEpisode)
      → (has e || any has cs) ≡ true
      → any has (join_cluster host e cs) ≡ true
  unfolding join_cluster
  join_cluster-has e [] h = ground (arith, h)
  join_cluster-has e (c ∷ cs) h = ground (arith, h, merge_episodes-has c e, join_cluster-has e cs)

  group_episodes-has :
      (groups : List (String × List AgenticWorkEpisode)) (es : List AgenticWorkEpisode)
      → (any (λ g. any has g) (values groups) || any has es) ≡ true
      → any (λ g. any has g) (values (group_episodes host groups es)) ≡ true
  unfolding group_episodes
  group_episodes-has groups [] h = ground (arith, h)
  group_episodes-has groups (e ∷ es) h =
      let key = episode_group_key e in
      let cluster = join_cluster host e (get_or (map_get key groups) []) in
      let new = any-map_set_new (λ g. any has g) key cluster groups in
      let old =
        any-map_set_old (λ g. any has g) key cluster groups
          (λ w at holds.
            join_cluster-has e (get_or (map_get key groups) []) (rw at (ground (arith, holds)))) in
      let in_cluster = join_cluster-has e (get_or (map_get key groups) []) in
      group_episodes-has (map_set key cluster groups) es
        (elim (Bool-cases (any (λ g. any has g) (values groups))) [
          | inl there ↦ ground (arith, old there)
          | inr _ ↦ elim (Bool-cases (has e)) [
            | inl own ↦ ground (arith, new (in_cluster (ground (arith, own))))
            | inr _ ↦ ground arith
          ]
        ])

  normalized-has :
      (e : AgenticWorkEpisode) (stored : List AgenticWorkEpisode)
      → Memᴰ e stored
      → has e ≡ true
      → any has (map normalize_episode stored) ≡ true
  normalized-has e [] m h = elim m [ ]
  normalized-has e (x ∷ xs) (Memᴰ.head p) h = ground (arith, has-normalize x (ap has (sym p) ∙ h))
  normalized-has e (x ∷ xs) (Memᴰ.tail m) h = ground (arith, normalized-has e xs m h)

  -- A query, not blank, of a stored episode belongs to an episode behind the compaction, however the
  -- episodes are joined.
  pub compaction_keeps_queries :
      (stored : List AgenticWorkEpisode) (e : AgenticWorkEpisode)
      → Memᴰ e stored
      → includes e.query_ids q ≡ true
      → any (λ c. includes c.query_ids q) (compact_episodes host stored) ≡ true
  unfolding compact_episodes
  compaction_keeps_queries stored e m h =
      let sorted = sort_by (earliest_first host) (map normalize_episode stored) in
      any-flatten has (values (group_episodes host [] sorted))
      ∙ group_episodes-has [] sorted (
          any-sort_by (earliest_first host) has (map normalize_episode stored)
          ∙ normalized-has e stored m h)
