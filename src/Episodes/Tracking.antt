-- ===== src/Episodes/Tracking.antt =====
-- A run that is observed in time belongs to an episode afterwards.
use tirion_watch.Prelude.{
  String, Option, none, some, List, [], ◌∷◌, ◌++◌, ◌≡◌, refl, sym, ap, subst, ◌∙◌, true, false,
  if◌then◌else◌, if_ind, includes, includes-append, is_present, present-named,
  sorted_unique_strings, includes-sorted_unique_strings, str_leb, str_leb_total, get_or, find,
  ◌===◌, text_comparable, eq_iff, map_get, map_get-map_set, time_exceeds, arith,
}
use tirion_watch.Attribution.{AgenticWorkEpisode}
use tirion_watch.Episodes.Evidence.{max_iso}
use tirion_watch.Episodes.Store.{Ledger, normalize_episode}
use tirion_watch.Episodes.Model.{
  AgenticQueryRun, TrackerHost, Mutated, done, run_time, query_activity_at, new_episode,
  lookup_query, extended,
}
use tirion_watch.Episodes.{
  listed, upsert, mark_stale_open_episodes, continues_with, extend_found, find_or_extend,
  observe_query, observe_run,
}
use tirion_watch.Episodes.Saving.{TextsTell, upsert-saved, and_then-quiet}

max_iso-covers : (a b : String) → str_leb b (max_iso a b) ≡ true
unfolding max_iso
max_iso-covers a b =
    if_ind (λ t. str_leb b t ≡ true) (str_leb a b) (λ e. ground (arith, str_leb_total b b))
      (λ e. ground (arith, e, str_leb_total a b))

joined :
    (texts : List String) (s : String)
    → is_present s ≡ true
    → includes (sorted_unique_strings (sorted_unique_strings (texts ++ s ∷ []))) s ≡ true
joined texts s p = ground (
  arith,
  includes-sorted_unique_strings (sorted_unique_strings (texts ++ s ∷ [])) s,
  includes-sorted_unique_strings (texts ++ s ∷ []) s,
  includes-append texts (s ∷ []) s,
  (eq_iff s s).1 refl,
  p,
)

module _ (env : TrackerHost) (run : AgenticQueryRun) (query_id : String) where
  -- An episode of the ledger holds the query and the run, and its last activity covers theirs.
  pub record IsTracked (l : Ledger) : Type 0 where
    pub episode : AgenticWorkEpisode
    pub stored : map_get episode.episode_id l ≡ some episode
    pub has_query : includes episode.query_ids query_id ≡ true
    pub has_run : includes episode.run_ids run.id ≡ true
    pub covered : str_leb (query_activity_at env run) episode.last_agent_activity_at ≡ true

  module _ (tell : TextsTell env.ledger_host) (named : is_present query_id ≡ true)
      (run_named : is_present run.id ≡ true) where
    extended-IsTracked :
        (e : AgenticWorkEpisode) (l : Ledger)
        → (upsert env (extended env run query_id e) "episode_extended" none l).threw ≡ false
        → IsTracked (upsert env (extended env run query_id e) "episode_extended" none l).ledger
    unfolding extended normalize_episode
    extended-IsTracked e l quiet =
        let c = extended env run query_id e in
        let next = normalize_episode c in
        subst IsTracked (sym (upsert-saved env c "episode_extended" none l tell quiet)) (record {
          episode = next;
          stored =
              map_get-map_set c.episode_id c.episode_id next l
              ∙ rw ((eq_iff c.episode_id c.episode_id).1 refl) refl;
          has_query = joined e.query_ids query_id named;
          has_run = joined e.run_ids run.id run_named;
          covered = max_iso-covers e.last_agent_activity_at (query_activity_at env run);
        })

    extend_found-IsTracked :
        (at : String) (found : Option AgenticWorkEpisode) (l : Ledger)
        → (extend_found env run query_id at found l).threw ≡ false
        → IsTracked (extend_found env run query_id at found l).ledger
    unfolding extend_found
    extend_found-IsTracked at (some e) l quiet = extended-IsTracked e l quiet
    extend_found-IsTracked at none l quiet =
        let fresh = new_episode env run query_id at in
        let first = upsert env fresh "episode_created" none l in
        let (_, later, same) =
          and_then-quiet first
            (upsert env (extended env run query_id fresh) "episode_extended" none) quiet in
        subst IsTracked (sym same) (extended-IsTracked fresh first.ledger later)

    find_or_extend-IsTracked :
        (at : String) (l : Ledger)
        → (find_or_extend env run query_id at l).threw ≡ false
        → IsTracked (find_or_extend env run query_id at l).ledger
    unfolding find_or_extend
    find_or_extend-IsTracked at l quiet =
        extend_found-IsTracked at
          (find (continues_with env run query_id at) (listed env (lookup_query run query_id) l)) l
          quiet

    observe_query-IsTracked :
        (l : Ledger)
        → time_exceeds
            (some env.now)
            (env.ledger_host.host.get_time (run_time env run))
            env.stale_ms
          ≡ false
        → (observe_query env run query_id l).threw ≡ false
        → IsTracked (observe_query env run query_id l).ledger
    unfolding observe_query
    observe_query-IsTracked l recent quiet =
        let at = run_time env run in
        let first = mark_stale_open_episodes env at l in
        let (_, later, same) =
          and_then-quiet first
            (λ marked.
              if time_exceeds (some env.now) (env.ledger_host.host.get_time at) env.stale_ms
              then done marked
              else find_or_extend env run query_id at marked)
            quiet in
        subst IsTracked (sym same)
          (rw recent (find_or_extend-IsTracked at first.ledger (rw recent at later)))

-- A run whose query and identity are not blank, and which is not older than the stale span, stands in
-- an episode of the ledger behind observeRun, with its query, and the last activity of the episode is not
-- before the run's, unless a write throws. Episodes with the same JSON text are the same.
pub run_joins_episode :
    (env : TrackerHost) (run : AgenticQueryRun) (query_id : String) (l : Ledger)
    → TextsTell env.ledger_host
    → run.query_id ≡ some query_id
    → is_present query_id ≡ true
    → is_present run.id ≡ true
    → time_exceeds (some env.now) (env.ledger_host.host.get_time (run_time env run)) env.stale_ms
      ≡ false
    → (observe_run env run l).threw ≡ false
    → IsTracked env run query_id (observe_run env run l).ledger
unfolding observe_run
run_joins_episode env run query_id l tell given named run_named recent =
    let test = λ (q : String). if q === "" then done l else observe_query env run q l in
    subst (λ q. (test q).threw ≡ false → IsTracked env run query_id (test q).ledger)
      (sym (ap (λ o. get_or o "") given))
      (if_ind (λ (m : Mutated). m.threw ≡ false → IsTracked env run query_id m.ledger)
        (query_id === "")
        (λ blank _. absurd (present-named query_id named ((eq_iff query_id "").0 blank)))
        (λ _. observe_query-IsTracked env run query_id tell named run_named l recent))
