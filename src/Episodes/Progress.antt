-- ===== src/Episodes/Progress.antt =====
-- How the mutations change the episodes that are there: for a relation that the single changes respect.
use mathlib.Core.List.{Memᴰ}
use tirion_watch.Prelude.{
  String, Option, none, some, List, [], ◌∷◌, ◌≡◌, inl, inr, refl, sym, subst, ◌∙◌, true, if_ind,
  All, includes, get_or, head?, find, select, ◌===◌, text_comparable, eq_iff, Bool-cases, map_get,
  map_get-map_set, Memᴰ-select, Memᴰ-All, time_exceeds, arith, find-Memᴰ, head-Memᴰ,
}
use tirion_watch.Attribution.{QueryWorkEvidence, open_, AgenticWorkEpisode}
use tirion_watch.Episodes.Store.{
  WorkEpisodeQuery, any_episode, LedgerHost, Ledger, matches_query, upsert_episode,
  normalize_episode, status_comparable,
}
use tirion_watch.Episodes.Model.{
  AgenticQueryRun, TrackerHost, Mutated, run_time, new_episode, stale_of, lookup_query, extended,
}
use tirion_watch.Episodes.{
  listed, is_stale, upsert, upsert_each, mark_stale_open_episodes, continues_with, extend_found,
  find_or_extend, observe_query, observe_run, bound, bind_found, bind_item,
  observe_workspace_evidence, claimed_for, claim_found, mark_claimed, reopened,
  reopen_superseded_commit,
}
use tirion_watch.Episodes.Sound.{IsSound, IsKept, upsert_episode-cases, list_episodes-held}
use tirion_watch.Episodes.Kept.{
  and_then-keeps, mark_stale_open_episodes-IsKept, lookup_query-limit, bind_item-IsKept,
}

-- Each episode of the first ledger stands in the second, related to what it was.
abbrev pub Progress {ι} :
    (AgenticWorkEpisode → AgenticWorkEpisode → Type ι) → Ledger → Ledger → Type ι
Progress R l m =
    (id : String) (e : AgenticWorkEpisode)
    → map_get id l ≡ some e
    → (later : AgenticWorkEpisode) × (map_get id m ≡ some later) × R e later

module _ {ι} (R : AgenticWorkEpisode → AgenticWorkEpisode → Type ι) where
  pub Progress-refl : ((e : AgenticWorkEpisode) → R e e) → (l : Ledger) → Progress R l l
  Progress-refl r l id e q = (e, q, r e)

  pub Progress-trans :
      ((a b c : AgenticWorkEpisode) → R a b → R b c → R a c)
      → (l m n : Ledger) → Progress R l m
      → Progress R m n
      → Progress R l n
  Progress-trans t l m n p q id e h =
      let (later, there, r) = p id e h in
      let (last, held, s) = q id later there in (last, held, t e later last r s)

  upsert_episode-Progress :
      (env : LedgerHost) (l m : Ledger) (c : AgenticWorkEpisode)
      → Progress R l m
      → ((e : AgenticWorkEpisode) → map_get c.episode_id l ≡ some e → R e (normalize_episode c))
      → Progress R l (upsert_episode env c m).ledger
  upsert_episode-Progress env l m c p h = upsert_episode-cases env (Progress R l) c m p (λ id e q.
      elim (Bool-cases (c.episode_id === id)) [
        | inl same ↦
            let own = (eq_iff c.episode_id id).0 same in
            (
              normalize_episode c,
              (map_get-map_set c.episode_id id (normalize_episode c) m ∙ rw same refl),
              h e (subst (λ i. map_get i l ≡ some e) (sym own) q),
            )
        | inr other ↦
            let (later, there, r) = p id e q in
            (later, (map_get-map_set c.episode_id id (normalize_episode c) m ∙ rw other there), r)
      ])

  -- What a listed episode has to do with its change.
  abbrev pub Touched :
      Ledger → (AgenticWorkEpisode → AgenticWorkEpisode) → AgenticWorkEpisode → Type ι
  Touched l change e =
      (map_get e.episode_id l ≡ some e)
      × ((change e).episode_id ≡ e.episode_id)
      × R e (normalize_episode (change e))

  pub touched_only :
      (l : Ledger) (change : AgenticWorkEpisode → AgenticWorkEpisode) (e : AgenticWorkEpisode)
      → Touched l change e
      → (a : AgenticWorkEpisode) → map_get (change e).episode_id l ≡ some a
      → R a (normalize_episode (change e))
  touched_only l change e t a q =
      let here : map_get e.episode_id l ≡ some a = subst (λ i. map_get i l ≡ some a) t.1 q in
      let same_entry : some e ≡ some a = sym t.0 ∙ here in
      let same : e ≡ a = cc same_entry in subst (λ b. R b (normalize_episode (change e))) same t.2

  module _ (env : TrackerHost) where
    pub upsert-Progress :
        (l m : Ledger) (c : AgenticWorkEpisode) (reason : String) (commit_hash : Option String)
        → Progress R l m
        → ((e : AgenticWorkEpisode) → map_get c.episode_id l ≡ some e → R e (normalize_episode c))
        → Progress R l (upsert env c reason commit_hash m).ledger
    unfolding upsert
    upsert-Progress l m c reason commit_hash p h = upsert_episode-Progress env.ledger_host l m c p h

    upsert_each-Progress :
        (l : Ledger) (change : AgenticWorkEpisode → AgenticWorkEpisode) (reason : String)
        (commit_hash : Option String) (es : List AgenticWorkEpisode) (m : Ledger)
        → Progress R l m
        → All (Touched l change) es
        → Progress R l (upsert_each env change reason commit_hash es m).ledger
    unfolding upsert_each
    upsert_each-Progress l change reason commit_hash [] m p t = p
    upsert_each-Progress l change reason commit_hash (e ∷ es) m p t =
        and_then-keeps (Progress R l) (upsert env (change e) reason commit_hash m)
          (upsert_each env change reason commit_hash es)
          (upsert-Progress l m (change e) reason commit_hash p (touched_only l change e t.0))
          (λ q.
            upsert_each-Progress l change reason commit_hash es
              (upsert env (change e) reason commit_hash m).ledger q t.1)

    module _ (r : (e : AgenticWorkEpisode) → R e e) (l : Ledger) (k : IsKept l) where
      pub listed-Touched :
          (query : WorkEpisodeQuery) (change : AgenticWorkEpisode → AgenticWorkEpisode)
          → query.limit ≡ none
          → ((e : AgenticWorkEpisode) → (change e).episode_id ≡ e.episode_id)
          → ((e : AgenticWorkEpisode)
              → IsSound e
              → matches_query query e ≡ true
              → R e (normalize_episode (change e)))
          → (e : AgenticWorkEpisode) → Memᴰ e (listed env query l)
          → Touched l change e
      listed-Touched query change all own h e m =
          let (here, sound, fits) = list_episodes-held env.ledger_host query l e all k m in
          (here, own e, h e sound fits)

      open_fits :
          (e : AgenticWorkEpisode)
          → matches_query (record any_episode { status = some open_ }) e ≡ true
          → e.status ≡ open_
      unfolding matches_query
      open_fits e h = (status_comparable.equal_iff e.status open_).0 (ground (arith, h))

      pub mark_stale_open_episodes-Progress :
          (at : String)
          → ((e : AgenticWorkEpisode)
              → IsSound e
              → e.status ≡ open_
              → R e (normalize_episode (stale_of e)))
          → Progress R l (mark_stale_open_episodes env at l).ledger
      unfolding mark_stale_open_episodes
      mark_stale_open_episodes-Progress at h =
          let query = record any_episode { status = some open_ } in
          let late = select (λ e. is_stale env e at) (listed env query l) in
          upsert_each-Progress l stale_of "episode_stale" none late l (Progress-refl r l) (
            Memᴰ-All (Touched l stale_of) late (λ e m.
              listed-Touched query stale_of refl (λ a. refl)
                (λ a sound fits. h a sound (open_fits a fits)) e
                (Memᴰ-select (λ e. is_stale env e at) (listed env query l) m).0))

      pub reopen_superseded_commit-Progress :
          (hash : String)
          → ((e : AgenticWorkEpisode)
              → IsSound e
              → matches_query (record any_episode { commit_hash = some hash }) e ≡ true
              → R e (normalize_episode (reopened env e)))
          → Progress R l (reopen_superseded_commit env hash l).ledger
      unfolding reopen_superseded_commit
      reopen_superseded_commit-Progress hash h =
          let query = record any_episode { commit_hash = some hash } in
          upsert_each-Progress l (reopened env) "history_rewrite_pending" (some hash)
            (listed env query l) l (Progress-refl r l)
            (Memᴰ-All (Touched l (reopened env)) (listed env query l)
              (listed-Touched query (reopened env) refl (λ a. refl) h))

      pub mark_claimed-Progress :
          (id hash at : String)
          → ((e : AgenticWorkEpisode)
              → IsSound e
              → R e (normalize_episode (claimed_for env hash at e)))
          → Progress R l (mark_claimed env id hash at l).ledger
      unfolding mark_claimed claim_found
      mark_claimed-Progress id hash at h =
          let query = record any_episode { episode_id = some id } in
          of_found (head? (listed env query l)) (λ e q.
            listed-Touched query (claimed_for env hash at) refl (λ a. refl)
              (λ a sound fits. h a sound) e (head-Memᴰ (listed env query l) e q))
        where
          of_found :
              (found : Option AgenticWorkEpisode)
              → ((e : AgenticWorkEpisode) → found ≡ some e → Touched l (claimed_for env hash at) e)
              → Progress R l (claim_found env hash at found l).ledger
          of_found none t = Progress-refl r l
          of_found (some e) t =
              upsert-Progress l l (claimed_for env hash at e) "episode_claimed" (some hash)
                (Progress-refl r l) (touched_only l (claimed_for env hash at) e (t e refl))

      bind_item-Progress :
          (item : QueryWorkEvidence)
          → ((e : AgenticWorkEpisode) → IsSound e → R e (normalize_episode (bound env item e)))
          → Progress R l (bind_item env item l).ledger
      unfolding bind_item bind_found bound
      bind_item-Progress item h =
          let query = record any_episode { query_id = some item.query_id } in
          let test = λ (e : AgenticWorkEpisode). includes e.query_ids item.query_id in
          of_found (find test (listed env query l)) (λ e q.
            listed-Touched query (bound env item) refl (λ a. refl) (λ a sound fits. h a sound) e
              (find-Memᴰ test (listed env query l) e q))
        where
          of_found :
              (found : Option AgenticWorkEpisode)
              → ((e : AgenticWorkEpisode) → found ≡ some e → Touched l (bound env item) e)
              → Progress R l (bind_found env item found l).ledger
          of_found none t = Progress-refl r l
          of_found (some e) t =
              upsert-Progress l l (bound env item e) "episode_evidence_bound" none
                (Progress-refl r l) (touched_only l (bound env item) e (t e refl))

    module _ (r : (e : AgenticWorkEpisode) → R e e)
        (chain : (a b c : AgenticWorkEpisode) → R a b → R b c → R a c) where
      pub observe_workspace_evidence-Progress :
          (evidence : List QueryWorkEvidence) (l : Ledger)
          → IsKept l
          → ((item : QueryWorkEvidence) (e : AgenticWorkEpisode)
              → IsSound e
              → R e (normalize_episode (bound env item e)))
          → Progress R l (observe_workspace_evidence env evidence l).ledger
      unfolding observe_workspace_evidence
      observe_workspace_evidence-Progress [] l k h = Progress-refl r l
      observe_workspace_evidence-Progress (item ∷ evidence) l k h =
          let first = bind_item env item l in
          and_then-keeps (Progress R l) first (observe_workspace_evidence env evidence)
            (bind_item-Progress r l k item (h item))
            (λ p.
              Progress-trans chain l first.ledger
                (observe_workspace_evidence env evidence first.ledger).ledger p
                (observe_workspace_evidence-Progress evidence first.ledger
                  (bind_item-IsKept env item l k) h))

      -- The identity of a new episode is not in use.
      extend_found-Progress :
          (run : AgenticQueryRun) (q at : String) (found : Option AgenticWorkEpisode) (l m : Ledger)
          → map_get env.random_uuid l ≡ none
          → Progress R l m
          → ((e : AgenticWorkEpisode)
              → found ≡ some e
              → (map_get e.episode_id m ≡ some e) × R e (normalize_episode (extended env run q e)))
          → Progress R l (extend_found env run q at found m).ledger
      unfolding extend_found extended new_episode
      extend_found-Progress run q at (some e) l m fresh p h =
          let (here, grown) = h e refl in
          upsert-Progress l m (extended env run q e) "episode_extended" none p (λ a there.
            let (later, held, related) = p e.episode_id a there in
            let same_entry : some later ≡ some e = sym held ∙ here in
            let same : later ≡ e = cc same_entry in
            chain a later (normalize_episode (extended env run q e)) related
              (subst (λ b. R b (normalize_episode (extended env run q e))) (sym same) grown))
      extend_found-Progress run q at none l m fresh p h =
          let new = new_episode env run q at in
          and_then-keeps (Progress R l) (upsert env new "episode_created" none m)
            (upsert env (extended env run q new) "episode_extended" none)
            (upsert-Progress l m new "episode_created" none p
              (λ a there. absurd (ground (arith, fresh, there))))
            (λ again.
              upsert-Progress l (upsert env new "episode_created" none m).ledger
                (extended env run q new) "episode_extended" none again
                (λ a there. absurd (ground (arith, fresh, there))))

      pub observe_run-Progress :
          (run : AgenticQueryRun) (l : Ledger)
          → IsKept l
          → map_get env.random_uuid l ≡ none
          → ((e : AgenticWorkEpisode)
              → IsSound e
              → e.status ≡ open_
              → R e (normalize_episode (stale_of e)))
          → ((q : String) (e : AgenticWorkEpisode)
              → IsSound e
              → R e (normalize_episode (extended env run q e)))
          → Progress R l (observe_run env run l).ledger
      unfolding observe_run observe_query find_or_extend
      observe_run-Progress run l k fresh late grown =
          let q = get_or run.query_id "" in
          let at = run_time env run in
          let marked = (mark_stale_open_episodes env at l).ledger in
          let query = lookup_query run q in
          let test = continues_with env run q at in
          if_ind (λ (m : Mutated). Progress R l m.ledger) (q === "") (λ e. Progress-refl r l)
            (λ e.
              and_then-keeps (Progress R l) (mark_stale_open_episodes env at l) _
                (mark_stale_open_episodes-Progress r l k at late)
                (λ p.
                  if_ind (λ (m : Mutated). Progress R l m.ledger)
                    (time_exceeds (some env.now) (env.ledger_host.host.get_time at) env.stale_ms)
                    (λ e. p)
                    (λ e.
                      extend_found-Progress run q at (find test (listed env query marked)) l marked
                        fresh p
                        (λ a found.
                          let (here, sound, fits) =
                            list_episodes-held env.ledger_host query marked a
                              (lookup_query-limit env run q)
                              (mark_stale_open_episodes-IsKept env at l k)
                              (find-Memᴰ test (listed env query marked) a found) in
                          (here, grown q a sound)))))
