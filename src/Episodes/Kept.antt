-- ===== src/Episodes/Kept.antt =====
-- Each operation keeps the ledger in order.
use tirion_watch.Prelude.{
  ℕ, String, Option, none, some, List, [], ◌∷◌, ◌≡◌, refl, Bool, ◌&&◌, ◌||◌, if_ind, All-select,
  includes, get_or, head?, find, select, ◌===◌, text_comparable, eqb, values, index_from-IsUnique,
  All-index_from, All-values, time_exceeds, length, arith, find-Memᴰ,
}
use tirion_watch.Attribution.{QueryWorkEvidence, open_, AgenticWorkEpisode}
use tirion_watch.Episodes.Store.{
  WorkEpisodeQuery, any_episode, Ledger, Written, retains, apply_retention, status_comparable,
}
use tirion_watch.Episodes.Model.{
  AgenticQueryRun, TrackerHost, Mutated, and_then, run_time, new_episode, stale_of, lookup_query,
  extended,
}
use tirion_watch.Episodes.{
  listed, is_stale, upsert, upsert_each, mark_stale_open_episodes, continues_with, extend_found,
  find_or_extend, observe_query, observe_run, bound, bind_found, bind_item,
  observe_workspace_evidence, claimed_for, claim_found, mark_claimed, reopened,
  reopen_superseded_commit, check_at_start, check_each, quarantined,
}
use tirion_watch.Episodes.Sound.{
  IsSound, IsClaimedRight, Entry, IsKept, upsert_episode-IsKept, list_episodes-held,
}

-- Two statements keep what each keeps.
pub and_then-keeps {ι} :
    (P : Ledger → Type ι) (first : Mutated) (next : Ledger → Mutated)
    → P first.ledger
    → (P first.ledger → P (next first.ledger).ledger)
    → P (and_then first next).ledger
unfolding and_then
and_then-keeps P first next before behind =
    if_ind (λ (m : Mutated). P m.ledger) first.threw (λ e. before) (λ e. behind before)

-- The state of an episode that the ledger keeps.
claimed_right : {e : AgenticWorkEpisode} → IsSound e → IsClaimedRight e
claimed_right s = (s.claim_named, s.open_unclaimed)

open_none :
    {e : AgenticWorkEpisode} → e.status ≡ open_ → IsSound e → e.claimed_by_commit_hash ≡ none
open_none h s = s.open_unclaimed h

module _ (env : TrackerHost) where
  pub upsert-IsKept :
      (e : AgenticWorkEpisode) (reason : String) (commit_hash : Option String) (l : Ledger)
      → IsKept l
      → IsClaimedRight e
      → IsKept (upsert env e reason commit_hash l).ledger
  unfolding upsert
  upsert-IsKept e reason commit_hash l k h = upsert_episode-IsKept env.ledger_host e l k h

  pub upsert_each-IsKept :
      (change : AgenticWorkEpisode → AgenticWorkEpisode) (reason : String)
      (commit_hash : Option String) (es : List AgenticWorkEpisode) (l : Ledger)
      → ((e : AgenticWorkEpisode) → IsClaimedRight (change e))
      → IsKept l
      → IsKept (upsert_each env change reason commit_hash es l).ledger
  unfolding upsert_each
  upsert_each-IsKept change reason commit_hash [] l h k = k
  upsert_each-IsKept change reason commit_hash (e ∷ es) l h k =
      and_then-keeps IsKept (upsert env (change e) reason commit_hash l)
        (upsert_each env change reason commit_hash es)
        (upsert-IsKept (change e) reason commit_hash l k (h e))
        (upsert_each-IsKept change reason commit_hash es
          (upsert env (change e) reason commit_hash l).ledger h)

  -- A stale or a reopened episode is neither claimed nor open with a claim, whatever it was.
  stale_right : (e : AgenticWorkEpisode) → IsClaimedRight (stale_of e)
  stale_right e = ((λ h. ground (arith, h)), (λ h. ground (arith, h)))

  reopened_right : (e : AgenticWorkEpisode) → IsClaimedRight (reopened env e)
  reopened_right e = ((λ h. ground (arith, h)), (λ h. refl))

  pub mark_stale_open_episodes-IsKept :
      (at : String) (l : Ledger) → IsKept l → IsKept (mark_stale_open_episodes env at l).ledger
  unfolding mark_stale_open_episodes
  mark_stale_open_episodes-IsKept at l k =
      upsert_each-IsKept stale_of "episode_stale" none _ l stale_right k

  pub reopen_superseded_commit-IsKept :
      (h : String) (l : Ledger) → IsKept l → IsKept (reopen_superseded_commit env h l).ledger
  unfolding reopen_superseded_commit
  reopen_superseded_commit-IsKept h l k =
      upsert_each-IsKept (reopened env) "history_rewrite_pending" (some h) _ l reopened_right k

  extended_right :
      (run : AgenticQueryRun) (q : String) (e : AgenticWorkEpisode)
      → IsClaimedRight e
      → IsClaimedRight (extended env run q e)
  unfolding extended
  extended_right run q e h = h

  new_episode_right :
      (run : AgenticQueryRun) (q at : String) → IsClaimedRight (new_episode env run q at)
  unfolding new_episode
  new_episode_right run q at = ((λ h. ground (arith, h)), (λ h. refl))

  pub extend_found-IsKept :
      (run : AgenticQueryRun) (q at : String) (found : Option AgenticWorkEpisode) (l : Ledger)
      → IsKept l
      → ((e : AgenticWorkEpisode) → found ≡ some e → IsSound e)
      → IsKept (extend_found env run q at found l).ledger
  unfolding extend_found
  extend_found-IsKept run q at (some e) l k h =
      upsert-IsKept (extended env run q e) "episode_extended" none l k
        (extended_right run q e (claimed_right (h e refl)))
  extend_found-IsKept run q at none l k h =
      let fresh = new_episode env run q at in
      let right = new_episode_right run q at in
      and_then-keeps IsKept (upsert env fresh "episode_created" none l)
        (upsert env (extended env run q fresh) "episode_extended" none)
        (upsert-IsKept fresh "episode_created" none l k right)
        (λ behind.
          upsert-IsKept (extended env run q fresh) "episode_extended" none
            (upsert env fresh "episode_created" none l).ledger behind
            (extended_right run q fresh right))

  -- The lookups list all that fits them.
  pub lookup_query-limit : (run : AgenticQueryRun) (q : String) → (lookup_query run q).limit ≡ none
  unfolding lookup_query
  lookup_query-limit run q = ground arith

  pub found-IsSound :
      (query : WorkEpisodeQuery) (p : AgenticWorkEpisode → Bool) (l : Ledger)
      (e : AgenticWorkEpisode)
      → query.limit ≡ none
      → IsKept l
      → find p (listed env query l) ≡ some e
      → IsSound e
  found-IsSound query p l e all k q =
      (list_episodes-held env.ledger_host query l e all k (find-Memᴰ p (listed env query l) e q)).1

  pub find_or_extend-IsKept :
      (run : AgenticQueryRun) (q at : String) (l : Ledger)
      → IsKept l
      → IsKept (find_or_extend env run q at l).ledger
  unfolding find_or_extend
  find_or_extend-IsKept run q at l k =
      extend_found-IsKept run q at
        (find (continues_with env run q at) (listed env (lookup_query run q) l)) l k
        (λ e.
          found-IsSound (lookup_query run q) (continues_with env run q at) l e
            (lookup_query-limit run q) k)

  pub observe_run-IsKept :
      (run : AgenticQueryRun) (l : Ledger) → IsKept l → IsKept (observe_run env run l).ledger
  unfolding observe_run observe_query
  observe_run-IsKept run l k =
      let q = get_or run.query_id "" in
      let at = run_time env run in
      if_ind (λ (m : Mutated). IsKept m.ledger) (q === "") (λ e. k)
        (λ e.
          and_then-keeps IsKept (mark_stale_open_episodes env at l) _
            (mark_stale_open_episodes-IsKept at l k)
            (λ marked.
              if_ind (λ (m : Mutated). IsKept m.ledger)
                (time_exceeds (some env.now) (env.ledger_host.host.get_time at) env.stale_ms)
                (λ e. marked)
                (λ e.
                  find_or_extend-IsKept run q at (mark_stale_open_episodes env at l).ledger
                    marked)))

  pub bind_found-IsKept :
      (item : QueryWorkEvidence) (found : Option AgenticWorkEpisode) (l : Ledger)
      → IsKept l
      → ((e : AgenticWorkEpisode) → found ≡ some e → IsSound e)
      → IsKept (bind_found env item found l).ledger
  unfolding bind_found bound
  bind_found-IsKept item none l k h = k
  bind_found-IsKept item (some e) l k h =
      upsert-IsKept (bound env item e) "episode_evidence_bound" none l k (claimed_right (h e refl))

  pub bind_item-IsKept :
      (item : QueryWorkEvidence) (l : Ledger) → IsKept l → IsKept (bind_item env item l).ledger
  unfolding bind_item
  bind_item-IsKept item l k =
      let query = record any_episode { query_id = some item.query_id } in
      let test = λ (e : AgenticWorkEpisode). includes e.query_ids item.query_id in
      bind_found-IsKept item (find test (listed env query l)) l k
        (λ e. found-IsSound query test l e refl k)

  pub observe_workspace_evidence-IsKept :
      (evidence : List QueryWorkEvidence) (l : Ledger)
      → IsKept l
      → IsKept (observe_workspace_evidence env evidence l).ledger
  unfolding observe_workspace_evidence
  observe_workspace_evidence-IsKept [] l k = k
  observe_workspace_evidence-IsKept (item ∷ evidence) l k =
      and_then-keeps IsKept (bind_item env item l) (observe_workspace_evidence env evidence)
        (bind_item-IsKept item l k)
        (observe_workspace_evidence-IsKept evidence (bind_item env item l).ledger)

  pub mark_claimed-IsKept :
      (id commit_hash claimed_at : String) (l : Ledger)
      → IsKept l
      → IsKept (mark_claimed env id commit_hash claimed_at l).ledger
  unfolding mark_claimed claim_found
  mark_claimed-IsKept id commit_hash claimed_at l k =
      of_found (head? (listed env (record any_episode { episode_id = some id }) l))
    where
      of_found :
          (found : Option AgenticWorkEpisode)
          → IsKept (claim_found env commit_hash claimed_at found l).ledger
      of_found none = k
      of_found (some e) =
          upsert-IsKept (claimed_for env commit_hash claimed_at e) "episode_claimed"
            (some commit_hash) l k ((λ h. refl), (λ h. ground (arith, h)))

  pub check_at_start-IsKept :
      (e : AgenticWorkEpisode) (l : Ledger) → IsKept l → IsKept (check_at_start env e l).ledger
  unfolding check_at_start
  check_at_start-IsKept e l k =
      if_ind (λ (m : Mutated). IsKept m.ledger) (eqb (get_or e.observation_schema_version 0) 1)
        (λ _.
          if_ind (λ (m : Mutated). IsKept m.ledger)
            (e.status === open_ && is_stale env e env.now_iso)
            (λ _. upsert-IsKept (stale_of e) "episode_stale" none l k (stale_right e)) (λ _. k))
        (λ _.
          upsert-IsKept (quarantined env e) "legacy_episode_quarantined" none l k
            ((λ h. ground (arith, h)), (λ h. ground (arith, h))))

  pub check_each-IsKept :
      (es : List AgenticWorkEpisode) (l : Ledger) → IsKept l → IsKept (check_each env es l).ledger
  unfolding check_each
  check_each-IsKept [] l k = k
  check_each-IsKept (e ∷ es) l k =
      and_then-keeps IsKept (check_at_start env e l) (check_each env es)
        (check_at_start-IsKept e l k) (check_each-IsKept es (check_at_start env e l).ledger)

  pub apply_retention-IsKept :
      (now days : ℕ) (retained : Option (List String)) (l : Ledger)
      → IsKept l
      → IsKept (apply_retention env.ledger_host now days retained l).ledger
  unfolding apply_retention
  apply_retention-IsKept now days retained l k =
      let stays = select (retains env.ledger_host now days retained) (values l) in
      let all_own =
        All-values Entry (λ (e : AgenticWorkEpisode). Entry (e.episode_id, e))
          (λ i e h. (refl, h.1)) l k.entries in
      if_ind (λ (w : Written). IsKept w.ledger) (eqb days 0 || eqb (length stays) (length l))
        (λ _. k)
        (λ _. record {
          unique = index_from-IsUnique (λ e. e.episode_id) [] stays tt;
          entries =
              All-index_from Entry (λ e. e.episode_id) [] stays tt
                (All-select (λ (e : AgenticWorkEpisode). Entry (e.episode_id, e))
                  (retains env.ledger_host now days retained) (values l) all_own);
        })
