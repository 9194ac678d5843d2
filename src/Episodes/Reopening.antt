-- ===== src/Episodes/Reopening.antt =====
-- A commit that the history no longer holds: its episodes are open again, and no others change.
use mathlib.Core.List.{Memᴰ}
use tirion_watch.Prelude.{
  String, none, some, List, [], ◌∷◌, ◌≡◌, ◌≢◌, inl, inr, refl, sym, ap, subst, ◌∙◌, true, false,
  ◌||◌, ◌===◌, text_comparable, option_equal, option_equal_iff, option_comparable, eq_iff,
  Bool-cases, map_get, map_set, map_get-map_set, map_get-Memᴰ, values, select, select-Memᴰ,
  sort_by-Memᴰ, arith,
}
use tirion_watch.Attribution.{AgenticWorkEpisode}
use tirion_watch.Episodes.Store.{
  any_episode, Ledger, normalize_episode, matches_query, list_episodes, latest_activity_first,
  status_comparable,
}
use tirion_watch.Episodes.Model.{TrackerHost}
use tirion_watch.Episodes.{upsert, upsert_each, reopened, listed, reopen_superseded_commit}
use tirion_watch.Episodes.Sound.{IsKept, held}
use tirion_watch.Episodes.Steps.{Reachable, reachable_IsKept}
use tirion_watch.Episodes.Saving.{TextsTell, upsert-saved, and_then-quiet}
use tirion_watch.Episodes.Progress.{reopen_superseded_commit-Progress}

module _ (env : TrackerHost) (hash : String) where
  -- The episodes that the ledger holds for the commit are among those that the loop still goes over.
  abbrev Waiting : List AgenticWorkEpisode → Ledger → Type 0
  Waiting es m =
      (id : String) (v : AgenticWorkEpisode)
      → map_get id m ≡ some v
      → v.claimed_by_commit_hash ≡ some hash
      → Memᴰ v es × (v.episode_id ≡ id)

  reopened_waits_not :
      (e : AgenticWorkEpisode) (es : List AgenticWorkEpisode) (m : Ledger)
      → Waiting (e ∷ es) m
      → Waiting es (map_set e.episode_id (normalize_episode (reopened env e)) m)
  unfolding normalize_episode
  reopened_waits_not e es m w id v q c = elim (Bool-cases (e.episode_id === id)) [
    | inl same ↦
        let entry : some (normalize_episode (reopened env e)) ≡ some v =
          (rw same at
            (sym (map_get-map_set e.episode_id id (normalize_episode (reopened env e)) m)))
          ∙ q in
        let value : normalize_episode (reopened env e) ≡ v = cc entry in
        let free : none ≡ some hash = ap (λ a. a.claimed_by_commit_hash) value ∙ c in
        absurd (ground (arith, free))
    | inr other ↦
        let there =
          (rw other at
            (sym (map_get-map_set e.episode_id id (normalize_episode (reopened env e)) m)))
          ∙ q in
        let (among, own) = w id v there c in
        (rest (ground (arith, other, eq_iff e.episode_id id)) own among, own)
  ]
    where
      rest : e.episode_id ≢ id → v.episode_id ≡ id → Memᴰ v (e ∷ es) → Memᴰ v es
      rest n own (Memᴰ.head p) = absurd (n (sym (ap (λ a. a.episode_id) p) ∙ own))
      rest n own (Memᴰ.tail m) = m

  none_waits :
      (es : List AgenticWorkEpisode) (m : Ledger)
      → TextsTell env.ledger_host
      → Waiting es m
      → (upsert_each env (reopened env) "history_rewrite_pending" (some hash) es m).threw ≡ false
      → Waiting []
          (upsert_each env (reopened env) "history_rewrite_pending" (some hash) es m).ledger
  unfolding upsert_each
  none_waits [] m tell w h = w
  none_waits (e ∷ es) m tell w h =
      let first = upsert env (reopened env e) "history_rewrite_pending" (some hash) m in
      let rest = upsert_each env (reopened env) "history_rewrite_pending" (some hash) es in
      let (quiet, later, same) = and_then-quiet first rest h in
      let saved =
        upsert-saved env (reopened env e) "history_rewrite_pending" (some hash) m tell quiet in
      subst (Waiting []) (sym same) (
        none_waits es first.ledger tell
          (subst (Waiting es) (sym saved) (reopened_waits_not e es m w)) later)

  commit_fits :
      (a : AgenticWorkEpisode)
      → matches_query (record any_episode { commit_hash = some hash }) a
        ≡ (hash === "" || option_equal a.claimed_by_commit_hash (some hash))
  unfolding matches_query
  commit_fits a = ground arith

  all_listed :
      (l : Ledger)
      → IsKept l
      → Waiting (listed env (record any_episode { commit_hash = some hash }) l) l
  unfolding list_episodes
  all_listed l k id v q c =
      let query = record any_episode { commit_hash = some hash } in
      (
        sort_by-Memᴰ (latest_activity_first env.ledger_host)
            (select (matches_query query) (values l))
            (select-Memᴰ (matches_query query) (values l) (map_get-Memᴰ id v l q) (
              commit_fits v
              ∙ ground (arith, (option_equal_iff v.claimed_by_commit_hash (some hash)).1 c))),
        sym (held l id v k q).0,
      )

  -- Where no write throws, and episodes with the same JSON text are the same, no episode of a reachable
  -- ledger is claimed for a commit once that is reported as superseded.
  pub superseded_claims_nothing :
      (l : Ledger) (id : String) (e : AgenticWorkEpisode)
      → Reachable l
      → TextsTell env.ledger_host
      → (reopen_superseded_commit env hash l).threw ≡ false
      → map_get id (reopen_superseded_commit env hash l).ledger ≡ some e
      → e.claimed_by_commit_hash ≢ some hash
  unfolding reopen_superseded_commit
  superseded_claims_nothing l id e r tell quiet q c =
      let query = record any_episode { commit_hash = some hash } in
      let (among, own) =
        none_waits (listed env query l) l tell (all_listed l (reachable_IsKept r)) quiet id e q c in
      elim among [ ]

  -- An episode of a reachable ledger that is not claimed for a commit stays as it is when that commit
  -- is superseded; the identity of the commit is not empty.
  pub other_claims_stay :
      (l : Ledger) (id : String) (e : AgenticWorkEpisode)
      → Reachable l
      → hash ≢ ""
      → map_get id l ≡ some e
      → e.claimed_by_commit_hash ≢ some hash
      → map_get id (reopen_superseded_commit env hash l).ledger ≡ some e
  other_claims_stay l id e r named q other =
      let (later, there, same) =
        reopen_superseded_commit-Progress Stays env (λ a n. refl) l (reachable_IsKept r) hash
          (λ a sound fits n. absurd (n (claimed_here a fits))) id e q in
      there ∙ ap some (same other)
    where
      Stays : AgenticWorkEpisode → AgenticWorkEpisode → Type 0
      Stays a b = a.claimed_by_commit_hash ≢ some hash → b ≡ a

      claimed_here :
          (a : AgenticWorkEpisode)
          → matches_query (record any_episode { commit_hash = some hash }) a ≡ true
          → a.claimed_by_commit_hash ≡ some hash
      claimed_here a fits =
          (option_equal_iff a.claimed_by_commit_hash (some hash)).0
            (ground (arith, sym (commit_fits a) ∙ fits, named, eq_iff hash ""))
