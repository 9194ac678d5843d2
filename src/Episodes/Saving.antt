-- ===== src/Episodes/Saving.antt =====
-- A write that does not throw, and statements one after another of which none throws.
use tirion_watch.Prelude.{
  String, Option, none, some, ◌≡◌, inl, inr, refl, sym, ap, true, false, not, if_ind,
  text_comparable, Bool-cases, map_get, map_set, map_set_same, arith,
}
use tirion_watch.Attribution.{AgenticWorkEpisode}
use tirion_watch.Episodes.Store.{
  LedgerHost, Ledger, Written, normalize_episode, unchanged, upsert_episode,
}
use tirion_watch.Episodes.Model.{TrackerHost, Mutated, and_then}
use tirion_watch.Episodes.{upsert}

-- Episodes with the same JSON text are the same.
abbrev pub TextsTell : LedgerHost → Type 0
TextsTell env = (a b : AgenticWorkEpisode) → env.same_text a b ≡ true → a ≡ b

unchanged_held :
    (env : LedgerHost) (next : AgenticWorkEpisode) (o : Option AgenticWorkEpisode)
    → TextsTell env
    → unchanged env o next ≡ true
    → o ≡ some next
unfolding unchanged
unchanged_held env next none tell h = ground (arith, h)
unchanged_held env next (some existing) tell h = ap some (tell existing next h)

-- A write that does not throw leaves the map with the episode, as it is stored.
pub upsert_episode-saved :
    (env : LedgerHost) (c : AgenticWorkEpisode) (l : Ledger)
    → TextsTell env
    → (upsert_episode env c l).threw ≡ false
    → (upsert_episode env c l).ledger ≡ map_set c.episode_id (normalize_episode c) l
unfolding upsert_episode normalize_episode
upsert_episode-saved env c l tell =
    let next = normalize_episode c in
    let changed = map_set c.episode_id next l in
    if_ind (λ (w : Written). w.threw ≡ false → w.ledger ≡ changed)
      (not (env.validate_attribution c)) (λ e h. absurd (ground (arith, h)))
      (λ e.
        if_ind (λ (w : Written). w.threw ≡ false → w.ledger ≡ changed)
          (unchanged env (map_get c.episode_id l) next)
          (λ same h. sym (
            map_set_same c.episode_id next l
              (unchanged_held env next (map_get c.episode_id l) tell same)))
          (λ other h. refl))

pub upsert-saved :
    (env : TrackerHost) (c : AgenticWorkEpisode) (reason : String) (commit_hash : Option String)
    (l : Ledger)
    → TextsTell env.ledger_host
    → (upsert env c reason commit_hash l).threw ≡ false
    → (upsert env c reason commit_hash l).ledger ≡ map_set c.episode_id (normalize_episode c) l
unfolding upsert
upsert-saved env c reason commit_hash l = upsert_episode-saved env.ledger_host c l

pub and_then-quiet :
    (first : Mutated) (next : Ledger → Mutated)
    → (and_then first next).threw ≡ false
    → (first.threw ≡ false)
      × ((next first.ledger).threw ≡ false)
      × ((and_then first next).ledger ≡ (next first.ledger).ledger)
unfolding and_then
and_then-quiet first next h = elim (Bool-cases first.threw) [
  | inl e ↦ absurd (ground (arith, e, h))
  | inr e ↦ (e, rw e at h, rw e refl)
]
