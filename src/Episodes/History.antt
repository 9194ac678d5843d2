-- ===== src/Episodes/History.antt =====
-- What the episodes keep through the mutations.
use tirion_watch.Prelude.{
  String, some, List, [], ◌∷◌, ◌++◌, ◌≡◌, refl, sym, subst, ◌∙◌, true, if_ind, includes,
  includes-append, is_present, sorted_unique_strings, includes-sorted_unique_strings, str_leb,
  str_leb_total, str_leb_trans, text_comparable, map_get, arith,
}
use tirion_watch.Attribution.{QueryWorkEvidence, claimed, AgenticWorkEpisode}
use tirion_watch.Episodes.Evidence.{max_iso}
use tirion_watch.Episodes.Store.{Ledger, normalize_episode, status_comparable}
use tirion_watch.Episodes.Model.{
  AgenticQueryRun, TrackerHost, stale_of, extended, query_activity_at,
}
use tirion_watch.Episodes.{bound, claimed_for, reopened}
use tirion_watch.Episodes.Sound.{IsSound, IsKept}
use tirion_watch.Episodes.Steps.{
  Observes, run_observed, evidence_observed, Mutates, observation, commit_claimed,
  commit_superseded, Reachable, observation-IsKept, mutation-IsKept, reachable_IsKept,
}
use tirion_watch.Episodes.Progress.{
  Progress, Progress-refl, Progress-trans, observe_run-Progress,
  observe_workspace_evidence-Progress, mark_claimed-Progress, reopen_superseded_commit-Progress,
}

-- An episode later on: no query and no run of it is forgotten, and its last activity is not earlier.
pub record Grows (e later : AgenticWorkEpisode) : Type 0 where
  pub queries : (s : String) → includes e.query_ids s ≡ true → includes later.query_ids s ≡ true
  pub runs : (s : String) → includes e.run_ids s ≡ true → includes later.run_ids s ≡ true
  pub activity : str_leb e.last_agent_activity_at later.last_agent_activity_at ≡ true

str_leb_refl : (s : String) → str_leb s s ≡ true
str_leb_refl s = ground (arith, str_leb_total s s)

Grows-refl : (e : AgenticWorkEpisode) → Grows e e
Grows-refl e = record {
  queries = λ s h. h;
  runs = λ s h. h;
  activity = str_leb_refl e.last_agent_activity_at;
}

Grows-trans : (a b c : AgenticWorkEpisode) → Grows a b → Grows b c → Grows a c
Grows-trans a b c p q = record {
  queries = λ s h. q.queries s (p.queries s h);
  runs = λ s h. q.runs s (p.runs s h);
  activity =
      str_leb_trans a.last_agent_activity_at b.last_agent_activity_at c.last_agent_activity_at
        p.activity q.activity;
}

-- The form that the ledger stores loses nothing of a sound episode.
normalized : (e c : AgenticWorkEpisode) → IsSound e → Grows e c → Grows e (normalize_episode c)
unfolding normalize_episode
normalized e c sound g = record {
  queries = λ s h. ground (
    arith,
    includes-sorted_unique_strings c.query_ids s,
    g.queries s h,
    sound.queries.present s h,
  );
  runs = λ s h.
      ground
        (arith, includes-sorted_unique_strings c.run_ids s, g.runs s h, sound.runs.present s h);
  activity = g.activity;
}

longer :
    (texts more : List String) (s : String)
    → includes texts s ≡ true
    → is_present s ≡ true
    → includes (sorted_unique_strings (texts ++ more)) s ≡ true
longer texts more s h p =
    ground
      (arith, includes-sorted_unique_strings (texts ++ more) s, includes-append texts more s, h, p)

max_iso-later : (a b : String) → str_leb a (max_iso a b) ≡ true
unfolding max_iso
max_iso-later a b = if_ind (λ t. str_leb a t ≡ true) (str_leb a b) (λ e. e) (λ e. str_leb_refl a)

module _ (env : TrackerHost) where
  extended-Grows :
      (run : AgenticQueryRun) (q : String) (e : AgenticWorkEpisode)
      → IsSound e
      → Grows e (extended env run q e)
  unfolding extended
  extended-Grows run q e sound = record {
    queries = λ s h. longer e.query_ids (q ∷ []) s h (sound.queries.present s h);
    runs = λ s h. longer e.run_ids (run.id ∷ []) s h (sound.runs.present s h);
    activity = max_iso-later e.last_agent_activity_at (query_activity_at env run);
  }

  bound-Grows :
      (item : QueryWorkEvidence) (e : AgenticWorkEpisode) → IsSound e → Grows e (bound env item e)
  unfolding bound
  bound-Grows item e sound = record {
    queries = λ s h. h;
    runs = λ s h. longer e.run_ids item.run_ids s h (sound.runs.present s h);
    activity = max_iso-later e.last_agent_activity_at _;
  }

  -- A change of the status and the decision.
  same-Grows :
      (e c : AgenticWorkEpisode)
      → IsSound e
      → c.query_ids ≡ e.query_ids
      → c.run_ids ≡ e.run_ids
      → c.last_agent_activity_at ≡ e.last_agent_activity_at
      → Grows e (normalize_episode c)
  same-Grows e c sound p q r = normalized e c sound (record {
    queries = λ s h. subst (λ xs. includes xs s ≡ true) (sym p) h;
    runs = λ s h. subst (λ xs. includes xs s ≡ true) (sym q) h;
    activity =
        subst (λ t. str_leb e.last_agent_activity_at t ≡ true) (sym r)
          (str_leb_refl e.last_agent_activity_at);
  })

observation-Grows : {l m : Ledger} → Observes l m → IsKept l → Progress Grows l m
observation-Grows {l} (run_observed env run fresh) k =
    observe_run-Progress Grows env Grows-refl Grows-trans run l k fresh
      (λ e sound _. same-Grows env e (stale_of e) sound refl refl refl)
      (λ q e sound. normalized e (extended env run q e) sound (extended-Grows env run q e sound))
observation-Grows {l} (evidence_observed env evidence) k =
    observe_workspace_evidence-Progress Grows env Grows-refl Grows-trans evidence l k
      (λ item e sound. normalized e (bound env item e) sound (bound-Grows env item e sound))

mutation-Grows : {l m : Ledger} → Mutates l m → IsKept l → Progress Grows l m
mutation-Grows (observation o) k = observation-Grows o k
mutation-Grows {l} (commit_claimed env id hash at) k =
    mark_claimed-Progress Grows env Grows-refl l k id hash at
      (λ e sound. same-Grows env e (claimed_for env hash at e) sound refl refl refl)
mutation-Grows {l} (commit_superseded env hash) k =
    reopen_superseded_commit-Progress Grows env Grows-refl l k hash
      (λ e sound _. same-Grows env e (reopened env e) sound refl refl refl)

-- Mutations one after another.
pub data MutatesAll (l : Ledger) : Ledger → Type 0 where
  start_here : MutatesAll l l
  then_mutation : {m n : Ledger} → MutatesAll l m → Mutates m n → MutatesAll l n

growth : {l m : Ledger} → MutatesAll l m → IsKept l → IsKept m × Progress Grows l m
growth {l} start_here k = (k, Progress-refl Grows Grows-refl l)
growth {l} (then_mutation {m} {n} s t) k =
    let (between, p) = growth s k in
    (mutation-IsKept t between, Progress-trans Grows Grows-trans l m n p (mutation-Grows t between))

-- From a reachable ledger on, whatever is observed, claimed and superseded: an episode stays under its
-- identity with all its queries and runs, and its last activity does not go back. The mutations run
-- one after another, and a new episode gets an identity that is not in use.
pub episodes_only_grow :
    {l m : Ledger} (id : String) (e : AgenticWorkEpisode)
    → Reachable l
    → MutatesAll l m
    → map_get id l ≡ some e
    → (later : AgenticWorkEpisode) × (map_get id m ≡ some later) × Grows e later
episodes_only_grow id e r s h = (growth s (reachable_IsKept r)).1 id e h

-- A claimed episode stays claimed for the same commit.
abbrev KeepsClaim : AgenticWorkEpisode → AgenticWorkEpisode → Type 0
KeepsClaim e later =
    e.status ≡ claimed
    → (later.status ≡ claimed)
      × (later.claimed_by_commit_hash ≡ e.claimed_by_commit_hash)
      × (later.claimed_at ≡ e.claimed_at)

KeepsClaim-refl : (e : AgenticWorkEpisode) → KeepsClaim e e
KeepsClaim-refl e h = (h, refl, refl)

KeepsClaim-trans : (a b c : AgenticWorkEpisode) → KeepsClaim a b → KeepsClaim b c → KeepsClaim a c
KeepsClaim-trans a b c p q h = let (s, t, u) = p h in let (x, y, z) = q s in (x, (y ∙ t), (z ∙ u))

observation-KeepsClaim : {l m : Ledger} → Observes l m → IsKept l → Progress KeepsClaim l m
unfolding normalize_episode extended bound
observation-KeepsClaim {l} (run_observed env run fresh) k =
    observe_run-Progress KeepsClaim env KeepsClaim-refl KeepsClaim-trans run l k fresh
      (λ e sound is_open is_claimed. absurd (ground (arith, sym is_open ∙ is_claimed)))
      (λ q e sound h. (h, refl, refl))
observation-KeepsClaim {l} (evidence_observed env evidence) k =
    observe_workspace_evidence-Progress KeepsClaim env KeepsClaim-refl KeepsClaim-trans evidence l k
      (λ item e sound h. (h, refl, refl))

-- Observations one after another.
pub data ObservesAll (l : Ledger) : Ledger → Type 0 where
  none_yet : ObservesAll l l
  then_observed : {m n : Ledger} → ObservesAll l m → Observes m n → ObservesAll l n

survival : {l m : Ledger} → ObservesAll l m → IsKept l → IsKept m × Progress KeepsClaim l m
survival {l} none_yet k = (k, Progress-refl KeepsClaim KeepsClaim-refl l)
survival {l} (then_observed {m} {n} s t) k =
    let (between, p) = survival s k in
    (
      observation-IsKept t between,
      Progress-trans KeepsClaim KeepsClaim-trans l m n p (observation-KeepsClaim t between),
    )

-- From a reachable ledger on, an episode that is claimed for a commit stays claimed for it, since the
-- same time, whatever runs and evidence are observed; a new episode gets an identity that is not in
-- use.
pub claims_survive :
    {l m : Ledger} (id : String) (e : AgenticWorkEpisode)
    → Reachable l
    → ObservesAll l m
    → map_get id l ≡ some e
    → e.status ≡ claimed
    → (later : AgenticWorkEpisode) × (map_get id m ≡ some later)
      × (later.status ≡ claimed)
      × (later.claimed_by_commit_hash ≡ e.claimed_by_commit_hash)
      × (later.claimed_at ≡ e.claimed_at)
claims_survive id e r s h c =
    let (later, held, keeps) = (survival s (reachable_IsKept r)).1 id e h in
    let (status, hash, at) = keeps c in (later, held, status, hash, at)
