-- ===== src/Episodes/Steps.antt =====
-- The steps of the tracker and the ledger, and the invariant of the ledgers that they reach.
use tirion_watch.Prelude.{
  ℕ, String, Option, none, some, List, [], ◌≡◌, Bool, if_ind, text_comparable, map_get,
}
use tirion_watch.Attribution.{QueryWorkEvidence, AgenticWorkEpisode}
use tirion_watch.Episodes.Store.{any_episode, Ledger, apply_retention, status_comparable}
use tirion_watch.Episodes.Loads.{Loading, initialize}
use tirion_watch.Episodes.Model.{AgenticQueryRun, TrackerHost}
use tirion_watch.Episodes.{
  listed, observe_run, observe_workspace_evidence, mark_claimed, reopen_superseded_commit, Started,
  start,
}
use tirion_watch.Episodes.Sound.{IsKept, empty-IsKept}
use tirion_watch.Episodes.Kept.{
  reopen_superseded_commit-IsKept, observe_run-IsKept, observe_workspace_evidence-IsKept,
  mark_claimed-IsKept, check_each-IsKept, apply_retention-IsKept,
}

-- What is observed of queries and of files; a new episode gets an identity that is not in use.
pub data Observes (l : Ledger) : Ledger → Type 0 where
  run_observed :
      (env : TrackerHost) (run : AgenticQueryRun)
      → map_get env.random_uuid l ≡ none
      → Observes l (observe_run env run l).ledger
  evidence_observed :
      (env : TrackerHost) (evidence : List QueryWorkEvidence)
      → Observes l (observe_workspace_evidence env evidence l).ledger

-- The mutations that the queue of the tracker runs one after another.
pub data Mutates (l : Ledger) : Ledger → Type 0 where
  observation : {m : Ledger} → Observes l m → Mutates l m
  commit_claimed :
      (env : TrackerHost) (id commit_hash claimed_at : String)
      → Mutates l (mark_claimed env id commit_hash claimed_at l).ledger
  commit_superseded :
      (env : TrackerHost) (commit_hash : String)
      → Mutates l (reopen_superseded_commit env commit_hash l).ledger

-- All operations on a ledger that is loaded, whatever the time, the stale span and the outcome of the
-- writes; a start runs with no mutation beside it.
pub data Step (l : Ledger) : Ledger → Type 0 where
  mutation : {m : Ledger} → Mutates l m → Step l m
  retained :
      (env : TrackerHost) (now days : ℕ) (query_ids : Option (List String))
      → Step l (apply_retention env.ledger_host now days query_ids l).ledger
  tracker_started :
      (env : TrackerHost) (stored : List AgenticWorkEpisode) (running : Bool) (loading : Loading)
      → Step l
          (start env stored running
            (record { episodes = l; loading = some loading })).state.episodes
  cleared : Step l []

-- The ledgers that steps reach from the empty one.
pub data Reachable : Ledger → Type 0 where
  empty : Reachable []
  step : {l m : Ledger} → Reachable l → Step l m → Reachable m

pub observation-IsKept : {l m : Ledger} → Observes l m → IsKept l → IsKept m
observation-IsKept {l} (run_observed env run fresh) k = observe_run-IsKept env run l k
observation-IsKept {l} (evidence_observed env evidence) k =
    observe_workspace_evidence-IsKept env evidence l k

pub mutation-IsKept : {l m : Ledger} → Mutates l m → IsKept l → IsKept m
mutation-IsKept (observation o) k = observation-IsKept o k
mutation-IsKept {l} (commit_claimed env id commit_hash claimed_at) k =
    mark_claimed-IsKept env id commit_hash claimed_at l k
mutation-IsKept {l} (commit_superseded env commit_hash) k =
    reopen_superseded_commit-IsKept env commit_hash l k

start-IsKept :
    (env : TrackerHost) (stored : List AgenticWorkEpisode) (running : Bool) (loading : Loading)
    (l : Ledger)
    → IsKept l
    → IsKept
        (start env stored running (record { episodes = l; loading = some loading })).state.episodes
unfolding start initialize
start-IsKept env stored running loading l k =
    if_ind (λ (s : Started). IsKept s.state.episodes) running (λ _. k)
      (λ _.
        if_ind (λ (s : Started). IsKept s.state.episodes) loading.threw (λ _. k)
          (λ _. check_each-IsKept env (listed env any_episode l) l k))

Step-IsKept : {l m : Ledger} → Step l m → IsKept l → IsKept m
Step-IsKept (mutation s) k = mutation-IsKept s k
Step-IsKept {l} (retained env now days query_ids) k =
    apply_retention-IsKept env now days query_ids l k
Step-IsKept {l} (tracker_started env stored running loading) k =
    start-IsKept env stored running loading l k
Step-IsKept cleared k = empty-IsKept

-- In every ledger that the operations reach no identity stands twice, each episode stands under its
-- own, and its lists are sorted, without blanks and repetitions; a claimed episode names its commit, and
-- an open one names none.
pub reachable_IsKept : {l : Ledger} → Reachable l → IsKept l
reachable_IsKept empty = empty-IsKept
reachable_IsKept (step r s) = Step-IsKept s (reachable_IsKept r)
