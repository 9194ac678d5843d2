-- ===== src/Episodes/Loads.antt =====
-- src/storage/workEpisodeLedger.ts: `ensureLoaded` and `loadAndCompact`. The load happens once; its
-- promise, with the number of episodes that it removed, is kept. The stored episodes are given.
use tirion_watch.Prelude.{
  ℕ, ◌-◌, Option, none, some, List, Bool, not, ◌&&◌, every, ltb, length, values,
}
use tirion_watch.Attribution.{AgenticWorkEpisode}
use tirion_watch.Episodes.Store.{LedgerHost, Ledger}
use tirion_watch.Episodes.Compaction.{compact_episodes, load_and_compact}

-- What became of the load.
pub record Loading : Type 0 where
  pub removed : ℕ
  pub threw : Bool

pub record LedgerState : Type 0 where
  pub episodes : Ledger
  pub loading : Option Loading

module _ (env : LedgerHost) where
  -- A load that joined episodes writes the file, which validates every episode.
  unfoldable pub first_load : List AgenticWorkEpisode → Ledger × Loading
  first_load stored =
      let episodes = load_and_compact env.host stored in
      let removed = length stored - length (compact_episodes env.host stored) in
      (
        episodes,
        record {
          removed = removed;
          threw = ltb 0 removed && not (every env.validate_attribution (values episodes));
        },
      )

  unfoldable pub initialize : List AgenticWorkEpisode → LedgerState → Ledger × Loading
  unfolding first_load
  initialize stored state = elim state.loading [
    | none ↦ first_load stored
    | some loading ↦ (state.episodes, loading)
  ]
