-- ===== src/Budgets/Tests.antt =====
-- Two runs of a day that together reach the threshold of the day.
use Prim.Native.Nat.{Ordering}
use tirion_watch.Prelude.{
  how_many, ℕ, String, none, some, List, [], ◌∷◌, ◌≡◌, refl, true, not, ◌||◌, if◌then◌else◌, every,
  eqb, leb, map_get, map_set, sort_by, insert_sorted, slice_to, width, str_leb, units, arith,
}
use tirion_watch.Budgets.{
  BudgetThresholds, BudgetRun, BudgetWarning, for_daily_cost, nano_usd, day, BudgetHost, add_period,
  period_start, warning, run_warnings, token_warnings, cost_warnings, add_to_periods, add_run,
  tally_runs, period_warnings, warnings_of, warnings_for_runs,
}
use tirion_watch.Budgets.Totals.{is_about, cost_in, spent}
use tirion_watch.Budgets.Periods.{period_is_warned_of}

abbrev env : BudgetHost
env = record {
  host = record { get_time = λ text. some 0; locale_compare = λ a b. Ordering.eq };
  to_iso = λ at. "2026-06-15T09:00:00.000Z";
  digest = λ text. text;
}

abbrev run : String → ℕ → BudgetRun
run id cost = record {
  run_id = id;
  total_tokens = 10;
  estimated_nano_usd = some cost;
  started_at = "2026-06-15T09:00:00.000Z";
}

abbrev thresholds : BudgetThresholds
thresholds = record {
  run_tokens = 1000;
  run_estimated_nano_usd = 1000;
  daily_estimated_nano_usd = 100;
  monthly_estimated_nano_usd = 1000;
}

program : Unit {0}
unfolding add_period period_start warning run_warnings token_warnings cost_warnings add_to_periods
    add_run tally_runs period_warnings warnings_of warnings_for_runs map_get map_set sort_by
    insert_sorted slice_to width cost_in str_leb units
program = tt

abbrev today : String
today = "2026-06-15T00:00:00.000Z"

abbrev warned : BudgetWarning
warned = record {
  warning_id = "warning_daily_estimated_cost|2026-06-15T00:00:00.000Z";
  kind = for_daily_cost;
  run_id = none;
  period_start = some today;
  observed = 120;
  threshold = 100;
  unit = nano_usd;
  created_at = "2026-06-15T09:00:00.000Z";
}

abbrev runs : List BudgetRun
runs = run "a" 70 ∷ run "b" 50 ∷ []

warnings_of_runs : warnings_for_runs env runs thresholds ≡ some (warned ∷ [])
unfolding program
warnings_of_runs = refl

period_is_warned_of_example :
    (how_many (is_about day today) (warned ∷ [])
      ≡ (if leb 100 (spent env day today runs) then 1 else 0))
    × (every
          (λ w. not (is_about day today w) || eqb w.observed (spent env day today runs))
          (warned ∷ [])
        ≡ true)
period_is_warned_of_example =
    period_is_warned_of env day today runs thresholds (warned ∷ []) warnings_of_runs (omega arith)
