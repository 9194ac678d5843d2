-- ===== src/Budgets.antt =====
-- packages/agent/src/budgetWarningsService.ts: the warnings about runs, days and months whose tokens or
-- estimated costs reach a threshold. The stored documents are the fields of BudgetStore; `none` is a
-- thrown error.
mod Totals
mod Periods
mod Tests
use Prim.Native.String
use tirion_watch.Prelude.{
  ℕ, ◌+◌, ◌*◌, String, Option, none, some, List, [], ◌∷◌, ◌++◌, Bool, true, false, not, ◌&&◌, ◌||◌,
  if◌then◌else◌, ltb, leb, get_or, or_else, is_some, ◌===◌, text_comparable, str_leb, map_get,
  map_set, sort_by, at_most, then_by, slice_to, Host,
}

pub record BudgetThresholds : Type 0 where
  pub run_tokens : ℕ
  pub run_estimated_nano_usd : ℕ
  pub daily_estimated_nano_usd : ℕ
  pub monthly_estimated_nano_usd : ℕ

-- Of a run the fields stand that the warnings read.
pub record BudgetRun : Type 0 where
  pub run_id : String
  pub total_tokens : ℕ
  pub estimated_nano_usd : Option ℕ
  pub started_at : String

pub data WarningKind : Type 0 where
  for_run_tokens for_run_cost for_daily_cost for_monthly_cost : WarningKind

pub data WarningUnit : Type 0 where
  tokens nano_usd : WarningUnit

pub record BudgetWarning : Type 0 where
  pub warning_id : String
  pub kind : WarningKind
  pub run_id : Option String
  pub period_start : Option String
  pub observed : ℕ
  pub threshold : ℕ
  pub unit : WarningUnit
  pub created_at : String

pub record PeriodTotal : Type 0 where
  pub total : ℕ
  pub latest : String

pub data Period : Type 0 where
  day month : Period

-- `new Date(at).toISOString()`, and the SHA-256 digest of a text in hexadecimal.
pub record BudgetHost : Type 0 where
  pub host : Host
  pub to_iso : ℕ → String
  pub digest : String → String

pub record BudgetStore : Type 0 where
  pub config : Option BudgetThresholds
  pub warnings : List BudgetWarning

-- The store behind a call, and whether the call threw.
pub record Rebuilt : Type 0 where
  pub store : BudgetStore
  pub threw : Bool

abbrev pub Periods : Type 0
Periods = List (String × PeriodTotal)

abbrev default_thresholds : BudgetThresholds
default_thresholds = record {
  run_tokens = 50000;
  run_estimated_nano_usd = 100000000;
  daily_estimated_nano_usd = 1000000000;
  monthly_estimated_nano_usd = 10000000000;
}

positive_safe_integer : ℕ → Bool
positive_safe_integer value = leb value 9007199254740991 && ltb 0 value

unfoldable pub valid_thresholds : BudgetThresholds → Bool
unfolding positive_safe_integer
valid_thresholds thresholds =
    positive_safe_integer thresholds.run_tokens
    && positive_safe_integer thresholds.run_estimated_nano_usd
    && positive_safe_integer thresholds.daily_estimated_nano_usd
    && positive_safe_integer thresholds.monthly_estimated_nano_usd

abbrev kind_text : WarningKind → String
kind_text for_run_tokens = "run_tokens"
kind_text for_run_cost = "run_estimated_cost"
kind_text for_daily_cost = "daily_estimated_cost"
kind_text for_monthly_cost = "monthly_estimated_cost"

unfoldable pub add_period : Periods → String → ℕ → String → Periods
add_period target period amount at = map_set period (added (map_get period target)) target
  where
    added : Option PeriodTotal → PeriodTotal
    added none = record { total = amount; latest = at }
    added (some current) = record {
      total = current.total + amount;
      latest = if str_leb current.latest at then at else current.latest;
    }

-- The warnings of the single runs, and the totals of the periods.
pub record Tally : Type 0 where
  pub warnings : List BudgetWarning
  pub daily : Periods
  pub monthly : Periods

module _ (env : BudgetHost) where
  unfoldable pub period_start : String → Period → Option String
  period_start value period = elim (env.host.get_time value) [
    | none ↦ none
    | some at ↦ some (start_of period (env.to_iso at))
  ]
    where
      start_of : Period → String → String
      start_of day iso = String.◌++◌ (slice_to 10 iso) "T00:00:00.000Z"
      start_of month iso = String.◌++◌ (slice_to 7 iso) "-01T00:00:00.000Z"

  unfoldable pub warning :
      WarningKind → Option String → Option String → ℕ → ℕ → WarningUnit → String → BudgetWarning
  warning kind run_id period observed threshold unit created_at = record {
    warning_id = String.◌++◌ "warning_" (
        env.digest
          (String.◌++◌ (kind_text kind) (String.◌++◌ "|" (get_or (or_else run_id period) ""))));
    kind = kind;
    run_id = run_id;
    period_start = period;
    observed = observed;
    threshold = threshold;
    unit = unit;
    created_at = created_at;
  }

  unfoldable pub token_warnings : BudgetThresholds → BudgetRun → List BudgetWarning
  token_warnings thresholds run =
      if leb thresholds.run_tokens run.total_tokens
      then warning for_run_tokens (some run.run_id) none run.total_tokens thresholds.run_tokens
          tokens run.started_at
        ∷ []
      else []

  unfoldable pub cost_warnings : BudgetThresholds → BudgetRun → Option ℕ → List BudgetWarning
  cost_warnings thresholds run none = []
  cost_warnings thresholds run (some cost) =
      if leb thresholds.run_estimated_nano_usd cost
      then warning for_run_cost (some run.run_id) none cost thresholds.run_estimated_nano_usd
          nano_usd run.started_at
        ∷ []
      else []

  unfoldable pub run_warnings : BudgetThresholds → BudgetRun → List BudgetWarning
  unfolding token_warnings cost_warnings
  run_warnings thresholds run =
      token_warnings thresholds run ++ cost_warnings thresholds run run.estimated_nano_usd

  unfoldable pub add_to_periods :
      BudgetRun → ℕ → Option String → Option String → Tally → Option Tally
  add_to_periods run cost (some its_day) (some its_month) tally = some (record tally {
    daily = add_period tally.daily its_day cost run.started_at;
    monthly = add_period tally.monthly its_month cost run.started_at;
  })
  add_to_periods run cost _ _ tally = none

  -- One turn of the loop over the runs.
  unfoldable pub add_run : BudgetThresholds → BudgetRun → Option ℕ → Tally → Option Tally
  add_run thresholds run none tally =
      some (record tally { warnings = tally.warnings ++ run_warnings thresholds run })
  add_run thresholds run (some cost) tally =
      add_to_periods run cost (period_start run.started_at day) (period_start run.started_at month)
        (record tally { warnings = tally.warnings ++ run_warnings thresholds run })

  unfoldable pub tally_runs : BudgetThresholds → List BudgetRun → Option Tally → Option Tally
  tally_runs thresholds runs none = none
  tally_runs thresholds [] (some tally) = some tally
  tally_runs thresholds (r ∷ rs) (some tally) =
      tally_runs thresholds rs (add_run thresholds r r.estimated_nano_usd tally)

  unfoldable pub period_warnings : WarningKind → ℕ → Periods → List BudgetWarning
  period_warnings kind threshold [] = []
  period_warnings kind threshold ((period, value) ∷ rest) =
      let later = period_warnings kind threshold rest in
      let own = warning kind none (some period) value.total threshold nano_usd value.latest in
      if leb threshold value.total then own ∷ later else later

  -- `compare(left, right) <= 0` of the final sort.
  abbrev pub newest_first : BudgetWarning → BudgetWarning → Bool
  newest_first left right = at_most (
      then_by (env.host.locale_compare right.created_at left.created_at)
        (env.host.locale_compare left.warning_id right.warning_id))

  unfoldable pub warnings_of : BudgetThresholds → Tally → List BudgetWarning
  warnings_of thresholds tally = sort_by newest_first (
      tally.warnings
      ++ (period_warnings for_daily_cost thresholds.daily_estimated_nano_usd tally.daily
          ++ period_warnings for_monthly_cost thresholds.monthly_estimated_nano_usd tally.monthly))

  unfoldable pub warnings_for_runs : List BudgetRun → BudgetThresholds → Option (List BudgetWarning)
  warnings_for_runs runs thresholds =
      elim (tally_runs thresholds runs
        (some (record { warnings = []; daily = []; monthly = [] }))) [
          | none ↦ none
          | some tally ↦ some (warnings_of thresholds tally)
        ]

  -- The thresholds in force; stored ones that are not valid throw.
  unfoldable pub thresholds_of : Option BudgetThresholds → Option BudgetThresholds
  thresholds_of none = some default_thresholds
  thresholds_of (some configured) = if valid_thresholds configured then some configured else none

  rebuild_with : List BudgetRun → BudgetStore → Option BudgetThresholds → Rebuilt
  rebuild_with runs store none = record { store = store; threw = true }
  rebuild_with runs store (some thresholds) = elim (warnings_for_runs runs thresholds) [
    | none ↦ record { store = store; threw = true }
    | some warnings ↦ record { store = record store { warnings = warnings }; threw = false }
  ]

  unfoldable pub rebuild : List BudgetRun → BudgetStore → Rebuilt
  unfolding rebuild_with
  rebuild runs store = rebuild_with runs store (thresholds_of store.config)

  -- The thresholds are stored before the warnings are made again.
  unfoldable pub configure : BudgetThresholds → List BudgetRun → BudgetStore → Rebuilt
  configure thresholds runs store =
      if valid_thresholds thresholds
      then rebuild runs (record store { config = some thresholds })
      else record { store = store; threw = true }
