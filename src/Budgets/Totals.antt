-- ===== src/Budgets/Totals.antt =====
-- The totals of the days and months behind the loop over the runs.
use tirion_watch.Prelude.{
  ℕ, ◌+◌, String, Option, none, some, List, [], ◌∷◌, ◌++◌, ◌≡◌, inl, inr, refl, subst, Bool, true,
  false, ◌&&◌, if◌then◌else◌, how_many, how_many-append, get_or, IsUnique, ◌===◌, text_comparable,
  option_comparable, option_equal, eq_iff, Bool-cases, Option-cases, map_get, map_get-map_set,
  map_set-IsUnique, keys, arith,
}
use tirion_watch.Budgets.{
  BudgetThresholds, BudgetRun, WarningKind, for_daily_cost, for_monthly_cost, BudgetWarning,
  PeriodTotal, Period, day, month, BudgetHost, Periods, Tally, add_period, period_start, warning,
  token_warnings, cost_warnings, run_warnings, add_to_periods, add_run, tally_runs,
}

-- What stands for a period in the source: its kind of warning and its threshold.
abbrev pub kind_of : Period → WarningKind
kind_of day = for_daily_cost
kind_of month = for_monthly_cost

abbrev pub threshold_of : Period → BudgetThresholds → ℕ
threshold_of day thresholds = thresholds.daily_estimated_nano_usd
threshold_of month thresholds = thresholds.monthly_estimated_nano_usd

abbrev pub concerns : Period → WarningKind → Bool
concerns day for_daily_cost = true
concerns month for_monthly_cost = true
concerns _ _ = false

abbrev pub periods_of : Period → Tally → Periods
periods_of day tally = tally.daily
periods_of month tally = tally.monthly

-- A warning of the kind about the period that starts there, and one whose amount passes a test.
abbrev pub is_about : Period → String → BudgetWarning → Bool
is_about period start w = concerns period w.kind && option_equal w.period_start (some start)

abbrev pub warns_of : Period → String → (ℕ → Bool) → BudgetWarning → Bool
warns_of period start test w = is_about period start w && test w.observed

unfoldable pub total_of : Option PeriodTotal → ℕ
total_of none = 0
total_of (some value) = value.total

module _ (env : BudgetHost) where
  -- The costs of a run in a period, and their sum over the runs.
  unfoldable pub cost_in : Period → String → BudgetRun → ℕ
  cost_in period start run =
      if option_equal (period_start env run.started_at period) (some start)
      then get_or run.estimated_nano_usd 0
      else 0

  abbrev pub spent : Period → String → List BudgetRun → ℕ
  spent period start [] = 0
  spent period start (r ∷ rs) = cost_in period start r + spent period start rs

  add_period-total :
      (m : Periods) (k : String) (amount : ℕ) (at start : String)
      → total_of (map_get start (add_period m k amount at))
        ≡ total_of (map_get start m) + (if k === start then amount else 0)
  unfolding add_period total_of
  add_period-total m k amount at start = elim (Bool-cases (k === start)) [
    | inl same ↦
        rw (map_get-map_set k start _ m, same, (eq_iff k start).0 same)
          (elim (Option-cases (map_get start m)) [
            | inl e ↦ rw e (omega arith)
            | inr (v, e) ↦ rw e refl
          ])
    | inr other ↦ rw (map_get-map_set k start _ m, other) (omega arith)
  ]

  -- A tally so far: no period twice, and no warning about one.
  pub record IsTally (t : Tally) : Type 0 where
    pub daily_unique : IsUnique (keys t.daily)
    pub monthly_unique : IsUnique (keys t.monthly)
    pub only_runs :
        (period : Period) (start : String) (test : ℕ → Bool)
        → how_many (warns_of period start test) t.warnings ≡ 0

  run_warnings-concerns :
      (thresholds : BudgetThresholds) (r : BudgetRun) (period : Period) (start : String)
      (test : ℕ → Bool)
      → how_many (warns_of period start test) (run_warnings env thresholds r) ≡ 0
  unfolding run_warnings token_warnings cost_warnings warning
  run_warnings-concerns thresholds r day start test = elim (Option-cases r.estimated_nano_usd) [
    | inl e ↦ rw e (ground arith)
    | inr (c, e) ↦ rw e (ground arith)
  ]
  run_warnings-concerns thresholds r month start test = elim (Option-cases r.estimated_nano_usd) [
    | inl e ↦ rw e (ground arith)
    | inr (c, e) ↦ rw e (ground arith)
  ]

  add_period-IsUnique :
      (m : Periods) (k : String) (amount : ℕ) (at : String)
      → IsUnique (keys m)
      → IsUnique (keys (add_period m k amount at))
  unfolding add_period
  add_period-IsUnique m k amount at u = map_set-IsUnique k _ m u

  -- What a run adds to a period.
  Adds : BudgetRun → Tally → Tally → Type 0
  Adds r t later =
      IsTally later
      × ((period : Period) (start : String)
          → total_of (map_get start (periods_of period later))
            ≡ total_of (map_get start (periods_of period t)) + cost_in period start r)

  more_warnings :
      (thresholds : BudgetThresholds) (r : BudgetRun) (t : Tally)
      → IsTally t
      → (period : Period) (start : String) (test : ℕ → Bool)
      → how_many (warns_of period start test) (t.warnings ++ run_warnings env thresholds r) ≡ 0
  more_warnings thresholds r t k period start test = omega (
    arith,
    how_many-append (warns_of period start test) t.warnings (run_warnings env thresholds r),
    k.only_runs period start test,
    run_warnings-concerns thresholds r period start test,
  )

  add_to_periods-Adds :
      (thresholds : BudgetThresholds) (r : BudgetRun) (cost : ℕ) (t later : Tally)
      (d m : Option String)
      → r.estimated_nano_usd ≡ some cost
      → period_start env r.started_at day ≡ d
      → period_start env r.started_at month ≡ m
      → IsTally t
      → add_to_periods env r cost d m
          (record t { warnings = t.warnings ++ run_warnings env thresholds r })
        ≡ some later
      → Adds r t later
  unfolding add_to_periods Adds cost_in
  add_to_periods-Adds thresholds r cost t later (some d) (some m) e p q k h =
      let next = record t {
        warnings = t.warnings ++ run_warnings env thresholds r;
        daily = add_period t.daily d cost r.started_at;
        monthly = add_period t.monthly m cost r.started_at;
      } in
      let same_entry : some next ≡ some later = h in
      let same : next ≡ later = cc same_entry in
      subst (Adds r t) same (
        record {
          daily_unique = add_period-IsUnique t.daily d cost r.started_at k.daily_unique;
          monthly_unique = add_period-IsUnique t.monthly m cost r.started_at k.monthly_unique;
          only_runs = more_warnings thresholds r t k;
        },
        totals,
      )
    where
      totals :
          (period : Period) (start : String)
          → total_of (
              map_get start (
                periods_of period (record t {
                  warnings = t.warnings ++ run_warnings env thresholds r;
                  daily = add_period t.daily d cost r.started_at;
                  monthly = add_period t.monthly m cost r.started_at;
                })))
            ≡ total_of (map_get start (periods_of period t)) + cost_in period start r
      totals day start = rw (p, e) (add_period-total t.daily d cost r.started_at start)
      totals month start = rw (q, e) (add_period-total t.monthly m cost r.started_at start)
  add_to_periods-Adds thresholds r cost t later none m e p q k h = ground (arith, h)
  add_to_periods-Adds thresholds r cost t later (some d) none e p q k h = ground (arith, h)

  add_run-Adds :
      (thresholds : BudgetThresholds) (r : BudgetRun) (cost : Option ℕ) (t later : Tally)
      → r.estimated_nano_usd ≡ cost
      → IsTally t
      → add_run env thresholds r cost t ≡ some later
      → Adds r t later
  unfolding add_run Adds cost_in
  add_run-Adds thresholds r (some cost) t later e k h =
      add_to_periods-Adds thresholds r cost t later (period_start env r.started_at day)
        (period_start env r.started_at month) e refl refl k h
  add_run-Adds thresholds r none t later e k h =
      let next = record t { warnings = t.warnings ++ run_warnings env thresholds r } in
      let same_entry : some next ≡ some later = h in
      let same : next ≡ later = cc same_entry in
      subst (Adds r t) same (
        record {
          daily_unique = k.daily_unique;
          monthly_unique = k.monthly_unique;
          only_runs = more_warnings thresholds r t k;
        },
        totals,
      )
    where
      totals :
          (period : Period) (start : String)
          → total_of (
              map_get start (
                periods_of period
                  (record t { warnings = t.warnings ++ run_warnings env thresholds r })))
            ≡ total_of (map_get start (periods_of period t)) + cost_in period start r
      totals day start = rw e (ground arith)
      totals month start = rw e (ground arith)

  pub tally_runs-spent :
      (thresholds : BudgetThresholds) (rs : List BudgetRun) (t last : Tally)
      → IsTally t
      → tally_runs env thresholds rs (some t) ≡ some last
      → IsTally last
        × ((period : Period) (start : String)
            → total_of (map_get start (periods_of period last))
              ≡ total_of (map_get start (periods_of period t)) + spent period start rs)
  unfolding tally_runs Adds
  tally_runs-spent thresholds [] t last k h =
      let same : t ≡ last = cc h in
      (subst IsTally same k, (λ period start. rw (← same) (omega arith)))
  tally_runs-spent thresholds (r ∷ rs) t last k h =
      elim (Option-cases (add_run env thresholds r r.estimated_nano_usd t)) [
        | inl e ↦ absurd (stuck (rw (tally_runs, e) at h))
        | inr (next, e) ↦
            let (good, totals) = add_run-Adds thresholds r r.estimated_nano_usd t next refl k e in
            let (fine, sums) =
              tally_runs-spent thresholds rs next last good (rw (tally_runs, e) at h) in
            (fine, (λ period start. omega (arith, sums period start, totals period start)))
      ]
    where
      stuck : tally_runs env thresholds rs none ≡ some last → ⊥
      stuck q = ground (arith, q)
