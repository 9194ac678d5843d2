-- ===== src/Budgets/Periods.antt =====
-- The warnings about days and months, against the sums of the costs.
use tirion_watch.Prelude.{
  how_many, how_many-sort_by, how_many-append, ℕ, ◌+◌, ◌<◌, String, some, List, [], ◌∷◌, ◌++◌, ◌≡◌,
  inl, inr, refl, subst, ◌∙◌, true, false, ◌||◌, Bool, not, ◌&&◌, if◌then◌else◌, eqb, leb, every,
  includes, IsUnique, ◌===◌, text_comparable, option_comparable, eq_iff, eqb_iff, Bool-cases,
  Option-cases, map_get, keys, arith,
}
use tirion_watch.Budgets.{
  BudgetThresholds, BudgetRun, WarningKind, for_daily_cost, for_monthly_cost, BudgetWarning, Period,
  day, month, BudgetHost, Periods, Tally, warning, tally_runs, period_warnings, newest_first,
  warnings_of, warnings_for_runs,
}
use tirion_watch.Budgets.Totals.{
  threshold_of, concerns, periods_of, is_about, warns_of, total_of, spent, IsTally,
  tally_runs-spent,
}

-- One where the amount reaches the threshold and passes the test, and none otherwise.
abbrev warned_once : ℕ → (ℕ → Bool) → ℕ → ℕ
warned_once threshold test amount = if leb threshold amount && test amount then 1 else 0

how_many-is_about :
    (period : Period) (start : String) (ws : List BudgetWarning)
    → how_many (is_about period start) ws ≡ how_many (warns_of period start (λ n. true)) ws
how_many-is_about period start [] = refl
how_many-is_about period start (w ∷ ws) = ground (arith, how_many-is_about period start ws)

-- Where no warning about the period states another amount, all state this one.
every-states :
    (period : Period) (start : String) (amount : ℕ) (ws : List BudgetWarning)
    → how_many (warns_of period start (λ n. not (eqb n amount))) ws ≡ 0
    → every (λ w. not (is_about period start w) || eqb w.observed amount) ws ≡ true
every-states period start amount [] h = refl
every-states period start amount (w ∷ ws) h = ground (arith, every-states period start amount ws, h)

module _ (env : BudgetHost) where
  -- A map without the period warns of nothing there.
  absent_warns :
      (period : Period) (kind : WarningKind) (threshold : ℕ) (test : ℕ → Bool) (start : String)
      (m : Periods)
      → includes (keys m) start ≡ false
      → how_many (warns_of period start test) (period_warnings env kind threshold m) ≡ 0
  unfolding period_warnings warning
  absent_warns period kind threshold test start [] h = refl
  absent_warns period kind threshold test start ((k, v) ∷ m) h =
      ground (arith, absent_warns period kind threshold test start m, h)

  -- Nor does a list of warnings of another kind.
  other_kind_warns :
      (period : Period) (kind : WarningKind) (threshold : ℕ) (test : ℕ → Bool) (start : String)
      (m : Periods)
      → concerns period kind ≡ false
      → how_many (warns_of period start test) (period_warnings env kind threshold m) ≡ 0
  unfolding period_warnings warning
  other_kind_warns period kind threshold test start [] h = refl
  other_kind_warns period kind threshold test start ((k, v) ∷ m) h =
      ground (arith, other_kind_warns period kind threshold test start m h, h)

  own_kind_warns :
      (period : Period) (kind : WarningKind) (threshold : ℕ) (test : ℕ → Bool) (start : String)
      (m : Periods)
      → concerns period kind ≡ true
      → 0 < threshold
      → IsUnique (keys m)
      → how_many (warns_of period start test) (period_warnings env kind threshold m)
        ≡ warned_once threshold test (total_of (map_get start m))
  unfolding period_warnings warning map_get total_of
  own_kind_warns period kind threshold test start [] c p u = ground (arith, p)
  own_kind_warns period kind threshold test start ((k, v) ∷ m) c p u =
      elim (Bool-cases (k === start)) [
        | inl same ↦
            let absent =
              absent_warns period kind threshold test start m
                (subst (λ x. includes (keys m) x ≡ false) ((eq_iff k start).0 same) u.0) in
            rw same (ground (arith, absent, c, same))
        | inr other ↦
            rw other
              (ground (arith, own_kind_warns period kind threshold test start m c p u.1, other))
      ]

  start-IsTally : IsTally env (record { warnings = []; daily = []; monthly = [] })
  start-IsTally = record {
    daily_unique = tt;
    monthly_unique = tt;
    only_runs = λ period start test. refl;
  }

  warnings_of_lem :
      (period : Period) (thresholds : BudgetThresholds) (start : String) (test : ℕ → Bool)
      (t : Tally)
      → IsTally env t
      → 0 < threshold_of period thresholds
      → how_many (warns_of period start test) (warnings_of env thresholds t)
        ≡ warned_once
            (threshold_of period thresholds)
            test
            (total_of (map_get start (periods_of period t)))
  unfolding warnings_of
  warnings_of_lem period thresholds start test t k p =
      let about = warns_of period start test in
      let days = period_warnings env for_daily_cost thresholds.daily_estimated_nano_usd t.daily in
      let months =
        period_warnings env for_monthly_cost thresholds.monthly_estimated_nano_usd t.monthly in
      omega (
        arith,
        how_many-sort_by about (newest_first env) (t.warnings ++ (days ++ months)),
        how_many-append about t.warnings (days ++ months),
        how_many-append about days months,
        k.only_runs period start test,
        of_period period p,
      )
    where
      of_period :
          (p : Period)
          → 0 < threshold_of p thresholds
          → how_many
                (warns_of p start test)
                (period_warnings env for_daily_cost thresholds.daily_estimated_nano_usd t.daily)
              + how_many (warns_of p start test) (
                  period_warnings env for_monthly_cost thresholds.monthly_estimated_nano_usd
                    t.monthly)
            ≡ warned_once
                (threshold_of p thresholds)
                test
                (total_of (map_get start (periods_of p t)))
      of_period day h = omega (
        arith,
        own_kind_warns day for_daily_cost thresholds.daily_estimated_nano_usd test start t.daily
            refl h k.daily_unique,
        other_kind_warns day for_monthly_cost thresholds.monthly_estimated_nano_usd test start
            t.monthly refl,
      )
      of_period month h = omega (
        arith,
        own_kind_warns month for_monthly_cost thresholds.monthly_estimated_nano_usd test start
            t.monthly refl h k.monthly_unique,
        other_kind_warns month for_daily_cost thresholds.daily_estimated_nano_usd test start t.daily
            refl,
      )

  abbrev nothing_yet : Tally
  nothing_yet = record { warnings = []; daily = []; monthly = [] }

  tallied_warns :
      (period : Period) (start : String) (runs : List BudgetRun) (thresholds : BudgetThresholds)
      (test : ℕ → Bool) (t : Tally)
      → tally_runs env thresholds runs (some nothing_yet) ≡ some t
      → 0 < threshold_of period thresholds
      → how_many (warns_of period start test) (warnings_of env thresholds t)
        ≡ warned_once (threshold_of period thresholds) test (spent env period start runs)
  unfolding total_of map_get
  tallied_warns period start runs thresholds test t e p =
      let (k, sums) = tally_runs-spent env thresholds runs nothing_yet t start-IsTally e in
      let sum : total_of (map_get start (periods_of period t)) ≡ spent env period start runs =
        sums period start ∙ from_nothing period in
      subst
        (λ n.
          how_many (warns_of period start test) (warnings_of env thresholds t)
          ≡ warned_once (threshold_of period thresholds) test n)
        sum (warnings_of_lem period thresholds start test t k p)
    where
      from_nothing :
          (p : Period)
          → total_of (map_get start (periods_of p nothing_yet)) + spent env period start runs
            ≡ spent env period start runs
      from_nothing day = omega arith
      from_nothing month = omega arith

  -- With a threshold that is not 0, the warnings hold exactly one about a day or a month where the
  -- costs of the runs that started in it add up to the threshold or more, and none otherwise; each
  -- warning about the period states their sum.
  pub period_is_warned_of :
      (period : Period) (start : String) (runs : List BudgetRun) (thresholds : BudgetThresholds)
      (warnings : List BudgetWarning)
      → warnings_for_runs env runs thresholds ≡ some warnings
      → 0 < threshold_of period thresholds
      → (how_many (is_about period start) warnings
          ≡ (if leb (threshold_of period thresholds) (spent env period start runs) then 1 else 0))
        × (every
              (λ w. not (is_about period start w) || eqb w.observed (spent env period start runs))
              warnings
            ≡ true)
  unfolding warnings_for_runs
  period_is_warned_of period start runs thresholds warnings h p =
      elim (Option-cases (tally_runs env thresholds runs (some nothing_yet))) [
        | inl e ↦ absurd (ground (arith, e, h))
        | inr (t, e) ↦
            let same_entry : some (warnings_of env thresholds t) ≡ some warnings =
              rw (warnings_for_runs, e) at h in
            let same : warnings_of env thresholds t ≡ warnings = cc same_entry in
            let sum = spent env period start runs in
            let once = tallied_warns period start runs thresholds (λ n. true) t e p in
            let other = tallied_warns period start runs thresholds (λ n. not (eqb n sum)) t e p in
            rw (← same) (
              how_many-is_about period start (warnings_of env thresholds t) ∙ once ∙ ground arith,
              every-states period start sum (warnings_of env thresholds t)
                  (other ∙ ground (arith, (eqb_iff sum sum).1 refl)),
            )
      ]
