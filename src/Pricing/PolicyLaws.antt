-- ===== src/Pricing/PolicyLaws.antt =====
-- What the coverage policy changes, and what it keeps.
use tirion_watch.Prelude.{
  String, List, [], ◌∷◌, ◌≡◌, refl, ◌∙◌, Bool, true, not, ◌&&◌, ◌||◌, any, every, select, eqb,
  is_nil, includes, dedup, is_blank, text_comparable, sorted_unique_strings,
  is_nil-sorted_unique_strings, is_nil-select-not, is_nil-dedup, is_nil-sort_by, includes-sort_by,
  includes-dedup, includes-select, includes-sorted_unique_strings, arith,
}
use tirion_watch.Pricing.Accounting.{
  AccountingCoverageReason, reason_comparable, PricingCoverageSummary,
}
use tirion_watch.Pricing.Coverage.{is_priced}
use tirion_watch.Pricing.Policy.{
  is_non_degrading, is_partial, reason_leb, unique_reasons, degrading_reasons, policy_only_partial,
  policy_unpriced_models, apply_pricing_coverage_policy,
}

is_nil-degrading_reasons :
    (c : PricingCoverageSummary) → is_nil (degrading_reasons c) ≡ every is_non_degrading c.reasons
unfolding degrading_reasons unique_reasons
is_nil-degrading_reasons c =
    is_nil-sort_by reason_leb (dedup (select (λ r. not (is_non_degrading r)) c.reasons))
    ∙ is_nil-dedup (select (λ r. not (is_non_degrading r)) c.reasons)
    ∙ is_nil-select-not is_non_degrading c.reasons

-- A partial coverage becomes priced exactly when the only reasons against it, one at least, are
-- those of an unpublished long-context rate, no slice lacks its model, and every model that counts
-- as unpriced is blank or counts as priced too.
abbrev pub only_long_context : PricingCoverageSummary → Bool
only_long_context c =
    any is_non_degrading c.reasons
    && is_partial c.state
    && every is_non_degrading c.reasons
    && eqb c.missing_model_slices 0
    && every (λ m. is_blank m || includes c.priced_models m) c.unpriced_models

blank_or_priced :
    (c : PricingCoverageSummary) (models : List String)
    → every is_blank (select (λ m. not (includes (sorted_unique_strings c.priced_models) m)) models)
      ≡ every (λ m. is_blank m || includes c.priced_models m) models
blank_or_priced c [] = refl
blank_or_priced c (m ∷ ms) =
    ground (arith, blank_or_priced c ms, includes-sorted_unique_strings c.priced_models m)

is_nil-policy_unpriced_models :
    (c : PricingCoverageSummary)
    → policy_only_partial c ≡ true
    → is_nil (policy_unpriced_models c)
      ≡ every (λ m. is_blank m || includes c.priced_models m) c.unpriced_models
unfolding policy_unpriced_models
is_nil-policy_unpriced_models c h = rw h (
    is_nil-sorted_unique_strings
      (select (λ m. not (includes (sorted_unique_strings c.priced_models) m)) c.unpriced_models)
    ∙ blank_or_priced c c.unpriced_models)

policy_only_partial_lem :
    (c : PricingCoverageSummary)
    → policy_only_partial c ≡ (
        any is_non_degrading c.reasons
        && is_partial c.state
        && every is_non_degrading c.reasons
        && eqb c.missing_model_slices 0)
unfolding policy_only_partial
policy_only_partial_lem c = ground (arith, is_nil-degrading_reasons c)

-- The policy calls a coverage priced exactly when it was priced, or lacked nothing but a published
-- long-context rate.
pub policy_prices :
    (c : PricingCoverageSummary)
    → is_priced (apply_pricing_coverage_policy c).state ≡ (is_priced c.state || only_long_context c)
unfolding apply_pricing_coverage_policy
policy_prices c = ground (arith, policy_only_partial_lem c, is_nil-policy_unpriced_models c)

-- The policy keeps every reason but that of an unpublished long-context rate, and adds none.
pub policy_reasons :
    (c : PricingCoverageSummary) (r : AccountingCoverageReason)
    → includes (apply_pricing_coverage_policy c).reasons r
      ≡ (includes c.reasons r && not (is_non_degrading r))
unfolding apply_pricing_coverage_policy degrading_reasons unique_reasons
policy_reasons c r =
    includes-sort_by reason_leb (dedup (select (λ r. not (is_non_degrading r)) c.reasons)) r
    ∙ includes-dedup (select (λ r. not (is_non_degrading r)) c.reasons) r
    ∙ includes-select (λ r. not (is_non_degrading r)) c.reasons r
