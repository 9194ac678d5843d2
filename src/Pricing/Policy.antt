-- ===== src/Pricing/Policy.antt =====
-- src/pricing/pricingCoveragePolicy.ts: a price that only lacks a published long-context rate counts
-- as a price.
use tirion_watch.Prelude.{
  String, List, Bool, true, false, not, ◌&&◌, if◌then◌else◌, any, select, eqb, is_nil, str_leb,
  includes, dedup, sort_by, text_comparable, sorted_unique_strings,
}
use tirion_watch.Pricing.Accounting.{
  AccountingCoverageReason, long_context_rate_unpublished, reason_comparable, reason_text,
  PricingCoverageState, priced, incomplete, PricingCoverageSummary,
}

-- `NON_DEGRADING_REASONS.has(reason)`
abbrev pub is_non_degrading : AccountingCoverageReason → Bool
is_non_degrading long_context_rate_unpublished = true
is_non_degrading _ = false

abbrev pub is_partial : PricingCoverageState → Bool
is_partial incomplete = true
is_partial _ = false

-- The order in which `sort()` puts the reasons.
abbrev pub reason_leb : AccountingCoverageReason → AccountingCoverageReason → Bool
reason_leb a b = str_leb (reason_text a) (reason_text b)

unfoldable pub unique_reasons : List AccountingCoverageReason → List AccountingCoverageReason
unique_reasons values = sort_by reason_leb (dedup values)

unfoldable pub degrading_reasons : PricingCoverageSummary → List AccountingCoverageReason
degrading_reasons coverage =
    unique_reasons (select (λ r. not (is_non_degrading r)) coverage.reasons)

unfoldable pub policy_only_partial : PricingCoverageSummary → Bool
policy_only_partial coverage =
    any is_non_degrading coverage.reasons
    && is_partial coverage.state
    && is_nil (degrading_reasons coverage)
    && eqb coverage.missing_model_slices 0

unfoldable pub policy_unpriced_models : PricingCoverageSummary → List String
policy_unpriced_models coverage =
    if policy_only_partial coverage
    then sorted_unique_strings (
        select (λ m. not (includes (sorted_unique_strings coverage.priced_models) m))
          coverage.unpriced_models)
    else sorted_unique_strings coverage.unpriced_models

unfoldable pub apply_pricing_coverage_policy : PricingCoverageSummary → PricingCoverageSummary
apply_pricing_coverage_policy coverage = record {
  state =
      if policy_only_partial coverage && is_nil (policy_unpriced_models coverage)
      then priced
      else coverage.state;
  reasons = degrading_reasons coverage;
  priced_models = sorted_unique_strings coverage.priced_models;
  unpriced_models = policy_unpriced_models coverage;
  missing_model_slices = coverage.missing_model_slices;
  pricing_versions = sorted_unique_strings coverage.pricing_versions;
  pricing_effective_from = sorted_unique_strings coverage.pricing_effective_from;
}
