-- ===== src/Pricing/Accounting.antt =====
-- src/types.ts: token counts, the coverage of a price and the estimate of a cost.
use tirion_watch.Prelude.{ℕ, String, Option, List, Comparable, comparable_of_discrete}
use tirion_watch.Pricing.Model.{BillingContextId}

pub record TokenBreakdown : Type 0 where
  pub input_tokens : Option ℕ
  pub output_tokens : Option ℕ
  pub cache_read_input_tokens : Option ℕ
  pub cache_creation_input_tokens : Option ℕ
  pub cached_tokens : Option ℕ
  pub reasoning_output_tokens : Option ℕ
  pub total_tokens : Option ℕ

pub data AccountingCoverageReason : Type 0 where
  source_not_reported source_ambiguous duplicate_overlap_discarded : AccountingCoverageReason
  model_not_reported model_unpriced pricing_rate_missing : AccountingCoverageReason
  long_context_rate_unpublished missing_model_attribution : AccountingCoverageReason
  missing_tool_attribution span_cost_unavailable metrics_only_trace : AccountingCoverageReason
  event_only_trace legacy_schema invariant_failed tool_call_id_missing : AccountingCoverageReason
  not_applicable : AccountingCoverageReason

pub AccountingCoverageReason-discrete : Discrete AccountingCoverageReason
AccountingCoverageReason-discrete = hlevel

-- `===` on the literals
instance abbrev pub reason_comparable : Comparable AccountingCoverageReason
reason_comparable = comparable_of_discrete AccountingCoverageReason-discrete

abbrev pub reason_text : AccountingCoverageReason → String
reason_text source_not_reported = "source_not_reported"
reason_text source_ambiguous = "source_ambiguous"
reason_text duplicate_overlap_discarded = "duplicate_overlap_discarded"
reason_text model_not_reported = "model_not_reported"
reason_text model_unpriced = "model_unpriced"
reason_text pricing_rate_missing = "pricing_rate_missing"
reason_text long_context_rate_unpublished = "long_context_rate_unpublished"
reason_text missing_model_attribution = "missing_model_attribution"
reason_text missing_tool_attribution = "missing_tool_attribution"
reason_text span_cost_unavailable = "span_cost_unavailable"
reason_text metrics_only_trace = "metrics_only_trace"
reason_text event_only_trace = "event_only_trace"
reason_text legacy_schema = "legacy_schema"
reason_text invariant_failed = "invariant_failed"
reason_text tool_call_id_missing = "tool_call_id_missing"
reason_text not_applicable = "not_applicable"

-- `incomplete` is the literal "partial".
pub data PricingCoverageState : Type 0 where
  priced incomplete unpriced : PricingCoverageState

pub record PricingMatchMetadata : Type 0 where
  pub billing_context : Option BillingContextId
  pub provider : Option String
  pub model : Option String
  pub matched_model : Option String
  pub pricing_version : String
  pub effective_from : Option String
  pub source_url : Option String
  pub notes : List String

pub record PricingCoverageSummary : Type 0 where
  pub state : PricingCoverageState
  pub reasons : List AccountingCoverageReason
  pub priced_models : List String
  pub unpriced_models : List String
  pub missing_model_slices : ℕ
  pub pricing_versions : List String
  pub pricing_effective_from : List String

-- A quotient that the source keeps as a floating point number.
pub record Fraction : Type 0 where
  pub numerator : ℕ
  pub denominator : ℕ

pub record CostEstimate : Type 0 where
  pub billing_context : Option BillingContextId
  pub estimated_nano_usd : ℕ
  pub estimated_usd : Fraction
  pub estimated_ai_credits : Fraction
  pub pricing_version : String
  pub matched_model : String
  pub pricing_match : Option PricingMatchMetadata
  pub pricing_coverage : PricingCoverageSummary
  pub notes : List String
