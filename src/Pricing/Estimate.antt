-- ===== src/Pricing/Estimate.antt =====
-- src/pricing/costEstimation.ts: the estimate of a cost from token counts and a price table. An
-- amount is in billionths of a USD.
use tirion_watch.Prelude.{
  ℕ, ◌+◌, ◌-◌, String, Option, none, some, List, [], ◌∷◌, Bool, true, false, ◌&&◌, any,
  if◌then◌else◌, ltb, eqb, is_nil, head?, get_or, is_some, or_else, is_blank, dedup, unique_strings,
  Host, TextHost,
}
use Prim.Native.String
use tirion_watch.Pricing.Model.{ModelPricing, BillingContextId, PricingCatalog}
use tirion_watch.Pricing.Floats.{FloatHost}
use tirion_watch.Pricing.Accounting.{
  TokenBreakdown, AccountingCoverageReason, model_unpriced, pricing_rate_missing,
  long_context_rate_unpublished, missing_model_attribution, not_applicable, reason_comparable,
  PricingCoverageState, priced, incomplete, unpriced, PricingMatchMetadata, PricingCoverageSummary,
  CostEstimate,
}
use tirion_watch.Pricing.Provider.{normalize_provider, infer_provider_from_model}
use tirion_watch.Pricing.Row.{PricingFound, find_pricing}

unfoldable pub has_any_token_data : TokenBreakdown → Bool
has_any_token_data tokens = any is_some (
    tokens.input_tokens ∷ tokens.output_tokens ∷ tokens.cache_read_input_tokens
    ∷ tokens.cache_creation_input_tokens ∷ tokens.reasoning_output_tokens ∷ tokens.total_tokens
    ∷ [])

pub record PricedComponent : Type 0 where
  pub estimated_nano_usd : ℕ
  pub missing_rate : Bool

-- `Math.round((tokens * usdPerMillion * NANO_USD_PER_USD) / 1_000_000)`
unfoldable pub rounded_price : FloatHost → ℕ → ℕ → ℕ
rounded_price floats tokens rate = floats.round (
    floats.over
      (floats.times (floats.times (floats.of_count tokens) (floats.of_rate rate))
        (floats.of_count 1000000000))
      (floats.of_count 1000000))

priced_at : FloatHost → ℕ → Option ℕ → PricedComponent
priced_at floats tokens none = record { estimated_nano_usd = 0; missing_rate = true }
priced_at floats tokens (some rate) = record {
  estimated_nano_usd = rounded_price floats tokens rate;
  missing_rate = false;
}

unfoldable pub price_component : FloatHost → ℕ → Option ℕ → PricedComponent
unfolding priced_at
price_component floats tokens rate =
    if eqb tokens 0
    then record { estimated_nano_usd = 0; missing_rate = false }
    else priced_at floats tokens rate

unfoldable pub resolve_billed_output_tokens : TokenBreakdown → ℕ
resolve_billed_output_tokens tokens =
    from tokens.output_tokens tokens.total_tokens tokens.input_tokens
  where
    from : Option ℕ → Option ℕ → Option ℕ → ℕ
    from (some output) total input = output
    from none (some total) (some input) = total - input
    from none _ _ = 0

unfoldable pub is_long_context_unpublished : ModelPricing → ℕ → Bool
is_long_context_unpublished pricing input_tokens = above pricing.long_context_input_threshold
  where
    above : Option ℕ → Bool
    above none = false
    above (some threshold) = ltb threshold input_tokens

unfoldable pub non_cached_input : TokenBreakdown → ℕ
non_cached_input tokens =
    get_or tokens.input_tokens 0
    - get_or tokens.cache_read_input_tokens 0
    - get_or tokens.cache_creation_input_tokens 0

unfoldable pub components : FloatHost → TokenBreakdown → ModelPricing → List PricedComponent
components floats tokens pricing =
    price_component floats (non_cached_input tokens) (some pricing.input_usd_per_million)
    ∷ price_component floats (get_or tokens.cache_read_input_tokens 0)
        pricing.cached_input_usd_per_million
    ∷ price_component floats (get_or tokens.cache_creation_input_tokens 0)
        pricing.cache_creation_usd_per_million
    ∷ price_component floats (resolve_billed_output_tokens tokens)
        (some pricing.output_usd_per_million)
    ∷ []

abbrev pub sum_components : List PricedComponent → ℕ
sum_components [] = 0
sum_components (c ∷ cs) = c.estimated_nano_usd + sum_components cs

abbrev context_text : BillingContextId → String
context_text BillingContextId.github_copilot = "github-copilot"
context_text BillingContextId.openai_direct = "openai-direct"
context_text BillingContextId.anthropic_direct = "anthropic-direct"
context_text BillingContextId.cursor = "cursor"

-- `pricing.pricingVersion ?? defaultPricingVersion`
unfoldable pub resolve_pricing_version : ModelPricing → String → String
resolve_pricing_version pricing default_version = get_or pricing.pricing_version default_version

-- The match names its model and its version, so `matchedModel` and `pricingVersion` come from it.
unfoldable pub build_estimate :
    ℕ
    → BillingContextId
    → PricingCoverageSummary
    → Option PricingMatchMetadata
    → List String
    → CostEstimate
build_estimate nano_usd context coverage match_ notes = record {
  billing_context = some context;
  estimated_nano_usd = nano_usd;
  estimated_usd = record { numerator = nano_usd; denominator = 1000000000 };
  estimated_ai_credits = record { numerator = nano_usd; denominator = 10000000 };
  pricing_version = version match_;
  matched_model = model match_;
  pricing_match = match_;
  pricing_coverage = record {
    state = coverage.state;
    reasons = dedup coverage.reasons;
    priced_models = unique_strings coverage.priced_models;
    unpriced_models = unique_strings coverage.unpriced_models;
    missing_model_slices = coverage.missing_model_slices;
    pricing_versions = unique_strings coverage.pricing_versions;
    pricing_effective_from = unique_strings coverage.pricing_effective_from;
  };
  notes = unique_strings notes;
}
  where
    version : Option PricingMatchMetadata → String
    version none = get_or (head? coverage.pricing_versions) ""
    version (some m) = m.pricing_version

    model : Option PricingMatchMetadata → String
    model none = ""
    model (some m) = get_or (or_else m.matched_model m.model) ""

-- The coverage of a usage that no row prices.
abbrev pub no_price : AccountingCoverageReason → List String → ℕ → PricingCoverageSummary
no_price reason models missing_slices = record {
  state = unpriced;
  reasons = reason ∷ [];
  priced_models = [];
  unpriced_models = models;
  missing_model_slices = missing_slices;
  pricing_versions = [];
  pricing_effective_from = [];
}

infixr 65 ◌++◌
abbrev ◌++◌ : String → String → String
s ++ t = String.◌++◌ s t

module _ (catalog : PricingCatalog) where
  abbrev base_notes : List String → List String
  base_notes more =
      ("Estimated from local token telemetry and the active "
        ++ (context_text catalog.billing_context ++ " pricing catalog when rates are available."))
      ∷ "Billing can include policies, routing, tiers, discounts, allowances, or rounding not visible in local telemetry."
      ∷ more

  abbrev not_matched_note : String → String → Option String → String
  not_matched_note model started_at none =
      "No active "
      ++ context_text catalog.billing_context
      ++ " pricing row matched model "
      ++ model
      ++ " at "
      ++ started_at
      ++ "; provider attribution was missing or ambiguous."
  not_matched_note model started_at (some provider) =
      "No active "
      ++ context_text catalog.billing_context
      ++ " "
      ++ provider
      ++ " pricing row matched model "
      ++ model
      ++ " at "
      ++ started_at
      ++ "."

  -- The reasons for which an estimate falls short.
  unfoldable pub estimate_reasons : Bool → Bool → List AccountingCoverageReason
  estimate_reasons false false = []
  estimate_reasons true false = pricing_rate_missing ∷ []
  estimate_reasons false true = long_context_rate_unpublished ∷ []
  estimate_reasons true true = pricing_rate_missing ∷ long_context_rate_unpublished ∷ []

  unfoldable pub coverage_state : List AccountingCoverageReason → Bool → ℕ → PricingCoverageState
  coverage_state [] missing_rate nano_usd = priced
  coverage_state (r ∷ rs) missing_rate nano_usd =
      if missing_rate && eqb nano_usd 0 then unpriced else incomplete

  rate_note : String → Bool → List String → List String
  rate_note model false more = more
  rate_note model true more =
      ("Some token categories for " ++ model
        ++ " had no matching price rate, so the estimate is partial.")
      ∷ more

  -- An empty note is dropped with the blank texts.
  context_note : ModelPricing → Bool → List String
  context_note pricing false = []
  context_note pricing true = get_or pricing.long_context_note "" ∷ []

  module _ (floats : FloatHost) where
    unfoldable pub estimate_match : String → TokenBreakdown → PricingFound → CostEstimate
    unfolding rate_note context_note
    estimate_match model tokens found =
        let row = found.pricing in
        let parts = components floats tokens row in
        let nano_usd = sum_components parts in
        let missing_rate = any (λ c. c.missing_rate) parts in
        let unpublished = is_long_context_unpublished row (get_or tokens.input_tokens 0) in
        let reasons = estimate_reasons missing_rate unpublished in
        let version = resolve_pricing_version row (get_or (head? catalog.pricing_versions) "") in
        build_estimate nano_usd catalog.billing_context
          (record {
            state = coverage_state reasons missing_rate nano_usd;
            reasons = reasons;
            priced_models = model ∷ [];
            unpriced_models = if is_nil reasons then [] else model ∷ [];
            missing_model_slices = 0;
            pricing_versions = version ∷ [];
            pricing_effective_from = row.effective_from ∷ [];
          })
          (some (record {
            billing_context = some catalog.billing_context;
            provider = or_else found.provider row.provider;
            model = some model;
            matched_model = some found.model;
            pricing_version = version;
            effective_from = some row.effective_from;
            source_url = row.source_url;
            notes = unique_strings (get_or row.notes "" ∷ []);
          }))
          (base_notes
            (get_or row.notes "" ∷ rate_note model missing_rate (context_note row unpublished)))

    -- The two outcomes of the search for a row.
    unfoldable pub estimate_found :
        String → String → TokenBreakdown → Option String → Option PricingFound → CostEstimate
    estimate_found model started_at tokens provider (some found) = estimate_match model tokens found
    estimate_found model started_at tokens provider none =
        build_estimate 0 catalog.billing_context (no_price model_unpriced (model ∷ []) 0) none
          (base_notes (not_matched_note model started_at provider ∷ []))

    module _ (host : Host) (text : TextHost) where
      unfoldable pub estimate_named :
          String → Option String → TokenBreakdown → String → CostEstimate
      estimate_named model provider tokens started_at =
          let effective =
            or_else (normalize_provider text provider)
              (infer_provider_from_model text (some model)) in
          estimate_found model started_at tokens effective
            (find_pricing host text catalog.pricing_table (model ∷ []) started_at effective tokens)

      -- A model that is missing, empty or blank.
      unfoldable pub estimate_some_tokens :
          Option String → Option String → TokenBreakdown → String → CostEstimate
      estimate_some_tokens model provider tokens started_at =
          if is_blank (get_or model "")
          then build_estimate 0 catalog.billing_context (no_price missing_model_attribution [] 1)
              none
              (base_notes
                ("Model attribution was missing, so this usage slice could not be priced." ∷ []))
          else estimate_named (get_or model "") provider tokens started_at

      unfoldable pub estimate_tokens_for_model :
          Option String → Option String → TokenBreakdown → String → CostEstimate
      estimate_tokens_for_model model provider tokens started_at =
          if has_any_token_data tokens
          then estimate_some_tokens model provider tokens started_at
          else build_estimate 0 catalog.billing_context (no_price not_applicable [] 0) none
              (base_notes [])

      unless_unpriced : CostEstimate → PricingCoverageState → Option CostEstimate
      unless_unpriced result unpriced = none
      unless_unpriced result _ = some result

      unfoldable pub estimate : List String → TokenBreakdown → String → Option CostEstimate
      unfolding unless_unpriced
      estimate (model ∷ []) tokens started_at =
          let result = estimate_tokens_for_model (some model) none tokens started_at in
          if has_any_token_data tokens
          then unless_unpriced result result.pricing_coverage.state
          else none
      estimate _ tokens started_at = none
