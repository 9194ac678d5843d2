-- ===== src/Pricing/Coverage.antt =====
-- What an estimate says of its coverage, and the row that it was counted by.
use mathlib.Core.List.{Memᴰ}
use tirion_watch.Prelude.{
  ℕ, ◌+◌, ◌⊎◌, String, Option, none, some, List, [], ◌∷◌, ◌≡◌, Bool, true, false, not, ◌&&◌, ◌||◌,
  is_some, eqb, head?, is_nil, is_blank, get_or, or_else, unique_strings, Host, TextHost,
}
use tirion_watch.Pricing.Model.{ModelPricing, PricingCatalog}
use tirion_watch.Pricing.Floats.{FloatHost}
use tirion_watch.Pricing.Accounting.{
  TokenBreakdown, reason_comparable, PricingCoverageState, priced, unpriced, CostEstimate,
  PricingMatchMetadata,
}
use tirion_watch.Pricing.Provider.{normalize_provider, infer_provider_from_model}
use tirion_watch.Pricing.Row.{matched_provider, pricing_provider_candidates, find_pricing}
use tirion_watch.Pricing.Estimate.{
  price_component, non_cached_input, resolve_billed_output_tokens, has_any_token_data,
}
use tirion_watch.Pricing.Selection.{Prices}

abbrev pub is_priced : PricingCoverageState → Bool
is_priced priced = true
is_priced _ = false

abbrev pub is_unpriced : PricingCoverageState → Bool
is_unpriced unpriced = true
is_unpriced _ = false

-- Priced is what has no reason against it, and unpriced usage counts nothing.
abbrev pub IsCovered : CostEstimate → Type 0
IsCovered e =
    (is_priced e.pricing_coverage.state ≡ is_nil e.pricing_coverage.reasons)
    × ((not (is_unpriced e.pricing_coverage.state) || eqb e.estimated_nano_usd 0) ≡ true)

-- The amount of a category, and of a usage by the rates of a row.
abbrev pub amount : FloatHost → ℕ → Option ℕ → ℕ
amount floats count rate = (price_component floats count rate).estimated_nano_usd

abbrev pub amount_by : FloatHost → TokenBreakdown → ModelPricing → ℕ
amount_by floats tokens r =
    amount floats (non_cached_input tokens) (some r.input_usd_per_million)
    + (amount floats (get_or tokens.cache_read_input_tokens 0) r.cached_input_usd_per_million
        + (amount floats (get_or tokens.cache_creation_input_tokens 0)
              r.cache_creation_usd_per_million
            + (amount floats (resolve_billed_output_tokens tokens) (some r.output_usd_per_million)
                + 0)))

-- What an estimate by a row has to tell of it.
abbrev pub match_by :
    PricingCatalog → TextHost → String → Option String → ModelPricing → PricingMatchMetadata
match_by catalog text model provider r = record {
  billing_context = some catalog.billing_context;
  provider =
      or_else
        (or_else (matched_provider text (pricing_provider_candidates text model provider) r)
          (normalize_provider text r.provider))
        r.provider;
  model = some model;
  matched_model = some model;
  pricing_version = get_or r.pricing_version (get_or (head? catalog.pricing_versions) "");
  effective_from = some r.effective_from;
  source_url = r.source_url;
  notes = unique_strings (get_or r.notes "" ∷ []);
}

module _ (catalog : PricingCatalog) (floats : FloatHost) where
  module _ (host : Host) (text : TextHost) where
    -- There are tokens, a model, and a row that is found for them.
    abbrev pub can_be_priced : String → Option String → TokenBreakdown → String → Bool
    can_be_priced model provider tokens started_at =
        has_any_token_data tokens
        && (not (is_blank model)
            && is_some (
                find_pricing host text catalog.pricing_table (model ∷ []) started_at provider
                  tokens))

    -- Where nothing can be priced the estimate matches no row and amounts to nothing, else it tells of
    -- a row of the catalog that prices the usage, and amounts to what the usage costs by its rates.
    abbrev pub IsCharged : String → Option String → TokenBreakdown → String → CostEstimate → Type 0
    IsCharged model provider tokens started_at e =
        ((can_be_priced model provider tokens started_at ≡ false)
          × (e.pricing_match ≡ none)
          × (e.estimated_nano_usd ≡ 0))
        ⊎ ((r : ModelPricing) × Memᴰ r catalog.pricing_table
            × Prices host text model started_at provider tokens r
            × (e.pricing_match ≡ some (match_by catalog text model provider r))
            × (e.estimated_nano_usd ≡ amount_by floats tokens r))

    -- Both, for a usage of a model of this name and provider.
    abbrev pub IsAccounted :
        String → Option String → TokenBreakdown → String → CostEstimate → Type 0
    IsAccounted model provider tokens started_at e =
        IsCovered e × IsCharged model provider tokens started_at e

    abbrev pub effective_provider : String → Option String → Option String
    effective_provider model provider =
        or_else (normalize_provider text provider) (infer_provider_from_model text (some model))
