-- ===== src/Pricing/Tests.antt =====
-- A usage of 1000 input tokens, 200 of them from the cache, and 500 output tokens, by the direct
-- OpenAI rates; and a coverage that lacks only a long-context rate.
use mathlib.Core.List.{Memᴰ}
use tirion_watch.Prelude.{
  arith, time_leb, ◌+◌, ◌*◌, ◌≤◌, none, some, List, [], ◌∷◌, ◌≡◌, refl, true, ◌&&◌, ◌===◌,
  text_comparable, any, get_or, head?, Host, TextHost, if◌then◌else◌, sort_by, insert_sorted, dedup,
  unique_strings, is_blank, contains, starts_with, trim,
}
use Prim.Native.Nat.{Ordering}
use tirion_watch.Pricing.Model.{
  openai_direct, ModelPricing, PricingCatalog, BillingUnit, priced, rates,
}
use tirion_watch.Pricing.Catalog.{pricing_catalog_for_billing_context}
use tirion_watch.Pricing.Accounting.{
  TokenBreakdown, long_context_rate_unpublished, PricingCoverageState, PricingCoverageSummary,
  reason_comparable,
}
use tirion_watch.Pricing.Provider.{normalize_provider, infer_provider_from_model}
use tirion_watch.Pricing.Row.{
  PricingFound, matches_token_range, matches_pattern, pricing_provider_candidates, match_row,
  in_effect, latest_first, pricing_candidates, find_pricing, matched_provider,
}
use tirion_watch.Pricing.Estimate.{
  estimate_match, estimate_tokens_for_model, estimate, components, rounded_price, price_component,
  non_cached_input, build_estimate, resolve_billed_output_tokens, has_any_token_data,
  estimate_some_tokens, estimate_named, estimate_found, estimate_reasons, coverage_state,
  is_long_context_unpublished,
}
use tirion_watch.Pricing.Policy.{apply_pricing_coverage_policy}
use tirion_watch.Pricing.Selection.{
  Prices, find_pricing_sound, find_pricing_latest, find_pricing_complete,
}
use tirion_watch.Pricing.Fractions.{fractions, fractions-IsDouble}
use tirion_watch.Pricing.Amounts.{exact_cost, estimate_match_bounds}
use tirion_watch.Pricing.Coherence.{fits, tiers_leave_no_gap}

abbrev host : Host
host = record {
  get_time = λ date.
      if date === "2026-07-10"
      then some 3
      else if date === "2026-07-01"
      then some 2
      else if date === "unknown"
      then none
      else some 1;
  locale_compare = λ a b. Ordering.eq;
}

abbrev text_host : TextHost
text_host = record {
  to_lower_case = λ text. text;
  regexp_test = λ pattern_ model. some (pattern_ === "^gpt-5\\.4$" && model === "gpt-5.4");
}

abbrev tokens : TokenBreakdown
tokens = record {
  input_tokens = some 1000;
  output_tokens = some 500;
  cache_read_input_tokens = some 200;
  cache_creation_input_tokens = none;
  cached_tokens = some 200;
  reasoning_output_tokens = none;
  total_tokens = some 1500;
}

-- Two rates for one model, the later of which is in effect, and a rate that is not yet.
abbrev row : ModelPricing
row =
    priced (some "openai")
      (rates "^gpt-5\\.4$" 2500000 (some 250000) none 15000000 none (some 272000)) "2026-07-01" "v2"
      "https://example.test" "now"

abbrev table : List ModelPricing
table =
    priced (some "openai") (rates "^gpt-5\\.4$" 3000000 none none 15000000 none none) "2026-05-30"
      "v1" "https://example.test" "before"
    ∷ row
    ∷ priced (some "openai") (rates "^gpt-5\\.4$" 1000000 none none 1000000 none none) "unknown"
        "v3" "https://example.test" "no date"
    ∷ []

abbrev catalog : PricingCatalog
catalog = record {
  billing_context = openai_direct;
  primary_billing_unit = BillingUnit.usd;
  pricing_versions = "v2" ∷ [];
  pricing_table = table;
}

abbrev found : PricingFound
found = record { model = "gpt-5.4"; pricing = row; provider = some "openai" }

program : Unit {0}
unfolding sort_by insert_sorted dedup unique_strings is_blank contains starts_with trim
    pricing_catalog_for_billing_context find_pricing pricing_candidates in_effect latest_first
    match_row matches_pattern matches_token_range matched_provider pricing_provider_candidates
    normalize_provider infer_provider_from_model has_any_token_data estimate_match components
    rounded_price price_component non_cached_input build_estimate resolve_billed_output_tokens
    estimate_tokens_for_model estimate_some_tokens estimate_named estimate_found estimate_reasons
    coverage_state is_long_context_unpublished estimate apply_pricing_coverage_policy
program = tt

found_row :
    find_pricing host text_host catalog.pricing_table
      ("gpt-5.4" ∷ [])
      "2026-07-10"
      (some "openai")
      tokens
    ≡ some found
unfolding program
found_row = refl

-- 800 at 2.5, 200 at 0.25 and 500 at 15 USD per million are 9 550 000 billionths.
amount : (estimate_match catalog fractions "gpt-5.4" tokens found).estimated_nano_usd ≡ 9550000
unfolding program
amount = refl

abbrev prices_row : Prices host text_host "gpt-5.4" "2026-07-10" (some "openai") tokens row
unfolding program
prices_row = (refl, refl, refl, refl)

abbrev in_table : Memᴰ row table
in_table = Memᴰ.tail (Memᴰ.head refl)

find_pricing_sound_example :
    Memᴰ found.pricing table
    × Prices host text_host "gpt-5.4" "2026-07-10" (some "openai") tokens found.pricing
find_pricing_sound_example =
    find_pricing_sound host text_host "gpt-5.4" "2026-07-10" (some "openai") tokens table found
      found_row

find_pricing_latest_example :
    time_leb (host.get_time row.effective_from) (host.get_time found.pricing.effective_from) ≡ true
find_pricing_latest_example =
    find_pricing_latest host text_host "gpt-5.4" "2026-07-10" (some "openai") tokens table found
      found_row row in_table prices_row

nothing_found :
    find_pricing host text_host table ("gpt-5" ∷ []) "2026-07-10" (some "openai") tokens ≡ none
unfolding program
nothing_found = refl

find_pricing_complete_example :
    ¬ Prices host text_host "gpt-5" "2026-07-10" (some "openai") tokens row
find_pricing_complete_example =
    find_pricing_complete host text_host "gpt-5" "2026-07-10" (some "openai") tokens table
      nothing_found row in_table

estimate_match_bounds_example :
    (1000 * (estimate_match catalog fractions "gpt-5.4" tokens found).estimated_nano_usd
      ≤ exact_cost tokens found.pricing + 2000)
    × (exact_cost tokens found.pricing
        ≤ 1000 * (estimate_match catalog fractions "gpt-5.4" tokens found).estimated_nano_usd
          + 2000)
unfolding non_cached_input resolve_billed_output_tokens
estimate_match_bounds_example =
    estimate_match_bounds fractions fractions-IsDouble catalog "gpt-5.4" tokens found (omega arith)
      (omega arith)

abbrev first_row : ModelPricing
unfolding pricing_catalog_for_billing_context
first_row = get_or (head? (pricing_catalog_for_billing_context openai_direct).pricing_table) row

tiers_leave_no_gap_example :
    any (fits first_row tokens) (pricing_catalog_for_billing_context openai_direct).pricing_table
    ≡ true
unfolding pricing_catalog_for_billing_context
tiers_leave_no_gap_example = tiers_leave_no_gap openai_direct first_row tokens (Memᴰ.head refl)

-- Partial, for want of a long-context rate only.
abbrev lacking : PricingCoverageSummary
lacking = record {
  state = PricingCoverageState.incomplete;
  reasons = long_context_rate_unpublished ∷ [];
  priced_models = "gpt-5.4" ∷ [];
  unpriced_models = "gpt-5.4" ∷ [];
  missing_model_slices = 0;
  pricing_versions = "v2" ∷ [];
  pricing_effective_from = "2026-07-01" ∷ [];
}
