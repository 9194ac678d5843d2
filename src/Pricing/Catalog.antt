-- ===== src/Pricing/Catalog.antt =====
-- src/billing/billingContextResolver.ts: which table a billing context uses.
use tirion_watch.Prelude.{[], ◌∷◌}
use tirion_watch.Pricing.Model.{
  BillingContextId, github_copilot, openai_direct, anthropic_direct, cursor, BillingUnit,
  ai_credits, usd, PricingCatalog,
}
use tirion_watch.Pricing.Anthropic.{anthropic_pricing_version, anthropic_standard_pricing}
use tirion_watch.Pricing.OpenAi.{openai_pricing_version, openai_standard_short_context_pricing}
use tirion_watch.Pricing.Copilot.{copilot_pricing_version, copilot_pricing}
use tirion_watch.Pricing.Cursor.{cursor_pricing_version, cursor_pricing}

unfoldable pub pricing_catalog_for_billing_context : BillingContextId → PricingCatalog
pricing_catalog_for_billing_context github_copilot = record {
  billing_context = github_copilot;
  primary_billing_unit = ai_credits;
  pricing_versions = copilot_pricing_version ∷ [];
  pricing_table = copilot_pricing;
}
pricing_catalog_for_billing_context openai_direct = record {
  billing_context = openai_direct;
  primary_billing_unit = usd;
  pricing_versions = openai_pricing_version ∷ [];
  pricing_table = openai_standard_short_context_pricing;
}
pricing_catalog_for_billing_context anthropic_direct = record {
  billing_context = anthropic_direct;
  primary_billing_unit = usd;
  pricing_versions = anthropic_pricing_version ∷ [];
  pricing_table = anthropic_standard_pricing;
}
pricing_catalog_for_billing_context cursor = record {
  billing_context = cursor;
  primary_billing_unit = usd;
  pricing_versions = cursor_pricing_version ∷ [];
  pricing_table = cursor_pricing;
}

pub record BillingContextResolution : Type 0 where
  pub billing_context : BillingContextId
  pub primary_billing_unit : BillingUnit
  pub pricing_catalog : PricingCatalog

-- `DefaultBillingContextResolver.resolve`
unfoldable pub resolve : BillingContextResolution
unfolding pricing_catalog_for_billing_context
resolve = record {
  billing_context = github_copilot;
  primary_billing_unit = ai_credits;
  pricing_catalog = pricing_catalog_for_billing_context github_copilot;
}
