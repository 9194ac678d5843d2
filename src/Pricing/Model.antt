-- ===== src/Pricing/Model.antt =====
-- src/types.ts: a row of a pricing table. A rate in USD per million tokens is counted in millionths
-- of a USD, so that every published rate is a natural number.
use Prim.Native.String
use tirion_watch.Prelude.{ℕ, String, Option, none, some, List}

-- A template literal joins its parts.
infixr 65 ◌++◌
abbrev pub ◌++◌ : String → String → String
s ++ t = String.◌++◌ s t

pub record ModelPricing : Type 0 where
  pub provider : Option String
  pub model_pattern : String
  pub input_usd_per_million : ℕ
  pub output_usd_per_million : ℕ
  pub cached_input_usd_per_million : Option ℕ
  pub cache_creation_usd_per_million : Option ℕ
  pub reasoning_output_usd_per_million : Option ℕ
  pub min_input_tokens : Option ℕ
  pub max_input_tokens : Option ℕ
  pub long_context_input_threshold : Option ℕ
  pub long_context_note : Option String
  pub effective_from : String
  pub pricing_version : Option String
  pub source_url : Option String
  pub notes : Option String

-- The fields in which the rows of one table differ.
pub record Rates : Type 0 where
  pub model_pattern : String
  pub input : ℕ
  pub cached_input : Option ℕ
  pub cache_creation : Option ℕ
  pub output : ℕ
  pub min_input_tokens : Option ℕ
  pub max_input_tokens : Option ℕ

abbrev pub rates : String → ℕ → Option ℕ → Option ℕ → ℕ → Option ℕ → Option ℕ → Rates
rates pattern_ input cached_input cache_creation output least most = record {
  model_pattern = pattern_;
  input = input;
  cached_input = cached_input;
  cache_creation = cache_creation;
  output = output;
  min_input_tokens = least;
  max_input_tokens = most;
}

abbrev pub priced : Option String → Rates → String → String → String → String → ModelPricing
priced provider r effective_from version source_url notes = record {
  provider = provider;
  model_pattern = r.model_pattern;
  input_usd_per_million = r.input;
  output_usd_per_million = r.output;
  cached_input_usd_per_million = r.cached_input;
  cache_creation_usd_per_million = r.cache_creation;
  reasoning_output_usd_per_million = none;
  min_input_tokens = r.min_input_tokens;
  max_input_tokens = r.max_input_tokens;
  long_context_input_threshold = none;
  long_context_note = none;
  effective_from = effective_from;
  pricing_version = some version;
  source_url = some source_url;
  notes = some notes;
}

pub data BillingContextId : Type 0 where
  github_copilot openai_direct anthropic_direct cursor : BillingContextId

pub data BillingUnit : Type 0 where
  ai_credits usd : BillingUnit

pub record PricingCatalog : Type 0 where
  pub billing_context : BillingContextId
  pub primary_billing_unit : BillingUnit
  pub pricing_versions : List String
  pub pricing_table : List ModelPricing
