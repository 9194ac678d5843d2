-- ===== src/Pricing/Row.antt =====
-- src/pricing/costEstimation.ts: the choice of the row of the price table.
use tirion_watch.Prelude.{
  ℕ, String, Option, none, some, List, [], ◌∷◌, Bool, true, not, ◌&&◌, ◌||◌, if◌then◌else◌, select,
  find, leb, get_or, is_some, or_else, time_leb, ◌===◌, text_comparable, option_comparable, sort_by,
  contains, first_some, unique_strings, Host, TextHost,
}
use tirion_watch.Pricing.Model.{ModelPricing}
use tirion_watch.Pricing.Accounting.{TokenBreakdown}
use tirion_watch.Pricing.Provider.{normalize_provider, infer_provider_from_model}

unfoldable pub matches_token_range : ModelPricing → TokenBreakdown → Bool
matches_token_range pricing tokens =
    leb (get_or pricing.min_input_tokens 0) (get_or tokens.input_tokens 0)
    && at_most_limit pricing.max_input_tokens (get_or tokens.input_tokens 0)
  where
    at_most_limit : Option ℕ → ℕ → Bool
    at_most_limit none count = true
    at_most_limit (some limit) count = leb count limit

-- What `findPricing` returns.
pub record PricingFound : Type 0 where
  pub model : String
  pub pricing : ModelPricing
  pub provider : Option String

module _ (text : TextHost) where
  pattern_test : String → String → Option Bool → Bool
  pattern_test model pattern_ (some answer) = answer
  pattern_test model pattern_ none =
      contains (text.to_lower_case model) (text.to_lower_case pattern_)

  unfoldable pub matches_pattern : String → String → Bool
  unfolding pattern_test
  matches_pattern model pattern_ =
      model === pattern_ || pattern_test model pattern_ (text.regexp_test pattern_ model)

  -- A provider that is not named is the text "", which `uniqueStrings` drops.
  provider_candidates : Option String → Option String → List String
  provider_candidates normalized inferred =
      if normalized === some "github" && is_some inferred && not (inferred === some "github")
      then get_or inferred "" ∷ get_or normalized "" ∷ []
      else unique_strings (get_or normalized "" ∷ get_or inferred "" ∷ [])

  unfoldable pub pricing_provider_candidates : String → Option String → List String
  unfolding provider_candidates
  pricing_provider_candidates model provider =
      provider_candidates (normalize_provider text provider)
        (infer_provider_from_model text (some model))

  -- `!pricingProvider || candidate === pricingProvider`
  serves : Option String → String → Bool
  serves none candidate = true
  serves (some pricing_provider) candidate = candidate === pricing_provider

  unfoldable pub matched_provider : List String → ModelPricing → Option String
  unfolding serves
  matched_provider candidates pricing =
      find (serves (normalize_provider text pricing.provider)) candidates

  -- The body of the loop over the rows.
  unfoldable pub match_row :
      String → List String → TokenBreakdown → ModelPricing → Option PricingFound
  match_row model candidates tokens pricing =
      let pricing_provider = normalize_provider text pricing.provider in
      let matched = matched_provider candidates pricing in
      if is_some pricing_provider && not (is_some matched)
      then none
      else if matches_pattern model pricing.model_pattern && matches_token_range pricing tokens
      then some
          (record { model = model; pricing = pricing; provider = or_else matched pricing_provider })
      else none

module _ (host : Host) where
  unfoldable pub in_effect : String → ModelPricing → Bool
  in_effect started_at pricing =
      time_leb (host.get_time pricing.effective_from) (host.get_time started_at)

  -- Of the rows in effect, all of which have a date, the latest stand first; the sort is stable.
  unfoldable pub latest_first : ModelPricing → ModelPricing → Bool
  latest_first a b =
      leb (get_or (host.get_time b.effective_from) 0) (get_or (host.get_time a.effective_from) 0)

  unfoldable pub pricing_candidates : List ModelPricing → String → List ModelPricing
  pricing_candidates table started_at = sort_by latest_first (select (in_effect started_at) table)

unfoldable pub find_pricing :
    Host
    → TextHost
    → List ModelPricing
    → List String
    → String
    → Option String
    → TokenBreakdown
    → Option PricingFound
find_pricing host text table models started_at provider tokens =
    let candidates = pricing_candidates host table started_at in
    first_some
      (λ model.
        first_some (match_row text model (pricing_provider_candidates text model provider) tokens)
          candidates)
      models
