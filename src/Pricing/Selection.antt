-- ===== src/Pricing/Selection.antt =====
-- Which row of the price table an estimate uses.
use mathlib.Core.List.{Memᴰ}
use tirion_watch.Prelude.{
  time_leb, String, Option, none, some, List, [], ◌∷◌, ◌≡◌, sym, true, not, subst, ◌||◌, select,
  is_some, or_else, first_some, first_some-first, first_some-none, sort_by-Memᴰ, Memᴰ-sort_by,
  select-Memᴰ, Memᴰ-select, All, All-Memᴰ, sort_by-IsSorted, Host, TextHost, arith,
}
use tirion_watch.Pricing.Model.{ModelPricing}
use tirion_watch.Pricing.Accounting.{TokenBreakdown}
use tirion_watch.Pricing.Provider.{normalize_provider}
use tirion_watch.Pricing.Row.{
  PricingFound, matches_token_range, matches_pattern, matched_provider, pricing_provider_candidates,
  match_row, in_effect, latest_first, pricing_candidates, find_pricing,
}

module _ (host : Host) where
  latest_first_refl : (a : ModelPricing) → latest_first host a a ≡ true
  unfolding latest_first
  latest_first_refl a = ground arith

  latest_first_total :
      (a b : ModelPricing) → (latest_first host a b || latest_first host b a) ≡ true
  unfolding latest_first
  latest_first_total a b = ground arith

  latest_first_trans :
      (a b c : ModelPricing)
      → latest_first host a b ≡ true
      → latest_first host b c ≡ true
      → latest_first host a c ≡ true
  unfolding latest_first
  latest_first_trans a b c h k = ground arith

-- The row is in effect, fits the provider, the name of the model and the number of input tokens.
abbrev pub Prices :
    Host → TextHost → String → String → Option String → TokenBreakdown → ModelPricing → Type 0
Prices host text model started_at provider tokens r =
    (in_effect host started_at r ≡ true)
    × ((not (is_some (normalize_provider text r.provider))
          || is_some (matched_provider text (pricing_provider_candidates text model provider) r))
        ≡ true)
    × (matches_pattern text model r.model_pattern ≡ true)
    × (matches_token_range r tokens ≡ true)

module _ (host : Host) (text : TextHost) (model started_at : String) (provider : Option String)
    (tokens : TokenBreakdown) where
  abbrev search : ModelPricing → Option PricingFound
  search = match_row text model (pricing_provider_candidates text model provider) tokens

  search-some :
      (r : ModelPricing) (found : PricingFound)
      → in_effect host started_at r ≡ true
      → search r ≡ some found
      → Prices host text model started_at provider tokens r × (found.pricing ≡ r)
  unfolding match_row
  search-some r found e h = ground (arith, h, e)

  Prices-search :
      (r : ModelPricing)
      → Prices host text model started_at provider tokens r
      → is_some (search r) ≡ true
  unfolding match_row
  Prices-search r h = ground (arith, h)

  in_candidates :
      (table : List ModelPricing) (r : ModelPricing)
      → Memᴰ r table
      → in_effect host started_at r ≡ true
      → Memᴰ r (pricing_candidates host table started_at)
  unfolding pricing_candidates
  in_candidates table r m e =
      sort_by-Memᴰ (latest_first host) (select (in_effect host started_at) table)
        (select-Memᴰ (in_effect host started_at) table m e)

  from_candidates :
      (table : List ModelPricing) (r : ModelPricing)
      → Memᴰ r (pricing_candidates host table started_at)
      → Memᴰ r table × (in_effect host started_at r ≡ true)
  unfolding pricing_candidates
  from_candidates table r m =
      Memᴰ-select (in_effect host started_at) table
        (Memᴰ-sort_by (latest_first host) (select (in_effect host started_at) table) m)

  candidates-first :
      (table : List ModelPricing) (found : PricingFound)
      → first_some search (pricing_candidates host table started_at) ≡ some found
      → (a : ModelPricing) × Memᴰ a (pricing_candidates host table started_at)
        × (search a ≡ some found)
        × All
            (λ z. is_some (search z) ≡ true → latest_first host a z ≡ true)
            (pricing_candidates host table started_at)
  unfolding pricing_candidates
  candidates-first table found h =
      first_some-first search (latest_first host) (latest_first_refl host)
        (pricing_candidates host table started_at) found
        (sort_by-IsSorted (latest_first host) (latest_first_total host) (latest_first_trans host)
          (select (in_effect host started_at) table))
        h

  -- A row that is found stands in the table and prices the usage.
  pub find_pricing_sound :
      (table : List ModelPricing) (found : PricingFound)
      → find_pricing host text table (model ∷ []) started_at provider tokens ≡ some found
      → Memᴰ found.pricing table × Prices host text model started_at provider tokens found.pricing
  unfolding find_pricing
  find_pricing_sound table found h =
      let (a, m, q, first) = candidates-first table found (ground arith) in
      let (in_table, effective) = from_candidates table a m in
      let (prices, same) = search-some a found effective q in
      subst (λ row. Memᴰ row table × Prices host text model started_at provider tokens row)
        (sym same) (in_table, prices)

  search-found :
      (r : ModelPricing) (found : PricingFound)
      → search r ≡ some found
      → (found.model ≡ model)
        × (found.provider
            ≡ or_else
                (matched_provider text (pricing_provider_candidates text model provider) r)
                (normalize_provider text r.provider))
  unfolding match_row
  search-found r found h = ground (arith, h)

  -- What is found names the model, and the provider that the row fits.
  pub find_pricing-named :
      (table : List ModelPricing) (found : PricingFound)
      → find_pricing host text table (model ∷ []) started_at provider tokens ≡ some found
      → (found.model ≡ model)
        × (found.provider
            ≡ or_else
                (matched_provider text
                  (pricing_provider_candidates text model provider)
                  found.pricing)
                (normalize_provider text found.pricing.provider))
  unfolding find_pricing
  find_pricing-named table found h =
      let (a, m, q, first) = candidates-first table found (ground arith) in
      let (in_table, effective) = from_candidates table a m in
      let (prices, same) = search-some a found effective q in rw same (search-found a found q)

  later_date :
      (a r : ModelPricing)
      → in_effect host started_at a ≡ true
      → in_effect host started_at r ≡ true
      → latest_first host a r ≡ true
      → time_leb (host.get_time r.effective_from) (host.get_time a.effective_from) ≡ true
  unfolding in_effect latest_first
  later_date a r h k l = ground (arith, h, k, l)

  -- No row of the table that prices the usage takes effect later than the row that is found.
  pub find_pricing_latest :
      (table : List ModelPricing) (found : PricingFound)
      → find_pricing host text table (model ∷ []) started_at provider tokens ≡ some found
      → (r : ModelPricing) → Memᴰ r table
      → Prices host text model started_at provider tokens r
      → time_leb (host.get_time r.effective_from) (host.get_time found.pricing.effective_from)
        ≡ true
  unfolding find_pricing
  find_pricing_latest table found h r n p =
      let (a, m, q, first) = candidates-first table found (ground arith) in
      let (in_table, effective) = from_candidates table a m in
      let (prices, same) = search-some a found effective q in
      let before =
        All-Memᴰ (λ z. is_some (search z) ≡ true → latest_first host a z ≡ true)
          (pricing_candidates host table started_at) first (in_candidates table r n p.0)
          (Prices-search r p) in
      subst
        (λ row. time_leb (host.get_time r.effective_from) (host.get_time row.effective_from) ≡ true)
        (sym same) (later_date a r effective p.0 before)

  -- Where no row is found, no row of the table prices the usage.
  pub find_pricing_complete :
      (table : List ModelPricing)
      → find_pricing host text table (model ∷ []) started_at provider tokens ≡ none
      → (r : ModelPricing) → Memᴰ r table
      → ¬ Prices host text model started_at provider tokens r
  unfolding find_pricing
  find_pricing_complete table h r m p =
      let fails =
        All-Memᴰ (λ z. search z ≡ none) (pricing_candidates host table started_at)
          (first_some-none search (pricing_candidates host table started_at) (ground arith))
          (in_candidates table r m p.0) in
      ground (arith, Prices-search r p, fails)
