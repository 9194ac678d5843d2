-- ===== src/Pricing/Cursor.antt =====
-- src/pricing/cursorPricing.ts. A rate of 0.5 USD per million tokens is 500000.
use tirion_watch.Prelude.{String, Option, none, some, List, [], ◌∷◌, get_or}
use tirion_watch.Pricing.Model.{ModelPricing, Rates, rates, priced, ◌++◌}

abbrev pub cursor_pricing_version : String
cursor_pricing_version = "cursor-pricing-2026-07-03"

abbrev cursor_pricing_source_url : String
cursor_pricing_source_url = "https://cursor.com/docs/models-and-pricing"

abbrev cursor_model_source_url : String
cursor_model_source_url = "https://cursor.com/docs/models/cursor-composer-2-5"

abbrev cursor_pricing_effective_from : String
cursor_pricing_effective_from = "2026-07-03"

abbrev cursor_pricing_note : String
cursor_pricing_note =
    "Cursor-published per-million-token pricing. Estimates do not include plan allowances, on-demand settings, routing policies, taxes, discounts, or dashboard rounding."

-- `cursorPricing`; every row has notes that are not empty.
abbrev cursor_row : Rates → Option String → String → ModelPricing
cursor_row r source_url notes =
    priced (some "cursor") r cursor_pricing_effective_from cursor_pricing_version
      (get_or source_url cursor_pricing_source_url) (cursor_pricing_note ++ (" " ++ notes))

abbrev pub cursor_pricing : List ModelPricing
cursor_pricing =
    cursor_row
      (rates "^(?:cursor[- ./:])?auto$" 1250000 (some 250000) (some 1250000) 6000000 none none) none
      "Auto draws from Cursor's Auto + Composer pool."
    ∷ cursor_row
        (rates "^(?:cursor[- ./:])?composer[- ]1$" 1250000 (some 125000) (some 1250000) 10000000
          none none)
        none
        "Composer 1 is hidden in Cursor's current model catalog but remains documented for historical client emissions."
    ∷ cursor_row
        (rates "^(?:cursor[- ./:])?composer[- ]1\\.5$" 3500000 (some 350000) (some 3500000) 17500000
          none none)
        none
        "Composer 1.5 is hidden in Cursor's current model catalog but remains documented for historical client emissions."
    ∷ cursor_row
        (rates "^(?:cursor[- ./:])?composer[- ]2$" 500000 (some 200000) (some 500000) 2500000 none
          none)
        none "Composer 2 standard tier."
    ∷ cursor_row
        (rates "^(?:cursor[- ./:])?composer[- ]2[- ]fast$" 1500000 (some 350000) (some 1500000)
          7500000 none none)
        none "Composer 2 fast tier."
    ∷ cursor_row
        (rates "^(?:cursor[- ./:])?composer[- ]2\\.5$" 500000 (some 200000) (some 500000) 2500000
          none none)
        (some cursor_model_source_url) "Composer 2.5 standard tier."
    ∷ cursor_row
        (rates "^(?:cursor[- ./:])?composer[- ]2\\.5[- ]fast$" 3000000 (some 500000) (some 3000000)
          15000000 none none)
        (some cursor_model_source_url)
        "Composer 2.5 fast tier. Cursor documents this as the default fast variant for interactive sessions."
    ∷ []
