-- ===== src/Pricing/Copilot.antt =====
-- src/pricing/copilotPricing.ts. A rate of 0.5 USD per million tokens is 500000.
use tirion_watch.Prelude.{String, Option, none, some, List, [], ◌∷◌}
use tirion_watch.Pricing.Model.{ModelPricing, Rates, rates, priced, ◌++◌}

abbrev pub copilot_pricing_version : String
copilot_pricing_version = "copilot-pricing-2026-07-01"

abbrev copilot_pricing_source_url : String
copilot_pricing_source_url =
    "https://docs.github.com/en/copilot/reference/copilot-billing/models-and-pricing"

abbrev copilot_pricing_effective_from : String
copilot_pricing_effective_from = "2026-07-01"

abbrev copilot_pricing_note : String
copilot_pricing_note =
    "GitHub Copilot per-token pricing verified from GitHub Docs on 2026-07-01. Estimates are converted to GitHub AI credits at 1 AI credit = $0.01 USD."

-- `copilotPricing`; no row has empty notes.
abbrev copilot_row : String → Rates → Option String → ModelPricing
copilot_row provider r notes =
    priced (some provider) r copilot_pricing_effective_from copilot_pricing_version
      copilot_pricing_source_url
      (elim notes [ none ↦ copilot_pricing_note | some n ↦ copilot_pricing_note ++ (" " ++ n) ])

abbrev pub copilot_pricing : List ModelPricing
copilot_pricing =
    copilot_row "openai" (rates "^gpt[- ]5[- ]mini$" 250000 (some 25000) none 2000000 none none)
      none
    ∷ copilot_row "openai"
        (rates "^gpt[- ]5\\.3[- ]codex$" 1750000 (some 175000) none 14000000 none none) none
    ∷ copilot_row "openai"
        (rates "^gpt[- ]5\\.4$" 2500000 (some 250000) none 15000000 none (some 272000))
        (some "Default tier applies at or below 272K input tokens.")
    ∷ copilot_row "openai"
        (rates "^gpt[- ]5\\.4$" 5000000 (some 500000) none 22500000 (some 272001) none)
        (some "Long-context tier applies above 272K input tokens.")
    ∷ copilot_row "openai"
        (rates "^gpt[- ]5\\.4[- ]mini$" 750000 (some 75000) none 4500000 none none) none
    ∷ copilot_row "openai"
        (rates "^gpt[- ]5\\.4[- ]nano$" 200000 (some 20000) none 1250000 none none) none
    ∷ copilot_row "openai"
        (rates "^gpt[- ]5\\.5$" 5000000 (some 500000) none 30000000 none (some 272000))
        (some "Default tier applies at or below 272K input tokens.")
    ∷ copilot_row "openai"
        (rates "^gpt[- ]5\\.5$" 10000000 (some 1000000) none 45000000 (some 272001) none)
        (some "Long-context tier applies above 272K input tokens.")
    ∷ copilot_row "anthropic"
        (rates "^claude[- ]haiku[- ]4(?:\\.5|-5)$" 1000000 (some 100000) (some 1250000) 5000000 none
          none)
        none
    ∷ copilot_row "anthropic"
        (rates "^claude[- ]sonnet[- ]4$" 3000000 (some 300000) (some 3750000) 15000000 none none)
        none
    ∷ copilot_row "anthropic"
        (rates "^claude[- ]sonnet[- ]4(?:\\.5|-5)$" 3000000 (some 300000) (some 3750000) 15000000
          none none)
        none
    ∷ copilot_row "anthropic"
        (rates "^claude[- ]sonnet[- ]4(?:\\.6|-6)$" 3000000 (some 300000) (some 3750000) 15000000
          none none)
        none
    ∷ copilot_row "anthropic"
        (rates "^claude[- ]opus[- ]4(?:\\.5|-5)$" 5000000 (some 500000) (some 6250000) 25000000 none
          none)
        none
    ∷ copilot_row "anthropic"
        (rates "^claude[- ]opus[- ]4(?:\\.6|-6)$" 5000000 (some 500000) (some 6250000) 25000000 none
          none)
        none
    ∷ copilot_row "anthropic"
        (rates "^claude[- ]opus[- ]4(?:\\.7|-7)$" 5000000 (some 500000) (some 6250000) 25000000 none
          none)
        none
    ∷ copilot_row "anthropic"
        (rates "^claude[- ]opus[- ]4(?:\\.8|-8)$" 5000000 (some 500000) (some 6250000) 25000000 none
          none)
        none
    ∷ copilot_row "anthropic"
        (rates "^claude[- ]sonnet[- ]5$" 2000000 (some 200000) (some 2500000) 10000000 none none)
        (some "Promotional pricing applies through 2026-08-31 according to GitHub Docs.")
    ∷ copilot_row "anthropic"
        (rates "^claude[- ]opus[- ]4(?:\\.8|-8)(?:[- ]\\(?fast(?:[- ]mode)?\\)?)$" 10000000
          (some 1000000) (some 12500000) 50000000 none none)
        (some "Preview fast-mode row from GitHub Docs.")
    ∷ copilot_row "anthropic"
        (rates "^claude[- ]fable[- ]5$" 10000000 (some 1000000) (some 12500000) 50000000 none none)
        (some
          "GitHub Docs publish this price row while also marking Claude Fable 5 currently unavailable.")
    ∷ copilot_row "google"
        (rates "^gemini[- ]2\\.5[- ]pro$" 1250000 (some 125000) none 10000000 none none) none
    ∷ copilot_row "google"
        (rates "^gemini[- ]3[- ]flash$" 500000 (some 50000) none 3000000 none none) none
    ∷ copilot_row "google"
        (rates "^gemini[- ]3\\.1[- ]pro$" 2000000 (some 200000) none 12000000 none (some 200000))
        (some "Default tier applies at or below 200K input tokens.")
    ∷ copilot_row "google"
        (rates "^gemini[- ]3\\.1[- ]pro$" 4000000 (some 400000) none 18000000 (some 200001) none)
        (some "Long-context tier applies above 200K input tokens.")
    ∷ copilot_row "google"
        (rates "^gemini[- ]3\\.5[- ]flash$" 1500000 (some 150000) none 9000000 none none) none
    ∷ copilot_row "github" (rates "^raptor[- ]mini$" 250000 (some 25000) none 2000000 none none)
        none
    ∷ copilot_row "microsoft"
        (rates "^mai[- ]code[- ]1[- ]flash$" 750000 (some 75000) none 4500000 none none) none
    ∷ []
