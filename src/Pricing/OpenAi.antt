-- ===== src/Pricing/OpenAi.antt =====
-- src/pricing/openaiPricing.ts. A rate of 0.5 USD per million tokens is 500000.
use tirion_watch.Prelude.{String, none, some, List, [], ◌∷◌}
use tirion_watch.Pricing.Model.{ModelPricing, Rates, rates, priced, ◌++◌}

abbrev pub openai_pricing_version : String
openai_pricing_version = "openai-pricing-2026-07-01-standard"

abbrev openai_pricing_source_url : String
openai_pricing_source_url = "https://developers.openai.com/api/docs/pricing"

abbrev openai_standard_note : String
openai_standard_note = "OpenAI API Standard pricing."

abbrev openai_short_context_note : String
openai_short_context_note =
    openai_standard_note ++ " Short-context tier applies at or below 272K input tokens."

abbrev openai_long_context_note : String
openai_long_context_note =
    openai_standard_note ++ " Long-context tier applies above 272K input tokens."

abbrev openai : Rates → String → String → ModelPricing
openai r effective notes =
    priced (some "openai") r effective openai_pricing_version openai_pricing_source_url notes

abbrev pub openai_standard_short_context_pricing : List ModelPricing
openai_standard_short_context_pricing =
    openai (rates "^gpt-5\\.5$" 5000000 (some 500000) none 30000000 none (some 272000)) "2026-05-30"
      openai_short_context_note
    ∷ openai (rates "^gpt-5\\.5$" 10000000 (some 1000000) none 45000000 (some 272001) none)
        "2026-07-01" openai_long_context_note
    ∷ openai (rates "^gpt-5\\.5-pro$" 30000000 none none 180000000 none (some 272000)) "2026-05-30"
        openai_short_context_note
    ∷ openai (rates "^gpt-5\\.5-pro$" 60000000 none none 270000000 (some 272001) none) "2026-07-01"
        openai_long_context_note
    ∷ openai (rates "^gpt-5\\.4$" 2500000 (some 250000) none 15000000 none (some 272000))
        "2026-05-30" openai_short_context_note
    ∷ openai (rates "^gpt-5\\.4$" 5000000 (some 500000) none 22500000 (some 272001) none)
        "2026-07-01" openai_long_context_note
    ∷ openai (rates "^gpt-5\\.4-mini$" 750000 (some 75000) none 4500000 none none) "2026-05-30"
        openai_standard_note
    ∷ openai (rates "^gpt-5\\.4-nano$" 200000 (some 20000) none 1250000 none none) "2026-05-30"
        openai_standard_note
    ∷ openai (rates "^gpt-5\\.4-pro$" 30000000 none none 180000000 none (some 272000)) "2026-05-30"
        openai_short_context_note
    ∷ openai (rates "^gpt-5\\.4-pro$" 60000000 none none 270000000 (some 272001) none) "2026-07-01"
        openai_long_context_note
    ∷ openai (rates "^chat-latest$" 5000000 (some 500000) none 30000000 none none) "2026-05-30"
        openai_standard_note
    ∷ openai (rates "^gpt-5\\.3-codex$" 1750000 (some 175000) none 14000000 none none) "2026-05-30"
        openai_standard_note
    ∷ []
