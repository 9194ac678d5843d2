-- ===== src/Pricing/Anthropic.antt =====
-- src/pricing/anthropicPricing.ts. A rate of 0.5 USD per million tokens is 500000.
use tirion_watch.Prelude.{String, none, some, List, [], ◌∷◌}
use tirion_watch.Pricing.Model.{ModelPricing, Rates, rates, priced, ◌++◌}

abbrev pub anthropic_pricing_version : String
anthropic_pricing_version = "anthropic-pricing-2026-07-01-first-party"

abbrev anthropic_pricing_source_url : String
anthropic_pricing_source_url = "https://platform.claude.com/docs/en/about-claude/pricing"

abbrev anthropic_cache_duration_note : String
anthropic_cache_duration_note =
    "Anthropic first-party Claude API pricing. Cache creation rates vary by duration and are not priced without an explicit write-duration signal."

abbrev anthropic : Rates → String → String → ModelPricing
anthropic r effective notes =
    priced (some "anthropic") r effective anthropic_pricing_version anthropic_pricing_source_url
      notes

abbrev pub anthropic_standard_pricing : List ModelPricing
anthropic_standard_pricing =
    anthropic (rates "^claude-fable-5$" 10000000 (some 1000000) none 50000000 none none)
      "2026-07-01" anthropic_cache_duration_note
    ∷ anthropic (rates "^claude-mythos-5$" 10000000 (some 1000000) none 50000000 none none)
        "2026-07-01"
        (anthropic_cache_duration_note
          ++ " Claude Mythos 5 is limited availability in Anthropic's published pricing table.")
    ∷ anthropic (rates "^claude-opus-4(?:\\.8|-8)$" 5000000 (some 500000) none 25000000 none none)
        "2026-06-01" anthropic_cache_duration_note
    ∷ anthropic (rates "^claude-opus-4(?:\\.1|-1)$" 15000000 (some 1500000) none 75000000 none none)
        "2026-07-01"
        (anthropic_cache_duration_note
          ++ " Claude Opus 4.1 is deprecated in Anthropic's published pricing table.")
    ∷ anthropic (rates "^claude-opus-4(?:\\.7|-7)$" 5000000 (some 500000) none 25000000 none none)
        "2026-06-01" anthropic_cache_duration_note
    ∷ anthropic (rates "^claude-opus-4(?:\\.6|-6)$" 5000000 (some 500000) none 25000000 none none)
        "2026-06-01" anthropic_cache_duration_note
    ∷ anthropic (rates "^claude-opus-4(?:\\.5|-5)$" 5000000 (some 500000) none 25000000 none none)
        "2026-06-01" anthropic_cache_duration_note
    ∷ anthropic (rates "^claude-sonnet-5$" 3000000 (some 300000) none 15000000 none none)
        "2026-09-01"
        (anthropic_cache_duration_note
          ++ " Standard Claude Sonnet 5 pricing starts September 1, 2026.")
    ∷ anthropic (rates "^claude-sonnet-5$" 2000000 (some 200000) none 10000000 none none)
        "2026-07-01"
        (anthropic_cache_duration_note
          ++ " Introductory Claude Sonnet 5 pricing is effective through August 31, 2026.")
    ∷ anthropic (rates "^claude-sonnet-4(?:\\.6|-6)$" 3000000 (some 300000) none 15000000 none none)
        "2026-06-01" anthropic_cache_duration_note
    ∷ anthropic (rates "^claude-sonnet-4(?:\\.5|-5)$" 3000000 (some 300000) none 15000000 none none)
        "2026-06-01" anthropic_cache_duration_note
    ∷ anthropic (rates "^claude-haiku-4(?:\\.5|-5)$" 1000000 (some 100000) none 5000000 none none)
        "2026-06-01" anthropic_cache_duration_note
    ∷ []
