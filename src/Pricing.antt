-- ===== src/Pricing.antt =====
-- src/pricing, src/billing: the published rates, the catalog of a billing context and the estimate
-- of a cost.
pub mod Model
pub mod Anthropic
pub mod OpenAi
pub mod Copilot
pub mod Cursor
pub mod Catalog
pub mod Accounting
pub mod Floats
pub mod Provider
pub mod Row
pub mod Estimate
pub mod Policy
mod Selection
mod Amounts
mod Coverage
mod Coherence
mod PolicyLaws
mod Fractions
mod Tests
