-- ===== src/Tokens.antt =====
-- src/aggregation/tokenMeasurement.ts: sums of token usage and their division by model. Of a unit
-- the fields stand that these read.
use Prim.Native.String
use Prim.Native.Nat.{Ordering, compare}
use tirion_watch.Prelude.{
  ℕ, ◌+◌, String, Option, none, some, List, [], ◌∷◌, map, Bool, true, false, not, ◌&&◌, ◌||◌,
  if◌then◌else◌, any, select, eqb, get_or, is_some, or_else, is_nil, ◌===◌, text_comparable,
  map_get, map_set, values, sort_by, then_by, at_most, Host, TextHost,
}
use tirion_watch.Pricing.Accounting.{TokenBreakdown}
use tirion_watch.Pricing.Provider.{normalize_provider, infer_provider_from_model}
mod Sums
mod Reconcile
mod Tests

pub record TokenUsageDraft : Type 0 where
  pub input_tokens : Option ℕ
  pub output_tokens : Option ℕ
  pub cache_read_input_tokens : Option ℕ
  pub cache_creation_input_tokens : Option ℕ
  pub reasoning_output_tokens : Option ℕ

abbrev pub no_usage : TokenUsageDraft
no_usage = record {
  input_tokens = none;
  output_tokens = none;
  cache_read_input_tokens = none;
  cache_creation_input_tokens = none;
  reasoning_output_tokens = none;
}

unfoldable pub add : Option ℕ → Option ℕ → Option ℕ
add none none = none
add none (some b) = some b
add (some a) none = some a
add (some a) (some b) = some (a + b)

-- The step of the `reduce` in `sumTokenUsage`.
unfoldable pub add_usage : TokenUsageDraft → TokenUsageDraft → TokenUsageDraft
add_usage acc usage = record {
  input_tokens = add acc.input_tokens usage.input_tokens;
  output_tokens = add acc.output_tokens usage.output_tokens;
  cache_read_input_tokens = add acc.cache_read_input_tokens usage.cache_read_input_tokens;
  cache_creation_input_tokens =
      add acc.cache_creation_input_tokens usage.cache_creation_input_tokens;
  reasoning_output_tokens = add acc.reasoning_output_tokens usage.reasoning_output_tokens;
}

unfoldable pub sum_from : TokenUsageDraft → List TokenUsageDraft → TokenUsageDraft
sum_from acc [] = acc
sum_from acc (u ∷ us) = sum_from (add_usage acc u) us

unfoldable pub sum_token_usage : List TokenUsageDraft → TokenUsageDraft
sum_token_usage usages = sum_from no_usage usages

unfoldable pub finalize_token_breakdown : TokenUsageDraft → TokenBreakdown
finalize_token_breakdown usage = record {
  input_tokens = usage.input_tokens;
  output_tokens = usage.output_tokens;
  cache_read_input_tokens = usage.cache_read_input_tokens;
  cache_creation_input_tokens = usage.cache_creation_input_tokens;
  cached_tokens = add usage.cache_read_input_tokens usage.cache_creation_input_tokens;
  reasoning_output_tokens = usage.reasoning_output_tokens;
  total_tokens = add usage.input_tokens usage.output_tokens;
}

unfoldable pub has_token_data : TokenUsageDraft → Bool
has_token_data usage =
    is_some usage.input_tokens
    || is_some usage.output_tokens
    || is_some usage.cache_read_input_tokens
    || is_some usage.cache_creation_input_tokens
    || is_some usage.reasoning_output_tokens

pub record AttributedUsageUnit : Type 0 where
  pub model : Option String
  pub provider : Option String
  pub usage : TokenUsageDraft

pub record ModelDraft : Type 0 where
  pub model : String
  pub provider : Option String
  pub usage : TokenUsageDraft

pub record ModelUsageSummary : Type 0 where
  pub model : String
  pub provider : Option String
  pub breakdown : TokenBreakdown

pub data SelectionState : Type 0 where
  complete missing_model_attribution : SelectionState

pub record ModelUsageSelection : Type 0 where
  pub model_usages : List ModelUsageSummary
  pub state : SelectionState

unfoldable pub model_provider_key : String → Option String → String
model_provider_key model provider = String.◌++◌ (get_or provider "") (String.◌++◌ "::" model)

-- `byModel.get(key) ?? {}`
usage_of : Option ModelDraft → TokenUsageDraft
usage_of none = no_usage
usage_of (some draft) = draft.usage

unfoldable pub add_unit :
    TextHost → List (String × ModelDraft) → AttributedUsageUnit → List (String × ModelDraft)
unfolding usage_of
add_unit text by_model unit =
    let provider =
      or_else (normalize_provider text unit.provider) (infer_provider_from_model text unit.model) in
    let key = model_provider_key (get_or unit.model "") provider in
    map_set key
      (record {
        model = get_or unit.model "";
        provider = provider;
        usage = sum_token_usage (usage_of (map_get key by_model) ∷ unit.usage ∷ []);
      })
      by_model

unfoldable pub add_units :
    TextHost → List (String × ModelDraft) → List AttributedUsageUnit → List (String × ModelDraft)
add_units text by_model [] = by_model
add_units text by_model (u ∷ us) = add_units text (add_unit text by_model u) us

unfoldable pub summary_of : ModelDraft → ModelUsageSummary
summary_of draft = record {
  model = draft.model;
  provider = draft.provider;
  breakdown = finalize_token_breakdown draft.usage;
}

unfoldable pub usage_first : Host → ModelUsageSummary → ModelUsageSummary → Bool
usage_first host a b = at_most (
    then_by (compare (get_or b.breakdown.total_tokens 0) (get_or a.breakdown.total_tokens 0)) (
      then_by (host.locale_compare a.model b.model)
        (host.locale_compare (get_or a.provider "") (get_or b.provider ""))))

unfoldable pub selected_model_usages :
    Host → TextHost → List AttributedUsageUnit → ModelUsageSelection
selected_model_usages host text units =
    let token_units = select (λ u. has_token_data u.usage) units in
    if any (λ u. get_or u.model "" === "") token_units
    then record { model_usages = []; state = missing_model_attribution }
    else record {
      model_usages =
          sort_by (usage_first host) (map summary_of (values (add_units text [] token_units)));
      state = complete;
    }

unfoldable pub matching_breakdown_value : Option ℕ → Option ℕ → Bool
matching_breakdown_value none none = true
matching_breakdown_value (some expected) (some actual) = eqb expected actual
matching_breakdown_value _ _ = false

-- The five fields that `sumTokenUsage` reads of a summary.
unfoldable pub draft_of : ModelUsageSummary → TokenUsageDraft
draft_of summary = record {
  input_tokens = summary.breakdown.input_tokens;
  output_tokens = summary.breakdown.output_tokens;
  cache_read_input_tokens = summary.breakdown.cache_read_input_tokens;
  cache_creation_input_tokens = summary.breakdown.cache_creation_input_tokens;
  reasoning_output_tokens = summary.breakdown.reasoning_output_tokens;
}

pub data InvariantStatus : Type 0 where
  passed failed not_applicable : InvariantStatus

model_totals_match : TokenBreakdown → TokenBreakdown → InvariantStatus
model_totals_match totals model_totals =
    if matching_breakdown_value totals.input_tokens model_totals.input_tokens
      && matching_breakdown_value totals.output_tokens model_totals.output_tokens
      && matching_breakdown_value totals.total_tokens model_totals.total_tokens
    then passed
    else failed

unfoldable pub model_invariant : TokenBreakdown → ModelUsageSelection → InvariantStatus
unfolding model_totals_match
model_invariant totals selection = elim selection.state [
  | complete ↦
      model_totals_match totals
        (finalize_token_breakdown (sum_token_usage (map draft_of selection.model_usages)))
  | missing_model_attribution ↦ not_applicable
]
