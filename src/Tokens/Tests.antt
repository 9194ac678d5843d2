-- ===== src/Tokens/Tests.antt =====
-- Two units of one model and one of another.
use Prim.Native.Nat.{Ordering}
use tirion_watch.Prelude.{
  ℕ, String, Option, any, if◌then◌else◌, none, some, List, [], ◌∷◌, ◌≡◌, refl, map, Host, TextHost,
  sort_by, insert_sorted, map_get, map_set, contains, starts_with, trim, length,
}
use tirion_watch.Pricing.Provider.{normalize_provider, infer_provider_from_model}
use tirion_watch.Tokens.{
  AttributedUsageUnit, no_usage, complete, missing_model_attribution, passed, not_applicable, add,
  add_usage, sum_from, sum_token_usage, finalize_token_breakdown, has_token_data,
  model_provider_key, usage_of, add_unit, add_units, summary_of, usage_first, selected_model_usages,
  draft_of, model_invariant,
}
use tirion_watch.Tokens.Reconcile.{models_reconcile, model_invariant_holds, run_totals, lacks_model}

abbrev host : Host
host = record { get_time = λ text. none; locale_compare = λ a b. Ordering.eq }

abbrev text_host : TextHost
text_host = record { to_lower_case = λ text. text; regexp_test = λ p m. none }

abbrev unit : String → ℕ → AttributedUsageUnit
unit model input = record {
  model = some model;
  provider = some "openai";
  usage = record {
    input_tokens = some input;
    output_tokens = some 1;
    cache_read_input_tokens = none;
    cache_creation_input_tokens = none;
    reasoning_output_tokens = none;
  };
}

abbrev units : List AttributedUsageUnit
units = unit "gpt-5" 10 ∷ unit "gpt-5.4" 20 ∷ unit "gpt-5" 30 ∷ []

program : Unit {0}
unfolding add add_usage sum_from sum_token_usage finalize_token_breakdown has_token_data
    model_provider_key usage_of add_unit add_units summary_of usage_first selected_model_usages
    draft_of map_get map_set sort_by insert_sorted normalize_provider infer_provider_from_model trim
    contains starts_with
program = tt

two_models : length (selected_model_usages host text_host units).model_usages ≡ 2
unfolding program
two_models = refl

models_reconcile_example :
    ((selected_model_usages host text_host units).state ≡ complete)
    × (sum_token_usage (map draft_of (selected_model_usages host text_host units).model_usages)
        ≡ sum_token_usage (map (λ u. u.usage) units))
unfolding program
models_reconcile_example = models_reconcile host text_host units refl

-- A unit of no model that has tokens, and one that has none.
abbrev unnamed : String → Option ℕ → AttributedUsageUnit
unnamed model input = record {
  model = some model;
  provider = none;
  usage = record no_usage { input_tokens = input };
}

without_tokens : (selected_model_usages host text_host (unnamed "" none ∷ units)).state ≡ complete
unfolding program
without_tokens = refl

with_tokens :
    (selected_model_usages host text_host (unnamed "" (some 4) ∷ units)).state
    ≡ missing_model_attribution
unfolding program
with_tokens = refl

model_invariant_holds_example :
    model_invariant (run_totals units) (selected_model_usages host text_host units)
    ≡ (if any lacks_model units then not_applicable else passed)
model_invariant_holds_example = model_invariant_holds units host text_host
