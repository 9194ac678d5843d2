-- ===== src/Tokens/Reconcile.antt =====
-- The totals by model are those of the run.
use tirion_watch.Prelude.{
  ℕ, String, Option, none, some, List, [], ◌∷◌, ◌≡◌, refl, sym, ap, ◌∙◌, map, Bool, true, false,
  any, select, get_or, is_some, ◌&&◌, ◌||◌, if◌then◌else◌, ◌===◌, text_comparable,
  number_comparable, map_get, map_set, values, sort_by, insert_sorted, arith, if_ind, Bool-cases,
  inl, inr, Host, TextHost,
}
use tirion_watch.Pricing.Accounting.{TokenBreakdown}
use tirion_watch.Tokens.{
  TokenUsageDraft, no_usage, add_usage, sum_token_usage, finalize_token_breakdown, has_token_data,
  AttributedUsageUnit, ModelDraft, ModelUsageSelection, complete, missing_model_attribution,
  usage_of, add_unit, add_units, summary_of, usage_first, selected_model_usages,
  matching_breakdown_value, draft_of, passed, not_applicable, model_totals_match, model_invariant,
}
use tirion_watch.Tokens.Sums.{
  add_usage_comm, add_usage_assoc, add_usage-no_usage, add_usage_left_comm, total,
  sum_token_usage-total,
}

abbrev held : List (String × ModelDraft) → TokenUsageDraft
held m = total (map (λ d. d.usage) (values m))

pair_sum : (a b : TokenUsageDraft) → sum_token_usage (a ∷ b ∷ []) ≡ add_usage a b
pair_sum a b = sum_token_usage-total (a ∷ b ∷ []) ∙ ap (add_usage a) (add_usage-no_usage b)

map_set-held :
    (k : String) (d : ModelDraft) (u : TokenUsageDraft) (m : List (String × ModelDraft))
    → d.usage ≡ add_usage (usage_of (map_get k m)) u
    → held (map_set k d m) ≡ add_usage u (held m)
unfolding map_set map_get usage_of
map_set-held k d u [] h =
    ap (λ x. add_usage x no_usage) (h ∙ add_usage_comm no_usage u ∙ add_usage-no_usage u)
map_set-held k d u ((j, w) ∷ m) h = elim (Bool-cases (j === k)) [
  | inl e ↦ rw e (cc (rw e at h, add_usage_comm w.usage u, add_usage_assoc u w.usage (held m)))
  | inr e ↦ rw e (
      ap (add_usage w.usage) (map_set-held k d u m (rw e at h))
      ∙ add_usage_left_comm w.usage u (held m))
]

add_units-held :
    (text : TextHost) (m : List (String × ModelDraft)) (us : List AttributedUsageUnit)
    → held (add_units text m us) ≡ add_usage (held m) (total (map (λ u. u.usage) us))
unfolding add_units add_unit
add_units-held text m [] = sym (add_usage-no_usage (held m))
add_units-held text m (u ∷ us) =
    add_units-held text (add_unit text m u) us
    ∙ ap (λ x. add_usage x (total (map (λ u. u.usage) us)))
        (map_set-held _ _ u.usage m (pair_sum _ u.usage) ∙ add_usage_comm u.usage (held m))
    ∙ add_usage_assoc (held m) u.usage (total (map (λ u. u.usage) us))

insert_sorted-total :
    {A : Type 0} (le : A → A → Bool) (f : A → TokenUsageDraft) (x : A) (xs : List A)
    → total (map f (insert_sorted le x xs)) ≡ add_usage (f x) (total (map f xs))
unfolding insert_sorted
insert_sorted-total le f x [] = refl
insert_sorted-total le f x (y ∷ ys) =
    if_ind (λ zs. total (map f zs) ≡ add_usage (f x) (add_usage (f y) (total (map f ys)))) (le x y)
      (λ e. refl)
      (λ e.
        ap (add_usage (f y)) (insert_sorted-total le f x ys)
        ∙ add_usage_left_comm (f y) (f x) (total (map f ys)))

sort_by-total :
    {A : Type 0} (le : A → A → Bool) (f : A → TokenUsageDraft) (xs : List A)
    → total (map f (sort_by le xs)) ≡ total (map f xs)
unfolding sort_by
sort_by-total le f [] = refl
sort_by-total le f (x ∷ xs) =
    insert_sorted-total le f x (sort_by le xs) ∙ ap (add_usage (f x)) (sort_by-total le f xs)

summaries-total :
    (ds : List ModelDraft)
    → total (map draft_of (map summary_of ds)) ≡ total (map (λ d. d.usage) ds)
unfolding draft_of summary_of finalize_token_breakdown
summaries-total [] = refl
summaries-total (d ∷ ds) = ap (add_usage d.usage) (summaries-total ds)

is_none : (o : Option ℕ) → is_some o ≡ false → o ≡ none
is_none none h = refl
is_none (some a) h = ground (arith, h)

no_data : (u : TokenUsageDraft) → has_token_data u ≡ false → u ≡ no_usage
unfolding has_token_data
no_data u h = cc (
  is_none u.input_tokens (ground (arith, h)),
  is_none u.output_tokens (ground (arith, h)),
  is_none u.cache_read_input_tokens (ground (arith, h)),
  is_none u.cache_creation_input_tokens (ground (arith, h)),
  is_none u.reasoning_output_tokens (ground (arith, h)),
)

select-total :
    (us : List AttributedUsageUnit)
    → total (map (λ u. u.usage) (select (λ u. has_token_data u.usage) us))
      ≡ total (map (λ u. u.usage) us)
select-total [] = refl
select-total (u ∷ us) = elim (Bool-cases (has_token_data u.usage)) [
  | inl e ↦ rw e (ap (add_usage u.usage) (select-total us))
  | inr e ↦ rw e (
      select-total us
      ∙ sym (
          ap (λ x. add_usage x (total (map (λ u. u.usage) us))) (no_data u.usage e)
          ∙ add_usage_comm no_usage (total (map (λ u. u.usage) us))
          ∙ add_usage-no_usage (total (map (λ u. u.usage) us))))
]

-- A unit with tokens that names no model.
abbrev pub lacks_model : AttributedUsageUnit → Bool
lacks_model u = has_token_data u.usage && (get_or u.model "" === "")

any-lacks_model :
    (us : List AttributedUsageUnit)
    → any (λ u. get_or u.model "" === "") (select (λ u. has_token_data u.usage) us)
      ≡ any lacks_model us
any-lacks_model [] = refl
any-lacks_model (u ∷ us) = elim (Bool-cases (has_token_data u.usage)) [
  | inl e ↦ rw e (ap (λ b. (get_or u.model "" === "") || b) (any-lacks_model us))
  | inr e ↦ rw e (any-lacks_model us)
]

module _ (host : Host) (text : TextHost) (units : List AttributedUsageUnit) where
  -- The usages by model of units that all name a model add up to those of the run.
  complete-total :
      (us : List AttributedUsageUnit)
      → total (
          map draft_of
            (sort_by (usage_first host) (map summary_of (values (add_units text [] us)))))
        ≡ total (map (λ u. u.usage) us)
  complete-total us =
      sort_by-total (usage_first host) draft_of (map summary_of (values (add_units text [] us)))
      ∙ summaries-total (values (add_units text [] us))
      ∙ add_units-held text [] us
      ∙ add_usage_comm no_usage (total (map (λ u. u.usage) us))
      ∙ add_usage-no_usage (total (map (λ u. u.usage) us))

  -- With a unit that lacks its model nothing is divided.
  selected_missing :
      any lacks_model units ≡ true
      → (selected_model_usages host text units).state ≡ missing_model_attribution
  unfolding selected_model_usages
  selected_missing lacks = rw (any-lacks_model units, lacks)

  -- Where every unit with tokens names its model, the selection is complete, and the usages by model
  -- add up to the usage of the run in each of the five counts.
  pub models_reconcile :
      any lacks_model units ≡ false
      → ((selected_model_usages host text units).state ≡ complete)
        × (sum_token_usage (map draft_of (selected_model_usages host text units).model_usages)
            ≡ sum_token_usage (map (λ u. u.usage) units))
  unfolding selected_model_usages
  models_reconcile named =
      let token_units = select (λ u. has_token_data u.usage) units in
      rw (any-lacks_model units, named)
        (
          refl,
          sum_token_usage-total _
              ∙ complete-total token_units
              ∙ select-total units
              ∙ sym (sum_token_usage-total (map (λ u. u.usage) units)),
        )

matching_breakdown_value_refl : (a : Option ℕ) → matching_breakdown_value a a ≡ true
unfolding matching_breakdown_value
matching_breakdown_value_refl none = refl
matching_breakdown_value_refl (some a) = ground arith

totals_match : (t : TokenBreakdown) → model_totals_match t t ≡ passed
unfolding model_totals_match
totals_match t = ground (
  arith,
  matching_breakdown_value_refl t.input_tokens,
  matching_breakdown_value_refl t.output_tokens,
  matching_breakdown_value_refl t.total_tokens,
)

module _ (units : List AttributedUsageUnit) where
  abbrev pub run_totals : TokenBreakdown
  run_totals = finalize_token_breakdown (sum_token_usage (map (λ u. u.usage) units))

  complete_passes :
      (s : ModelUsageSelection)
      → s.state ≡ complete
      → sum_token_usage (map draft_of s.model_usages) ≡ sum_token_usage (map (λ u. u.usage) units)
      → model_invariant run_totals s ≡ passed
  unfolding model_invariant
  complete_passes s done agrees = rw (done, agrees) (totals_match run_totals)

  missing_skips :
      (s : ModelUsageSelection)
      → s.state ≡ missing_model_attribution
      → model_invariant run_totals s ≡ not_applicable
  unfolding model_invariant
  missing_skips s missing = rw missing refl

  -- The invariant model_totals_match_run never fails: it does not apply where a unit with tokens
  -- names no model, and passes otherwise.
  pub model_invariant_holds :
      (host : Host) (text : TextHost)
      → model_invariant run_totals (selected_model_usages host text units)
        ≡ (if any lacks_model units then not_applicable else passed)
  model_invariant_holds host text = elim (Bool-cases (any lacks_model units)) [
    | inl lacks ↦ rw lacks (
        missing_skips (selected_model_usages host text units)
          (selected_missing host text units lacks))
    | inr named ↦
        let (done, agrees) = models_reconcile host text units named in
        rw named (complete_passes (selected_model_usages host text units) done agrees)
  ]
