-- ===== src/Tokens/Sums.antt =====
-- Sums of token usage do not depend on how they are divided.
use tirion_watch.Prelude.{
  ℕ, Option, none, some, List, [], ◌∷◌, ◌≡◌, refl, sym, ◌∙◌, text_comparable, arith,
}
use tirion_watch.Tokens.{TokenUsageDraft, no_usage, add, add_usage, sum_from, sum_token_usage}

add_comm : (a b : Option ℕ) → add a b ≡ add b a
unfolding add
add_comm none none = refl
add_comm none (some b) = refl
add_comm (some a) none = refl
add_comm (some a) (some b) = ground arith

add_assoc : (a b c : Option ℕ) → add (add a b) c ≡ add a (add b c)
unfolding add
add_assoc none none none = refl
add_assoc none none (some c) = refl
add_assoc none (some b) none = refl
add_assoc none (some b) (some c) = refl
add_assoc (some a) none none = refl
add_assoc (some a) none (some c) = refl
add_assoc (some a) (some b) none = refl
add_assoc (some a) (some b) (some c) = ground arith

add-none : (a : Option ℕ) → add a none ≡ a
unfolding add
add-none none = refl
add-none (some a) = refl

pub add_usage_comm : (a b : TokenUsageDraft) → add_usage a b ≡ add_usage b a
unfolding add_usage
add_usage_comm a b = cc (
  add_comm a.input_tokens b.input_tokens,
  add_comm a.output_tokens b.output_tokens,
  add_comm a.cache_read_input_tokens b.cache_read_input_tokens,
  add_comm a.cache_creation_input_tokens b.cache_creation_input_tokens,
  add_comm a.reasoning_output_tokens b.reasoning_output_tokens,
)

pub add_usage_assoc :
    (a b c : TokenUsageDraft) → add_usage (add_usage a b) c ≡ add_usage a (add_usage b c)
unfolding add_usage
add_usage_assoc a b c = cc (
  add_assoc a.input_tokens b.input_tokens c.input_tokens,
  add_assoc a.output_tokens b.output_tokens c.output_tokens,
  add_assoc a.cache_read_input_tokens b.cache_read_input_tokens c.cache_read_input_tokens,
  add_assoc a.cache_creation_input_tokens b.cache_creation_input_tokens
      c.cache_creation_input_tokens,
  add_assoc a.reasoning_output_tokens b.reasoning_output_tokens c.reasoning_output_tokens,
)

pub add_usage-no_usage : (a : TokenUsageDraft) → add_usage a no_usage ≡ a
unfolding add_usage
add_usage-no_usage a = cc (
  add-none a.input_tokens,
  add-none a.output_tokens,
  add-none a.cache_read_input_tokens,
  add-none a.cache_creation_input_tokens,
  add-none a.reasoning_output_tokens,
)

-- A sum from the right, for proofs.
abbrev pub total : List TokenUsageDraft → TokenUsageDraft
total [] = no_usage
total (u ∷ us) = add_usage u (total us)

pub sum_from-total :
    (acc : TokenUsageDraft) (us : List TokenUsageDraft) → sum_from acc us ≡ add_usage acc (total us)
unfolding sum_from
sum_from-total acc [] = sym (add_usage-no_usage acc)
sum_from-total acc (u ∷ us) = sum_from-total (add_usage acc u) us ∙ add_usage_assoc acc u (total us)

pub sum_token_usage-total : (us : List TokenUsageDraft) → sum_token_usage us ≡ total us
unfolding sum_token_usage
sum_token_usage-total us =
    sum_from-total no_usage us ∙ add_usage_comm no_usage (total us) ∙ add_usage-no_usage (total us)

pub add_usage_left_comm :
    (a b c : TokenUsageDraft) → add_usage a (add_usage b c) ≡ add_usage b (add_usage a c)
add_usage_left_comm a b c = cc (add_usage_assoc a b c, add_usage_assoc b a c, add_usage_comm a b)
