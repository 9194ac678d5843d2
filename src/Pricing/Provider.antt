-- ===== src/Pricing/Provider.antt =====
-- src/types.ts: the provider that a usage names, and the one that its model's name implies.
use tirion_watch.Prelude.{
  ℕ, String, Option, none, some, List, [], ◌∷◌, Bool, true, false, ◌&&◌, ◌||◌, if◌then◌else◌, any,
  eqb, ◌===◌, text_comparable, codes, starts_with, contains, trim, TextHost,
}

-- What follows a list of characters in another that starts with it.
after : List ℕ → List ℕ → Option (List ℕ)
after [] ys = some ys
after (x ∷ xs) [] = none
after (x ∷ xs) (y ∷ ys) = let rest = after xs ys in if eqb x y then rest else none

-- `[ ./:-]|$`
ends_word : Option (List ℕ) → Bool
ends_word none = false
ends_word (some []) = true
ends_word (some (c ∷ cs)) = any (eqb c) (codes " ./:-")

-- `^(?:auto|composer)(?:[ ./:-]|$)`
starts_with_word : List ℕ → Bool
unfolding ends_word after
starts_with_word text =
    ends_word (after (codes "auto") text) || ends_word (after (codes "composer") text)

-- The same behind `[./:-]`.
after_separator : Option (List ℕ) → Bool
unfolding starts_with_word
after_separator none = false
after_separator (some []) = false
after_separator (some (c ∷ cs)) = any (eqb c) (codes "./:-") && starts_with_word cs

-- `^(?:cursor[./:-])?(?:auto|composer)(?:[ ./:-]|$)`
names_cursor : String → Bool
unfolding starts_with_word after_separator after
names_cursor text =
    starts_with_word (codes text) || after_separator (after (codes "cursor") (codes text))

module _ (host : TextHost) where
  unfoldable pub normalize_provider : Option String → Option String
  normalize_provider none = none
  normalize_provider (some provider) =
      let normalized = host.to_lower_case (trim provider) in
      if provider === "" || normalized === "" then none else some normalized

provider_of_name : String → Option String
unfolding names_cursor
provider_of_name name =
    if name === ""
    then none
    else if contains name "claude" || contains name "anthropic"
    then some "anthropic"
    else if contains name "gemini" || contains name "google"
    then some "google"
    else if contains name "mai-code" || contains name "microsoft"
    then some "microsoft"
    else if contains name "raptor" || contains name "github"
    then some "github"
    else if names_cursor name
    then some "cursor"
    else if starts_with name "gpt-"
        || starts_with name "gpt "
        || starts_with name "o3"
        || starts_with name "o4"
        || name === "chat-latest"
        || contains name "openai"
    then some "openai"
    else none

unfoldable pub infer_provider_from_model : TextHost → Option String → Option String
unfolding provider_of_name
infer_provider_from_model host none = none
infer_provider_from_model host (some model) =
    if model === "" then none else provider_of_name (host.to_lower_case (trim model))
