-- ===== src/Prelude/Strings.antt =====
-- The operations on strings that the source uses: blank texts, trimming, lower case, order by
-- UTF-16 code units (the order of `sort()` and of `<`), prefixes and substrings.
use Prim.Native.Nat.{ℕ, ◌+◌, ◌-◌, ◌/◌, ◌%◌}
use Prim.Native.Char.{code}
use Prim.Native.String.{String}
use mathlib.Core.Path.{◌≡◌, refl}
use mathlib.Core.Bool.{Bool, true, false, ◌&&◌, ◌||◌}
use mathlib.Core.List.{List, [], ◌∷◌, ◌++◌}
use native.Mathlib.Omega.{arith}
use tirion_watch.Prelude.Tests.{if◌then◌else◌, ltb, leb, eqb}
use tirion_watch.Prelude.Lists.{every}

abbrev pub codes : String → List ℕ
codes String.[] = []
codes (String.◌∷◌ c s) = code c ∷ codes s

-- The white space and line terminators of `String.prototype.trim`.
is_white_space : ℕ → Bool
is_white_space c =
    (leb 0x9 c && leb c 0xd)
    || eqb c 0x20
    || eqb c 0xa0
    || eqb c 0x1680
    || (leb 0x2000 c && leb c 0x200a)
    || eqb c 0x2028
    || eqb c 0x2029
    || eqb c 0x202f
    || eqb c 0x205f
    || eqb c 0x3000
    || eqb c 0xfeff

-- `value.trim() === ""`
unfoldable pub is_blank : String → Bool
unfolding is_white_space
is_blank s = every is_white_space (codes s)

-- The UTF-16 code units of a code point.
utf16 : ℕ → List ℕ
utf16 c =
    if ltb c 0x10000
    then c ∷ []
    else (0xd800 + (c - 0x10000) / 0x400) ∷ (0xdc00 + (c - 0x10000) % 0x400) ∷ []

units_of : List ℕ → List ℕ
units_of [] = []
units_of (c ∷ cs) = utf16 c ++ units_of cs

unfoldable pub units : String → List ℕ
unfolding units_of utf16
units s = units_of (codes s)

-- Lexicographic order of code units.
abbrev pub lex_leb : List ℕ → List ℕ → Bool
lex_leb [] ys = true
lex_leb (x ∷ xs) [] = false
lex_leb (x ∷ xs) (y ∷ ys) = ltb x y || (eqb x y && lex_leb xs ys)

pub lex_leb_refl : (xs : List ℕ) → lex_leb xs xs ≡ true
lex_leb_refl [] = refl
lex_leb_refl (x ∷ xs) = ground (arith, lex_leb_refl xs)

pub lex_leb_total : (xs ys : List ℕ) → (lex_leb xs ys || lex_leb ys xs) ≡ true
lex_leb_total [] ys = refl
lex_leb_total (x ∷ xs) [] = refl
lex_leb_total (x ∷ xs) (y ∷ ys) = ground (arith, lex_leb_total xs ys)

pub lex_leb_trans :
    (xs ys zs : List ℕ) → lex_leb xs ys ≡ true → lex_leb ys zs ≡ true → lex_leb xs zs ≡ true
lex_leb_trans [] ys zs h k = refl
lex_leb_trans (x ∷ xs) [] zs h k = ground arith
lex_leb_trans (x ∷ xs) (y ∷ ys) [] h k = ground arith
lex_leb_trans (x ∷ xs) (y ∷ ys) (z ∷ zs) h k = ground (arith, lex_leb_trans xs ys zs)

pub lex_leb_antisymm : (xs ys : List ℕ) → lex_leb xs ys ≡ true → lex_leb ys xs ≡ true → xs ≡ ys
lex_leb_antisymm [] [] h k = refl
lex_leb_antisymm [] (y ∷ ys) h k = ground arith
lex_leb_antisymm (x ∷ xs) [] h k = ground arith
lex_leb_antisymm (x ∷ xs) (y ∷ ys) h k = ground (arith, lex_leb_antisymm xs ys)

-- `s <= t`
unfoldable pub str_leb : String → String → Bool
unfolding units
str_leb s t = lex_leb (units s) (units t)

pub str_leb_total : (s t : String) → (str_leb s t || str_leb t s) ≡ true
unfolding str_leb
str_leb_total s t = lex_leb_total (units s) (units t)

pub str_leb_trans : (s t u : String) → str_leb s t ≡ true → str_leb t u ≡ true → str_leb s u ≡ true
unfolding str_leb
str_leb_trans s t u = lex_leb_trans (units s) (units t) (units u)

abbrev pub is_prefix : List ℕ → List ℕ → Bool
is_prefix [] ys = true
is_prefix (x ∷ xs) [] = false
is_prefix (x ∷ xs) (y ∷ ys) = eqb x y && is_prefix xs ys

is_infix : List ℕ → List ℕ → Bool
is_infix xs [] = is_prefix xs []
is_infix xs (y ∷ ys) = is_prefix xs (y ∷ ys) || is_infix xs ys

-- `text.startsWith(part)`
unfoldable pub starts_with : String → String → Bool
starts_with text part = is_prefix (codes part) (codes text)

-- `text.includes(part)`
unfoldable pub contains : String → String → Bool
unfolding is_infix
contains text part = is_infix (codes part) (codes text)

trim_start : String → String
unfolding is_white_space
trim_start String.[] = String.[]
trim_start (String.◌∷◌ c s) = if is_white_space (code c) then trim_start s else String.◌∷◌ c s

-- A white character goes when nothing is left behind it.
trim_last : Bool → String → String → String
trim_last true shut String.[] = String.[]
trim_last white shut rest = shut

trim_end : String → String
unfolding is_white_space trim_last
trim_end String.[] = String.[]
trim_end (String.◌∷◌ c s) =
    let rest = trim_end s in trim_last (is_white_space (code c)) (String.◌∷◌ c rest) rest

-- `text.trim()`
unfoldable pub trim : String → String
unfolding trim_start trim_end
trim text = trim_start (trim_end text)
