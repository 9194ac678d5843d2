-- ===== src/Prelude/Unique.antt =====
-- `uniqueStrings`, which several files of the source declare alike: blank texts are dropped, of
-- equal texts one stays, and in most of the files the result is sorted.
use Prim.Native.String.{String}
use mathlib.Core.Path.{◌≡◌, ◌∙◌, subst}
use mathlib.Core.Logic.{◌≢◌}
use native.Mathlib.Omega.{arith}
use mathlib.Core.Bool.{Bool, true, false, not, ◌&&◌}
use mathlib.Core.List.{List}
use tirion_watch.Prelude.Lists.{select, every, is_nil, is_nil-select-not}
use tirion_watch.Prelude.Sets.{
  includes, dedup, includes-dedup, includes-select, IsUnique, dedup-IsUnique, is_nil-dedup,
}
use tirion_watch.Prelude.Strings.{is_blank, str_leb, str_leb_total, str_leb_trans}
use tirion_watch.Prelude.Equality.{text_comparable}
use tirion_watch.Prelude.Sorting.{
  sort_by, IsSorted, includes-sort_by, sort_by-IsUnique, sort_by-IsSorted, is_nil-sort_by,
}

abbrev pub is_present : String → Bool
is_present value = not (is_blank value)

-- `[...new Set(values.filter((value) => value.trim() !== ""))]`
unfoldable pub unique_strings : List String → List String
unique_strings values = dedup (select is_present values)

-- The same with `.sort()` behind it.
unfoldable pub sorted_unique_strings : List String → List String
sorted_unique_strings values = sort_by str_leb (unique_strings values)

pub includes-unique_strings :
    (values : List String) (s : String)
    → includes (unique_strings values) s ≡ (includes values s && is_present s)
unfolding unique_strings
includes-unique_strings values s =
    includes-dedup (select is_present values) s ∙ includes-select is_present values s

pub includes-sorted_unique_strings :
    (values : List String) (s : String)
    → includes (sorted_unique_strings values) s ≡ (includes values s && is_present s)
unfolding sorted_unique_strings
includes-sorted_unique_strings values s =
    includes-sort_by str_leb (unique_strings values) s ∙ includes-unique_strings values s

pub unique_strings-IsUnique : (values : List String) → IsUnique (unique_strings values)
unfolding unique_strings
unique_strings-IsUnique values = dedup-IsUnique (select is_present values)

pub sorted_unique_strings-IsUnique :
    (values : List String) → IsUnique (sorted_unique_strings values)
unfolding sorted_unique_strings
sorted_unique_strings-IsUnique values =
    sort_by-IsUnique str_leb (unique_strings values) (unique_strings-IsUnique values)

pub sorted_unique_strings-IsSorted :
    (values : List String) → IsSorted str_leb (sorted_unique_strings values)
unfolding sorted_unique_strings
sorted_unique_strings-IsSorted values =
    sort_by-IsSorted str_leb str_leb_total str_leb_trans (unique_strings values)

-- Nothing is left only of blank texts.
pub is_nil-sorted_unique_strings :
    (values : List String) → is_nil (sorted_unique_strings values) ≡ every is_blank values
unfolding sorted_unique_strings unique_strings
is_nil-sorted_unique_strings values =
    is_nil-sort_by str_leb (dedup (select is_present values))
    ∙ is_nil-dedup (select is_present values)
    ∙ is_nil-select-not is_blank values

pub present-named : (s : String) → is_present s ≡ true → s ≢ ""
unfolding is_blank
present-named s p e = ground (arith, empty (subst (λ t. is_present t ≡ true) e p))
  where
    empty : is_present "" ≡ true → false ≡ true
    empty q = q
