-- ===== src/Prelude/Slices.antt =====
-- `String.prototype.slice`, which counts code units.
use Prim.Native.Nat.{ℕ, ◌-◌}
use Prim.Native.String.{String}
use Prim.Native.Char.{code}
use tirion_watch.Prelude.Tests.{if◌then◌else◌, ltb, leb, eqb}

-- The code units of a character: one, or two outside the basic plane.
unfoldable pub width : ℕ → ℕ
width c = if ltb c 0x10000 then 1 else 2

-- `text.slice(0, n)`; a character that the cut would split goes, as a text here has no half characters.
unfoldable pub slice_to : ℕ → String → String
unfolding width
slice_to n String.[] = String.[]
slice_to n (String.◌∷◌ c s) =
    let rest = slice_to (n - width (code c)) s in
    if leb (width (code c)) n then String.◌∷◌ c rest else String.[]

-- `text.slice(n)`
unfoldable pub slice_from : ℕ → String → String
unfolding width
slice_from n String.[] = String.[]
slice_from n (String.◌∷◌ c s) =
    let rest = slice_from (n - width (code c)) s in if eqb n 0 then String.◌∷◌ c s else rest
