-- ===== src/Base/Prefix.antt =====
-- `str.startswith` and `str.split` with a separator of one character.
use Prim.Native.Char.{Char, code}
use Prim.Native.String.{String}
use mathlib.Core.Bool.{Bool, true, false, ◌&&◌}
use mathlib.Core.List.{List, [], ◌∷◌}
use cross_format_documment.Base.Tests.{eqb, if◌then◌else◌}
use cross_format_documment.Base.Text.{chars, of_chars}

abbrev pub starts_with_chars : List Char → List Char → Bool
starts_with_chars [] cs = true
starts_with_chars (p ∷ ps) [] = false
starts_with_chars (p ∷ ps) (c ∷ cs) = eqb (code p) (code c) && starts_with_chars ps cs

-- `s.startswith(prefix)`
unfoldable pub starts_with : String → String → Bool
starts_with prefix s = starts_with_chars (chars prefix) (chars s)

-- The parts, the first of them begun with `part`, last character first.
abbrev pub with_first : Char → List (List Char) → List (List Char)
with_first c [] = (c ∷ []) ∷ []
with_first c (part ∷ parts) = (c ∷ part) ∷ parts

abbrev pub split_chars : Char → List Char → List (List Char)
split_chars sep [] = [] ∷ []
split_chars sep (c ∷ cs) =
    let rest = split_chars sep cs in
    if eqb (code c) (code sep) then [] ∷ rest else with_first c rest

abbrev texts : List (List Char) → List String
texts [] = []
texts (part ∷ parts) = of_chars part ∷ texts parts

-- `s.split(sep)`
unfoldable pub split : Char → String → List String
split sep s = texts (split_chars sep (chars s))
