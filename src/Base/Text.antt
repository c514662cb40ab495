-- ===== src/Base/Text.antt =====
-- Python's `str.strip` and concatenation, on the characters of a text.
use Prim.Native.Char.{Char, code}
use Prim.Native.String.{String}
use mathlib.Core.Bool.{Bool, ◌&&◌, ◌||◌}
use mathlib.Core.List.{List, [], ◌∷◌, reverse}
use cross_format_documment.Base.Tests.{leb, eqb, if◌then◌else◌}

abbrev pub chars : String → List Char
chars String.[] = []
chars (String.◌∷◌ c s) = c ∷ chars s

abbrev pub of_chars : List Char → String
of_chars [] = String.[]
of_chars (c ∷ cs) = String.◌∷◌ c (of_chars cs)

-- `str.isspace` of one character
abbrev is_space : Char → Bool
is_space c =
    let k = code c in
    leb 9 k && leb k 13
    || leb 28 k && leb k 32
    || eqb k 133
    || eqb k 160
    || eqb k 5760
    || leb 8192 k && leb k 8202
    || eqb k 8232
    || eqb k 8233
    || eqb k 8239
    || eqb k 8287
    || eqb k 12288

abbrev drop_space : List Char → List Char
drop_space [] = []
drop_space (c ∷ cs) = let rest = drop_space cs in if is_space c then rest else c ∷ cs

-- `s.strip()`
unfoldable pub strip : String → String
strip s = of_chars (reverse (drop_space (reverse (drop_space (chars s)))))

-- `s + t`
abbrev pub join : String → String → String
join String.[] t = t
join (String.◌∷◌ c s) t = String.◌∷◌ c (join s t)
