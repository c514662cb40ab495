-- ===== src/Sensitive/Mask.antt =====
-- What of a value that was found is shown.
use Prim.Native.Char.{Char, code}
use cross_format_documment.Base.{
  ℕ, suc, ◌+◌, ◌-◌, ◌*◌, ◌%◌, Option, none, some, Bool, true, false, not, List, [], ◌∷◌, reverse,
  eqb, leb, ltb, if◌then◌else◌,
}
use cross_format_documment.Base.Lists.{length, keep}

-- The tables of Unicode: letters and digits, and the value of a decimal digit.
pub record CharTables : Type 0 where
  pub is_alnum : Char → Bool
  pub digit : Char → Option ℕ

abbrev pub is_blank : Char → Bool
is_blank c = eqb (code c) 32

abbrev pub bullet : Char
bullet = "•"

module _ (tables : CharTables) where
  -- `keep`: how many letters and digits may be shown
  unfoldable pub shown_most : List Char → ℕ
  shown_most value = if leb (length (keep (λ c. not (is_blank c)) value)) 6 then 2 else 4

  -- The loop of `_mask` over the reversed characters, with `revealed` of them shown so far.
  unfoldable pub mask_from : ℕ → ℕ → List Char → List Char
  mask_from most revealed [] = []
  mask_from most revealed (c ∷ cs) =
      let more = mask_from most (suc revealed) cs in
      let same = mask_from most revealed cs in
      if tables.is_alnum c
      then (if ltb revealed most then c ∷ more else bullet ∷ same)
      else c ∷ same

  unfoldable pub mask : List Char → List Char
  unfolding mask_from shown_most
  mask value = reverse (mask_from (shown_most value) 0 (reverse value))

  -- `_luhn_ok` on the values of the digits, last first
  abbrev pub luhn_digit : Bool → ℕ → ℕ
  luhn_digit true d = if ltb 9 (d * 2) then d * 2 - 9 else d * 2
  luhn_digit false d = d

  abbrev pub luhn_sum : Bool → List ℕ → ℕ
  luhn_sum odd [] = 0
  luhn_sum odd (d ∷ ds) = luhn_digit odd d + luhn_sum (not odd) ds

  -- `re.sub(r"\D", "", value)`, as values
  abbrev pub digits_of : List Char → List ℕ
  digits_of [] = []
  digits_of (c ∷ cs) =
      let rest = digits_of cs in elim (tables.digit c) [ none ↦ rest | some d ↦ d ∷ rest ]

  unfoldable pub luhn_ok : List ℕ → Bool
  luhn_ok digits =
      if ltb (length digits) 13
      then false
      else if ltb 19 (length digits)
      then false
      else eqb (luhn_sum false (reverse digits) % 10) 0
