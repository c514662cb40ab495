-- ===== src/Replace/Matching.antt =====
-- The regular expression that `plan_find_replace` makes: a literal text, with or without regard to
-- case, and with or without word boundaries around it.
use Prim.Native.Char.{Char, code}
use cross_format_documment.Base.{
  ℕ, zero, suc, ◌-◌, String, Bool, true, false, not, ◌&&◌, List, [], ◌∷◌, ◌++◌, eqb, if◌then◌else◌,
}
use cross_format_documment.Base.Lists.{length}
use cross_format_documment.Base.Text.{chars, of_chars}

-- What `re` takes from the tables of Unicode: the characters of words, and which characters are one
-- without regard to case.
pub record Alphabet : Type 0 where
  pub is_word : Char → Bool
  pub same_ignoring_case : Char → Char → Bool

-- The request, `find` in characters.
pub record Pattern : Type 0 where
  pub find : List Char
  pub match_case : Bool
  pub whole_word : Bool

abbrev pub same_code : Char → Char → Bool
same_code c d = eqb (code c) (code d)

abbrev pub xor : Bool → Bool → Bool
xor true b = not b
xor false b = b

module _ (alphabet : Alphabet) (pattern : Pattern) where
  abbrev pub same_char : Char → Char → Bool
  same_char c d = if pattern.match_case then same_code c d else alphabet.same_ignoring_case c d

  -- whether the first character is one of a word; past the end it is none
  abbrev pub starts_word : List Char → Bool
  starts_word [] = false
  starts_word (c ∷ cs) = alphabet.is_word c

  -- The literal stands at the start of the text; `inside` says of its last character so far whether
  -- it is one of a word, and a boundary is asked for behind it where the request says so.
  unfoldable pub literal_at : List Char → Bool → List Char → Bool
  literal_at [] inside text = if pattern.whole_word then xor inside (starts_word text) else true
  literal_at (p ∷ ps) inside [] = false
  literal_at (p ∷ ps) inside (c ∷ cs) =
      let rest = literal_at ps (alphabet.is_word c) cs in if same_char p c then rest else false

  -- A match begins here; `before` says whether the character before is one of a word.
  unfoldable pub match_at : Bool → List Char → Bool
  unfolding literal_at
  match_at before text =
      let here = literal_at pattern.find before text in
      if pattern.whole_word then xor before (starts_word text) && here else here

  -- `len(rx.findall(text))`: matches from left to right that do not overlap. The number says how many
  -- characters of the last match are still to be passed.
  unfoldable pub count_from : ℕ → Bool → List Char → ℕ
  unfolding match_at
  count_from skip before [] = 0
  count_from (suc skip) before (c ∷ cs) = count_from skip (alphabet.is_word c) cs
  count_from zero before (c ∷ cs) =
      let after = count_from (length pattern.find - 1) (alphabet.is_word c) cs in
      let later = count_from zero (alphabet.is_word c) cs in
      if match_at before (c ∷ cs) then suc after else later

  -- `rx.sub(lambda _m: replace, text)`
  unfoldable pub sub_from : List Char → ℕ → Bool → List Char → List Char
  unfolding match_at
  sub_from new skip before [] = []
  sub_from new (suc skip) before (c ∷ cs) = sub_from new skip (alphabet.is_word c) cs
  sub_from new zero before (c ∷ cs) =
      let after = sub_from new (length pattern.find - 1) (alphabet.is_word c) cs in
      let later = sub_from new zero (alphabet.is_word c) cs in
      if match_at before (c ∷ cs) then new ++ after else c ∷ later

  abbrev pub count_matches : String → ℕ
  unfolding count_from
  count_matches text = count_from 0 false (chars text)

  abbrev pub substitute : String → String → String
  unfolding sub_from
  substitute new text = of_chars (sub_from (chars new) 0 false (chars text))
