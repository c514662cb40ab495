-- ===== src/Replace/Occurs.antt =====
-- Where the text to find stands, and that the expression of `plan_find_replace`
-- (backend/src/docos/services/docengine/find_replace.py) matches there.
use Prim.Native.Char.{Char, code}
use cross_format_documment.Base.{
  ◌≤◌, Bool, true, false, List, [], ◌∷◌, ◌++◌, ◌≡◌, ◌⊎◌, refl, sym, ◌∙◌, arith, Bool-cases, inl,
  inr, false≢true,
}
use cross_format_documment.Base.Lists.{length}
use cross_format_documment.Replace.Matching.{
  Alphabet, Pattern, same_char, xor, starts_word, literal_at, match_at,
}

module _ (alphabet : Alphabet) (pattern : Pattern) where
  -- Two characters that the request takes for one.
  abbrev pub Same : Char → Char → Type 0
  Same p c =
      ((pattern.match_case ≡ true) × (code p ≡ code c))
      ⊎ ((pattern.match_case ≡ false) × (alphabet.same_ignoring_case p c ≡ true))

  abbrev pub Alike : List Char → List Char → Type 0
  Alike [] [] = Unit
  Alike [] (c ∷ cs) = ⊥
  Alike (p ∷ ps) [] = ⊥
  Alike (p ∷ ps) (c ∷ cs) = Same p c × Alike ps cs

  -- whether the last character is one of a word
  abbrev pub ends_word : Bool → List Char → Bool
  ends_word before [] = before
  ends_word before (c ∷ cs) = ends_word (alphabet.is_word c) cs

  -- Where whole words are asked for: of the characters on both sides one is of a word, and one is not.
  abbrev pub Edge : Bool → List Char → Type 0
  Edge before text =
      (pattern.whole_word ≡ false)
      ⊎ ((before ≡ true) × (starts_word alphabet pattern text ≡ false))
      ⊎ ((before ≡ false) × (starts_word alphabet pattern text ≡ true))

  -- The text to find stands at the start of `m ++ rest`, as `m`.
  pub record Occurs (before : Bool) (m rest : List Char) : Type 0 where
    pub alike : Alike pattern.find m
    pub left : Edge before (m ++ rest)
    pub right : Edge (ends_word before m) rest

  same_char-Same : (p c : Char) → same_char alphabet pattern p c ≡ true → Same p c
  same_char-Same p c h = elim (Bool-cases pattern.match_case) [
    | inl exact ↦ inl (exact, ground (arith, h, exact))
    | inr loose ↦ inr (loose, ground (arith, h, loose))
  ]

  Same-same_char : (p c : Char) → Same p c → same_char alphabet pattern p c ≡ true
  Same-same_char p c (inl (exact, e)) = ground (arith, exact, e)
  Same-same_char p c (inr (loose, e)) = ground (arith, loose, e)

  edge_holds :
      (before : Bool) (text : List Char)
      → pattern.whole_word ≡ true
      → xor before (starts_word alphabet pattern text) ≡ true
      → Edge before text
  edge_holds true text w h = inr (inl (refl, ground (arith, h)))
  edge_holds false text w h = inr (inr (refl, h))

  edge_met :
      (before : Bool) (text : List Char)
      → pattern.whole_word ≡ true
      → Edge before text
      → xor before (starts_word alphabet pattern text) ≡ true
  edge_met before text w (inl any) = absurd (false≢true (sym any ∙ w))
  edge_met before text w (inr (inl (b, e))) = rw (b, e) refl
  edge_met before text w (inr (inr (b, e))) = rw (b, e) refl

  literal_at-Alike :
      (ps m rest : List Char) (inside : Bool)
      → length ps ≡ length m
      → literal_at alphabet pattern ps inside (m ++ rest) ≡ true
      → Alike ps m × Edge (ends_word inside m) rest
  unfolding literal_at
  literal_at-Alike [] [] rest inside l h = elim (Bool-cases pattern.whole_word) [
    | inl w ↦ (tt, edge_holds inside rest w (rw (literal_at, w) at h))
    | inr any ↦ (tt, inl any)
  ]
  literal_at-Alike [] (c ∷ m) rest inside l h = absurd (omega (arith, l))
  literal_at-Alike (p ∷ ps) [] rest inside l h = absurd (omega (arith, l))
  literal_at-Alike (p ∷ ps) (c ∷ m) rest inside l h =
      elim (Bool-cases (same_char alphabet pattern p c)) [
        | inl same ↦
            let (alike, edge) =
              literal_at-Alike ps m rest (alphabet.is_word c) (omega (arith, l))
                (rw (literal_at, same) at h) in
            ((same_char-Same p c same, alike), edge)
        | inr other ↦ absurd (false≢true (rw (literal_at, other) at h))
      ]

  Alike-literal_at :
      (ps m rest : List Char) (inside : Bool)
      → Alike ps m
      → Edge (ends_word inside m) rest
      → literal_at alphabet pattern ps inside (m ++ rest) ≡ true
  unfolding literal_at
  Alike-literal_at [] [] rest inside alike edge = elim (Bool-cases pattern.whole_word) [
    | inl w ↦ rw (literal_at, w) (edge_met inside rest w edge)
    | inr any ↦ rw (literal_at, any) refl
  ]
  Alike-literal_at [] (c ∷ m) rest inside alike edge = absurd alike
  Alike-literal_at (p ∷ ps) [] rest inside alike edge = absurd alike
  Alike-literal_at (p ∷ ps) (c ∷ m) rest inside (same, alike) edge =
      rw (literal_at, Same-same_char p c same)
        (Alike-literal_at ps m rest (alphabet.is_word c) alike edge)

  -- A match that begins is one that occurs, and the other way round.
  pub match_at-Occurs :
      (before : Bool) (m rest : List Char)
      → length pattern.find ≡ length m
      → match_at alphabet pattern before (m ++ rest) ≡ true
      → Occurs before m rest
  unfolding match_at
  match_at-Occurs before m rest l h = elim (Bool-cases pattern.whole_word) [
    | inl w ↦
        let here : literal_at alphabet pattern pattern.find before (m ++ rest) ≡ true =
          ground (arith, h, w) in
        let edge : xor before (starts_word alphabet pattern (m ++ rest)) ≡ true =
          ground (arith, h, w) in
        let (alike, right) = literal_at-Alike pattern.find m rest before l here in
        record { alike = alike; left = edge_holds before (m ++ rest) w edge; right = right }
    | inr any ↦
        let (alike, right) =
          literal_at-Alike pattern.find m rest before l (ground (arith, h, any)) in
        record { alike = alike; left = inl any; right = right }
  ]

  pub Occurs-match_at :
      (before : Bool) (m rest : List Char)
      → Occurs before m rest
      → match_at alphabet pattern before (m ++ rest) ≡ true
  unfolding match_at
  Occurs-match_at before m rest o =
      let here = Alike-literal_at pattern.find m rest before o.alike o.right in
      elim (Bool-cases pattern.whole_word) [
        | inl w ↦ ground (arith, w, edge_met before (m ++ rest) w o.left, here)
        | inr any ↦ ground (arith, any, here)
      ]

  literal_at-length :
      (ps : List Char) (inside : Bool) (text : List Char)
      → literal_at alphabet pattern ps inside text ≡ true
      → length ps ≤ length text
  unfolding literal_at
  literal_at-length [] inside text h = omega arith
  literal_at-length (p ∷ ps) inside [] h = cc
  literal_at-length (p ∷ ps) inside (c ∷ cs) h =
      elim (Bool-cases (same_char alphabet pattern p c)) [
        | inl same ↦ omega (arith, literal_at-length ps (alphabet.is_word c) cs (rw same at h))
        | inr other ↦ let no : false ≡ true = rw other at h in cc
      ]

  pub match_at-length :
      (before : Bool) (text : List Char)
      → match_at alphabet pattern before text ≡ true
      → length pattern.find ≤ length text
  unfolding match_at
  match_at-length before text h = literal_at-length pattern.find before text (ground (arith, h))
