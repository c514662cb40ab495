-- ===== src/Replace/Cuts.antt =====
-- What `rx.sub` and `rx.findall` do in `plan_find_replace`
-- (backend/src/docos/services/docengine/find_replace.py), against the places where the text to find
-- stands.
use Prim.Native.Char.{Char}
use cross_format_documment.Base.{
  ℕ, zero, suc, ◌-◌, ◌≤◌, Bool, true, false, List, [], ◌∷◌, ◌++◌, ◌≡◌, refl, sym, ◌∙◌, ap, subst,
  arith, Bool-cases, inl, inr, false≢true,
}
use cross_format_documment.Base.Lists.{length}
use cross_format_documment.Replace.Matching.{Alphabet, Pattern, match_at, count_from, sub_from}
use cross_format_documment.Replace.Occurs.{
  ends_word, Occurs, match_at-Occurs, Occurs-match_at, match_at-length,
}

module _ (alphabet : Alphabet) (pattern : Pattern) where
  -- From left to right: each place where the text to find stands is exchanged for `new` and counted,
  -- and a character at which it does not stand is kept.
  pub data Cuts (new : List Char) : Bool → List Char → List Char → ℕ → Type 0 where
    ended : {before : Bool} → Cuts new before [] [] 0
    kept :
        {before : Bool} {c : Char} {cs out : List Char} {n : ℕ}
        → ((m rest : List Char) → c ∷ cs ≡ m ++ rest → ¬ Occurs alphabet pattern before m rest)
        → Cuts new (alphabet.is_word c) cs out n
        → Cuts new before (c ∷ cs) (c ∷ out) n
    exchanged :
        {before : Bool} (m : List Char) {rest out : List Char} {n : ℕ}
        → Occurs alphabet pattern before m rest
        → Cuts new (ends_word alphabet pattern before m) rest out n
        → Cuts new before (m ++ rest) (new ++ out) (suc n)

  Cuts-whole :
      (new text : List Char) (before : Bool) (m rest : List Char) {out : List Char} {n : ℕ}
      → text ≡ m ++ rest
      → length m ≡ 0
      → Cuts new (ends_word alphabet pattern before m) rest out n
      → Cuts new before text out n
  Cuts-whole new text before [] rest {out = out} {n = n} e l cuts =
      subst (λ t. Cuts new before t out n) (sym e) cuts
  Cuts-whole new text before (x ∷ m) rest e l cuts = absurd (omega (arith, l))

  -- With `skip` characters of the last match still to be passed.
  Cuts-after :
      (new : List Char) (text : List Char) (skip : ℕ) (before : Bool)
      → 1 ≤ length pattern.find
      → skip ≤ length text
      → (m : List Char) × (rest : List Char) × (text ≡ m ++ rest)
        × (length m ≡ skip)
        × Cuts new
            (ends_word alphabet pattern before m)
            rest
            (sub_from alphabet pattern new skip before text)
            (count_from alphabet pattern skip before text)
  unfolding sub_from count_from
  Cuts-after new [] zero before some_text l = ([], [], refl, refl, ended)
  Cuts-after new [] (suc skip) before some_text l = absurd (omega (arith, l))
  Cuts-after new (c ∷ cs) (suc skip) before some_text l =
      let (m, rest, e, n, cuts) =
        Cuts-after new cs skip (alphabet.is_word c) some_text (omega (arith, l)) in
      (c ∷ m, rest, ap (λ xs. c ∷ xs) e, ap suc n, cuts)
  Cuts-after new (c ∷ cs) zero before some_text l =
      elim (Bool-cases (match_at alphabet pattern before (c ∷ cs))) [
        | inl here ↦
            let long = match_at-length alphabet pattern before (c ∷ cs) here in
            let (m, rest, e, n, cuts) =
              Cuts-after new cs (length pattern.find - 1) (alphabet.is_word c) some_text
                (omega (arith, long, some_text)) in
            let whole : c ∷ cs ≡ (c ∷ m) ++ rest = ap (λ xs. c ∷ xs) e in
            let found : Occurs alphabet pattern before (c ∷ m) rest =
              match_at-Occurs alphabet pattern before (c ∷ m) rest (omega (arith, n, some_text))
                (subst (λ t. match_at alphabet pattern before t ≡ true) whole here) in
            (
              [],
              c ∷ cs,
              refl,
              refl,
              rw (sub_from, count_from, here)
                  (subst
                    (λ t.
                      Cuts new before t
                        (new
                          ++ sub_from alphabet pattern new (length pattern.find - 1)
                              (alphabet.is_word c) cs)
                        (suc (
                          count_from alphabet pattern (length pattern.find - 1) (alphabet.is_word c)
                            cs)))
                    (sym whole) (exchanged (c ∷ m) found cuts)),
            )
        | inr miss ↦
            let (m, rest, e, n, cuts) =
              Cuts-after new cs zero (alphabet.is_word c) some_text (omega arith) in
            (
              [],
              c ∷ cs,
              refl,
              refl,
              rw (sub_from, count_from, miss)
                  (kept
                    (λ m' rest' whole found. false≢true (
                      sym miss
                      ∙ ap (match_at alphabet pattern before) whole
                      ∙ Occurs-match_at alphabet pattern before m' rest' found))
                    (Cuts-whole new cs (alphabet.is_word c) m rest e n cuts)),
            )
      ]

  -- Where the text to find is not empty: the new text and the number of matches are those of the pass
  -- from left to right that exchanges and counts each place where the text to find stands, with or
  -- without regard to case, between the edges of words where that is asked for, and keeps each
  -- character at which it does not stand.
  pub sub_from-Cuts :
      (new text : List Char)
      → 1 ≤ length pattern.find
      → Cuts new false text
          (sub_from alphabet pattern new 0 false text)
          (count_from alphabet pattern 0 false text)
  sub_from-Cuts new text some_text =
      let (m, rest, e, n, cuts) = Cuts-after new text 0 false some_text (omega arith) in
      Cuts-whole new text false m rest e n cuts
