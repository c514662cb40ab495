-- ===== src/Diff/Sides.antt =====
-- The segments of a diff show both documents whole.
use cross_format_documment.Base.{
  ℕ, zero, suc, ◌+◌, ◌-◌, ◌≤◌, ◌<◌, max, String, Option, none, some, List, [], ◌∷◌, ◌++◌, map, ltb,
  ◌≡◌, refl, arith, sym, ◌∙◌, ap, Bool-cases, inl, inr,
}
use cross_format_documment.Base.Lists.{get_elem?, length}
use cross_format_documment.Base.Result.{ok}
use cross_format_documment.Diff.Segments.{
  DiffOp, DiffSegment, Opcode, DiffResult, items, both_sides, inserted, deleted, item_before, pairs,
  segments_of, counted, diff,
}

abbrev pub from : ℕ → List String → List String
from zero xs = xs
from (suc k) [] = []
from (suc k) (x ∷ xs) = from k xs

abbrev pub shown : Option String → List String → List String
shown none texts = texts
shown (some x) texts = x ∷ texts

-- The texts that the segments show of the one document, and of the other.
abbrev pub a_texts : List DiffSegment → List String
a_texts [] = []
a_texts (s ∷ segments) = shown s.a_text (a_texts segments)

abbrev pub b_texts : List DiffSegment → List String
b_texts [] = []
b_texts (s ∷ segments) = shown s.b_text (b_texts segments)

abbrev pub code : DiffOp → ℕ → ℕ → ℕ → ℕ → Opcode
code op i i2 j j2 = record { op = op; i1 = i; i2 = i2; j1 = j; j2 = j2 }

-- What `get_opcodes` promises from two positions on: the opcodes follow on each other up to the ends,
-- an equal one pairs texts that are the same, an insertion takes none of the first text and a deletion
-- none of the second.
pub data Tiles (a b : List String) : ℕ → ℕ → List Opcode → Type 0 where
  at_ends : Tiles a b (length a) (length b) []
  equal_first :
      {codes : List Opcode} (i i2 j j2 : ℕ)
      → i ≤ i2
      → i2 ≤ length a
      → j ≤ j2
      → j2 ≤ length b
      → items a i (i2 - i) ≡ items b j (j2 - j)
      → Tiles a b i2 j2 codes
      → Tiles a b i j (code DiffOp.equal i i2 j j2 ∷ codes)
  insert_first :
      {codes : List Opcode} (i j j2 : ℕ)
      → j ≤ j2
      → j2 ≤ length b
      → Tiles a b i j2 codes
      → Tiles a b i j (code DiffOp.insert i i j j2 ∷ codes)
  delete_first :
      {codes : List Opcode} (i i2 j : ℕ)
      → i ≤ i2
      → i2 ≤ length a
      → Tiles a b i2 j codes
      → Tiles a b i j (code DiffOp.delete i i2 j j ∷ codes)
  replace_first :
      {codes : List Opcode} (i i2 j j2 : ℕ)
      → i ≤ i2
      → i2 ≤ length a
      → j ≤ j2
      → j2 ≤ length b
      → Tiles a b i2 j2 codes
      → Tiles a b i j (code DiffOp.replace i i2 j j2 ∷ codes)

from_end : (xs : List String) → from (length xs) xs ≡ []
from_end [] = refl
from_end (x ∷ xs) = from_end xs

from_item :
    (k : ℕ) (xs : List String)
    → k < length xs
    → (x : String) × (get_elem? xs k ≡ some x) × (from k xs ≡ x ∷ from (suc k) xs)
from_item k [] h = absurd (omega (arith, h))
from_item zero (x ∷ xs) h = (x, refl, refl)
from_item (suc k) (x ∷ xs) h = from_item k xs (omega (arith, h))

items_are :
    (xs : List String) (k n : ℕ)
    → k + n ≤ length xs
    → (ys : List String) × (items xs k n ≡ ok ys) × (ys ++ from (k + n) xs ≡ from k xs)
unfolding items
items_are xs k zero h = ([], refl, ap (λ m. from m xs) (omega arith))
items_are xs k (suc n) h =
    let (x, here, split) = from_item k xs (omega (arith, h)) in
    let (ys, found, rest) = items_are xs (suc k) n (omega (arith, h)) in
    (
      x ∷ ys,
      rw (here, found) refl,
      ap (λ m. x ∷ (ys ++ from m xs)) (omega arith) ∙ ap (λ zs. x ∷ zs) rest ∙ sym split,
    )

-- The texts are those from a position up to an end, none where the end is passed.
Shows : List String → ℕ → ℕ → List String → Type 0
Shows xs k end texts = (end ≤ k → texts ≡ []) × (k ≤ end → texts ++ from end xs ≡ from k xs)

Shows-item :
    (xs : List String) (k end : ℕ)
    → end ≤ length xs
    → (x : Option String) × (item_before xs k end ≡ ok x)
      × ((texts : List String) → Shows xs (suc k) end texts → Shows xs k end (shown x texts))
unfolding Shows
Shows-item xs k end h = elim (Bool-cases (ltb k end)) [
  | inl below ↦
      let less : k < end = ground (arith, below) in
      let (x, here, split) = from_item k xs (omega (arith, less, h)) in
      (
        some x,
        rw (below, here) refl,
        λ texts (none_left, rest). (
          λ past. absurd (omega (arith, less, past)),
          λ _. ap (λ zs. x ∷ zs) (rest (omega (arith, less))) ∙ sym split,
        ),
      )
  | inr past ↦
      let more : end ≤ k = ground (arith, past) in
      (
        none,
        rw past refl,
        λ texts (none_left, rest).
            let nothing = none_left (omega (arith, more)) in
            (
              λ _. nothing,
              λ less.
                  ap (λ zs. zs ++ from end xs) nothing
                  ∙ ap (λ m. from m xs) (omega (arith, more, less)),
            ),
      )
]

module _ (a b : List String) (i2 j2 : ℕ) (a_end : i2 ≤ length a) (b_end : j2 ≤ length b) where
  pairs_show :
      (n i j : ℕ)
      → i2 - i ≤ n
      → j2 - j ≤ n
      → (segments : List DiffSegment) × (pairs a b i i2 j j2 n ≡ ok segments)
        × Shows a i i2 (a_texts segments)
        × Shows b j j2 (b_texts segments)
  unfolding pairs Shows
  pairs_show zero i j h k = (
    [],
    refl,
    (λ _. refl, λ l. ap (λ m. from m a) (omega (arith, h, l))),
    (λ _. refl, λ l. ap (λ m. from m b) (omega (arith, k, l))),
  )
  pairs_show (suc n) i j h k =
      let (x, x_here, x_shows) = Shows-item a i i2 a_end in
      let (y, y_here, y_shows) = Shows-item b j j2 b_end in
      let (segments, found, a_side, b_side) =
        pairs_show n (suc i) (suc j) (omega (arith, h)) (omega (arith, k)) in
      (
        record { op = DiffOp.replace; a_text = x; b_text = y } ∷ segments,
        rw (x_here, y_here, found) refl,
        x_shows (a_texts segments) a_side,
        y_shows (b_texts segments) b_side,
      )

shown-append : (x : Option String) (s t : List String) → shown x (s ++ t) ≡ shown x s ++ t
shown-append none s t = refl
shown-append (some x) s t = refl

a_texts-append : (s t : List DiffSegment) → a_texts (s ++ t) ≡ a_texts s ++ a_texts t
a_texts-append [] t = refl
a_texts-append (s ∷ ss) t =
    ap (shown s.a_text) (a_texts-append ss t) ∙ shown-append s.a_text (a_texts ss) (a_texts t)

b_texts-append : (s t : List DiffSegment) → b_texts (s ++ t) ≡ b_texts s ++ b_texts t
b_texts-append [] t = refl
b_texts-append (s ∷ ss) t =
    ap (shown s.b_text) (b_texts-append ss t) ∙ shown-append s.b_text (b_texts ss) (b_texts t)

texts-map :
    (xs : List String)
    → (a_texts (map both_sides xs) ≡ xs)
      × (b_texts (map both_sides xs) ≡ xs)
      × (a_texts (map deleted xs) ≡ xs)
      × (b_texts (map deleted xs) ≡ [])
      × (a_texts (map inserted xs) ≡ [])
      × (b_texts (map inserted xs) ≡ xs)
texts-map [] = (refl, refl, refl, refl, refl, refl)
texts-map (x ∷ xs) =
    let (p, q, r, s, t, u) = texts-map xs in
    (ap (λ z. x ∷ z) p, ap (λ z. x ∷ z) q, ap (λ z. x ∷ z) r, s, t, ap (λ z. x ∷ z) u)

-- `diff` of a list of opcodes, from the segments of the first and the diff of the others.
joins :
    (a b : List String) (c : Opcode) (codes : List Opcode) (segments : List DiffSegment)
    (rest : DiffResult)
    → segments_of a b c ≡ ok segments
    → diff a b codes ≡ ok rest
    → diff a b (c ∷ codes) ≡ ok (counted c segments rest)
unfolding diff
joins a b c codes segments rest h k = rw (h, k) refl

counted-segments :
    (c : Opcode) (segments : List DiffSegment) (r : DiffResult)
    → (counted c segments r).segments ≡ segments ++ r.segments
unfolding counted
counted-segments c segments r = ground arith

span :
    (xs : List String) (i end : ℕ)
    → i ≤ end
    → end ≤ length xs
    → (ys : List String) × (items xs i (end - i) ≡ ok ys) × (ys ++ from end xs ≡ from i xs)
span xs i end h k =
    let (ys, found, rest) = items_are xs i (end - i) (omega (arith, h, k)) in
    (ys, found, ap (λ m. ys ++ from m xs) (omega (arith, h)) ∙ rest)

-- What a diff of the opcodes from two positions on has to be.
ShowsBoth : List String → List String → ℕ → ℕ → List Opcode → Type 0
ShowsBoth a b i j codes =
    (r : DiffResult) × (diff a b codes ≡ ok r)
    × (a_texts r.segments ≡ from i a)
    × (b_texts r.segments ≡ from j b)

one_more :
    (a b : List String) (c : Opcode) (codes : List Opcode) (i i2 j j2 : ℕ)
    (segments : List DiffSegment)
    → segments_of a b c ≡ ok segments
    → a_texts segments ++ from i2 a ≡ from i a
    → b_texts segments ++ from j2 b ≡ from j b
    → ShowsBoth a b i2 j2 codes
    → ShowsBoth a b i j (c ∷ codes)
unfolding ShowsBoth
one_more a b c codes i i2 j j2 segments h p q (r, found, a_rest, b_rest) =
    let both = counted-segments c segments r in
    (
      counted c segments r,
      joins a b c codes segments r h found,
      ap a_texts both
          ∙ a_texts-append segments r.segments
          ∙ ap (λ z. a_texts segments ++ z) a_rest
          ∙ p,
      ap b_texts both
          ∙ b_texts-append segments r.segments
          ∙ ap (λ z. b_texts segments ++ z) b_rest
          ∙ q,
    )

Tiles-show :
    (a b : List String) (i j : ℕ) (codes : List Opcode)
    → Tiles a b i j codes
    → ShowsBoth a b i j codes
unfolding ShowsBoth diff segments_of Shows
Tiles-show a b _ _ _ at_ends = (
  record { segments = []; added = 0; removed = 0; changed = 0; unchanged = 0 },
  refl,
  sym (from_end a),
  sym (from_end b),
)
Tiles-show a b _ _ _ (equal_first {codes = more} i i2 j j2 h k l m same rest) =
    let (xs, x_found, x_split) = span a i i2 h k in
    let (ys, y_found, y_split) = span b j j2 l m in
    let agree : ys ≡ xs = cc in
    let (p, q, _, _, _, _) = texts-map xs in
    one_more a b (code DiffOp.equal i i2 j j2) more i i2 j j2 (map both_sides xs) (rw x_found refl)
      (ap (λ z. z ++ from i2 a) p ∙ x_split) (ap (λ z. z ++ from j2 b) (q ∙ sym agree) ∙ y_split)
      (Tiles-show a b i2 j2 more rest)
Tiles-show a b _ _ _ (insert_first {codes = more} i j j2 l m rest) =
    let (ys, y_found, y_split) = span b j j2 l m in
    let (_, _, _, _, p, q) = texts-map ys in
    one_more a b (code DiffOp.insert i i j j2) more i i j j2 (map inserted ys) (rw y_found refl)
      (ap (λ z. z ++ from i a) p) (ap (λ z. z ++ from j2 b) q ∙ y_split)
      (Tiles-show a b i j2 more rest)
Tiles-show a b _ _ _ (delete_first {codes = more} i i2 j h k rest) =
    let (xs, x_found, x_split) = span a i i2 h k in
    let (_, _, p, q, _, _) = texts-map xs in
    one_more a b (code DiffOp.delete i i2 j j) more i i2 j j (map deleted xs) (rw x_found refl)
      (ap (λ z. z ++ from i2 a) p ∙ x_split) (ap (λ z. z ++ from j b) q)
      (Tiles-show a b i2 j more rest)
Tiles-show a b _ _ _ (replace_first {codes = more} i i2 j j2 h k l m rest) =
    let (segments, found, (_, a_side), (_, b_side)) =
      pairs_show a b i2 j2 k m (max (i2 - i) (j2 - j)) i j (omega arith) (omega arith) in
    one_more a b (code DiffOp.replace i i2 j j2) more i i2 j j2 segments found (a_side h) (b_side l)
      (Tiles-show a b i2 j2 more rest)

-- Where the opcodes are as the matcher promises, the diff is made, and its segments show the one
-- document's texts, in order and none left out, on the one side, and the other's on the other.
pub diff_shows_both :
    (a b : List String) (codes : List Opcode)
    → Tiles a b 0 0 codes
    → (r : DiffResult) × (diff a b codes ≡ ok r)
      × (a_texts r.segments ≡ a)
      × (b_texts r.segments ≡ b)
unfolding ShowsBoth
diff_shows_both a b codes t = Tiles-show a b 0 0 codes t
