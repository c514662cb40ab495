-- ===== src/Diff/Tests.antt =====
-- Two texts that share their first line.
use cross_format_documment.Base.{String, none, some, List, [], ◌∷◌, ◌≡◌, refl, arith}
use cross_format_documment.Base.Result.{ok}
use cross_format_documment.Diff.Segments.{DiffOp, DiffResult, Opcode, diff, items}
use cross_format_documment.Diff.Sides.{
  Tiles, at_ends, equal_first, replace_first, code, a_texts, b_texts, diff_shows_both,
}

abbrev old : List String
old = "a" ∷ "b" ∷ []

abbrev new : List String
new = "a" ∷ "c" ∷ "d" ∷ []

abbrev codes : List Opcode
codes = code DiffOp.equal 0 1 0 1 ∷ code DiffOp.replace 1 2 1 3 ∷ []

they_tile : Tiles old new 0 0 codes
unfolding items
they_tile =
    equal_first 0 1 0 1 (omega arith) (omega arith) (omega arith) (omega arith) refl
      (replace_first 1 2 1 3 (omega arith) (omega arith) (omega arith) (omega arith) at_ends)

diff_shows_both_example :
    (r : DiffResult) × (diff old new codes ≡ ok r)
    × (a_texts r.segments ≡ old)
    × (b_texts r.segments ≡ new)
diff_shows_both_example = diff_shows_both old new codes they_tile

one_pair_and_one_more :
    diff old new codes
    ≡ ok (record {
      segments =
          record { op = DiffOp.equal; a_text = some "a"; b_text = some "a" }
          ∷ record { op = DiffOp.replace; a_text = some "b"; b_text = some "c" }
          ∷ record { op = DiffOp.replace; a_text = none; b_text = some "d" }
          ∷ [];
      added = 0;
      removed = 0;
      changed = 2;
      unchanged = 1;
    })
unfolding diff
one_pair_and_one_more = refl
