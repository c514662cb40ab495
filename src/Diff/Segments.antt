-- ===== src/Diff/Segments.antt =====
-- `diff_documents` of services/provenance/diff.py (backend/src/docos), from the opcodes of the matcher
-- on.
use cross_format_documment.Base.{
  ℕ, zero, suc, ◌+◌, ◌-◌, max, String, Option, none, some, List, [], ◌∷◌, ◌++◌, map, ltb,
  if◌then◌else◌,
}
use cross_format_documment.Base.Lists.{get_elem?}
use cross_format_documment.Model.{CanonicalDocument}
use cross_format_documment.Diff.Blocks.{block_texts}
use cross_format_documment.Base.Result.{Result, ok, index_error, or_raise, ◌>>=◌}

pub data DiffOp : Type 0 where
  equal insert delete replace : DiffOp

pub record DiffSegment : Type 0 where
  pub op : DiffOp
  pub a_text : Option String
  pub b_text : Option String

-- What `get_opcodes` returns, one after the other: a[i1:i2] against b[j1:j2].
pub record Opcode : Type 0 where
  pub op : DiffOp
  pub i1 : ℕ
  pub i2 : ℕ
  pub j1 : ℕ
  pub j2 : ℕ

pub record DiffResult : Type 0 where
  pub segments : List DiffSegment
  pub added : ℕ
  pub removed : ℕ
  pub changed : ℕ
  pub unchanged : ℕ

-- `xs[k]` for as many `k` from a start on
unfoldable pub items : List String → ℕ → ℕ → Result (List String)
items xs k zero = ok []
items xs k (suc n) = do
  x ← or_raise (get_elem? xs k) index_error
  rest ← items xs (suc k) n
  ok (x ∷ rest)

abbrev pub both_sides : String → DiffSegment
both_sides x = record { op = DiffOp.equal; a_text = some x; b_text = some x }

abbrev pub inserted : String → DiffSegment
inserted x = record { op = DiffOp.insert; a_text = none; b_text = some x }

abbrev pub deleted : String → DiffSegment
deleted x = record { op = DiffOp.delete; a_text = some x; b_text = none }

-- `xs[k] if k < end else None`
abbrev pub item_before : List String → ℕ → ℕ → Result (Option String)
item_before xs k end =
    if ltb k end then (do x ← or_raise (get_elem? xs k) index_error; ok (some x)) else ok none

-- The pairs of a replaced span.
unfoldable pub pairs : List String → List String → ℕ → ℕ → ℕ → ℕ → ℕ → Result (List DiffSegment)
pairs a b i i2 j j2 zero = ok []
pairs a b i i2 j j2 (suc n) = do
  x ← item_before a i i2
  y ← item_before b j j2
  rest ← pairs a b (suc i) i2 (suc j) j2 n
  ok (record { op = DiffOp.replace; a_text = x; b_text = y } ∷ rest)

unfoldable pub segments_of : List String → List String → Opcode → Result (List DiffSegment)
unfolding items pairs
segments_of a b c = elim c.op [
  | DiffOp.equal ↦ do xs ← items a c.i1 (c.i2 - c.i1); ok (map both_sides xs)
  | DiffOp.insert ↦ do xs ← items b c.j1 (c.j2 - c.j1); ok (map inserted xs)
  | DiffOp.delete ↦ do xs ← items a c.i1 (c.i2 - c.i1); ok (map deleted xs)
  | DiffOp.replace ↦ pairs a b c.i1 c.i2 c.j1 c.j2 (max (c.i2 - c.i1) (c.j2 - c.j1))
]

-- The loop's additions for one opcode.
unfoldable pub counted : Opcode → List DiffSegment → DiffResult → DiffResult
counted c segments r =
    let with_counts : ℕ → ℕ → ℕ → ℕ → DiffResult = λ n d g u. record {
      segments = segments ++ r.segments;
      added = n + r.added;
      removed = d + r.removed;
      changed = g + r.changed;
      unchanged = u + r.unchanged;
    } in
    elim c.op [
      | DiffOp.equal ↦ with_counts 0 0 0 (c.i2 - c.i1)
      | DiffOp.insert ↦ with_counts (c.j2 - c.j1) 0 0 0
      | DiffOp.delete ↦ with_counts 0 (c.i2 - c.i1) 0 0
      | DiffOp.replace ↦ with_counts 0 0 (max (c.i2 - c.i1) (c.j2 - c.j1)) 0
    ]

unfoldable pub diff : List String → List String → List Opcode → Result DiffResult
unfolding segments_of counted
diff a b [] = ok (record { segments = []; added = 0; removed = 0; changed = 0; unchanged = 0 })
diff a b (c ∷ codes) = do
  segments ← segments_of a b c
  rest ← diff a b codes
  ok (counted c segments rest)

-- `get_opcodes` stands for those of `SequenceMatcher(a=a, b=b, autojunk=False)`.
unfoldable pub diff_documents :
    ℕ
    → (List String → List String → List Opcode)
    → CanonicalDocument
    → CanonicalDocument
    → Result DiffResult
unfolding block_texts diff
diff_documents rounds get_opcodes base other = do
  a ← block_texts rounds base
  b ← block_texts rounds other
  diff a b (get_opcodes a b)
