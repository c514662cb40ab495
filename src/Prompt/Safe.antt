-- ===== src/Prompt/Safe.antt =====
-- What a language model can cause, whatever it replies.
use cross_format_documment.Base.{
  String, ◌==◌, Option, none, some, Bool, true, false, ◌&&◌, List, [], ◌∷◌, ◌++◌, ◌≡◌, refl, arith,
  Option-cases, Bool-cases, inl, inr,
}
use cross_format_documment.Base.Lists.{contains, all_of}
use cross_format_documment.Base.Maps.{Map, has}
use cross_format_documment.Model.{Value, Node, NodeType, CanonicalDocument, is_a}
use cross_format_documment.Patch.Op.{Patch}
use cross_format_documment.Prompt.Coerce.{
  RawOp, ToolCall, format_fields, formats_of, format_op, prepend, targeted, on_target, coerce_named,
  coerce_op, coerce_all, ops_from_tool_calls,
}

-- The operations that a model may cause: an allowed kind, on a node that is there; a cell where a
-- cell is set, and only formatting fields where fields are set.
abbrev pub on_known : CanonicalDocument → String → Bool
on_known doc t = has doc.nodes t

abbrev pub is_cell : CanonicalDocument → String → Bool
is_cell doc t = elim (doc.nodes t) [ none ↦ false | some n ↦ is_a NodeType.table_cell n ]

abbrev pub are_formats : List (String × Value) → Bool
are_formats fields = all_of (λ f. contains f.0 format_fields) fields

abbrev pub is_safe : {D : Type 0} → CanonicalDocument → Patch D → Bool
is_safe doc (Patch.set_text (some t) v) = on_known doc t
is_safe doc (Patch.update_node (some t) fields) = on_known doc t && are_formats fields
is_safe doc (Patch.retag (some t) tags) = on_known doc t
is_safe doc (Patch.redact (some t)) = on_known doc t
is_safe doc (Patch.remove_node (some t)) = on_known doc t
is_safe doc (Patch.sanitize_metadata keys) = true
is_safe doc (Patch.set_table_cell (some t) payload) = is_cell doc t
is_safe doc _ = false

abbrev is_safe_or_none : {D : Type 0} → CanonicalDocument → Option (Patch D) → Bool
is_safe_or_none doc none = true
is_safe_or_none doc (some p) = is_safe doc p

and_left : (a b : Bool) → a && b ≡ true → a ≡ true
and_left true b h = refl
and_left false b h = h

and_right : (a b : Bool) → a && b ≡ true → b ≡ true
and_right true b h = h
and_right false b h = cc

formats_of-are_formats :
    (raw : Map Value) (fields : List String)
    → all_of (λ f. contains f format_fields) fields ≡ true
    → are_formats (formats_of raw fields) ≡ true
unfolding formats_of
formats_of-are_formats raw [] h = refl
formats_of-are_formats raw (f ∷ fields) h =
    let rest : are_formats (formats_of raw fields) ≡ true =
      formats_of-are_formats raw fields (and_right _ _ h) in
    let here : contains f format_fields ≡ true = and_left _ _ h in
    elim (Option-cases (raw f)) [
      | inl e ↦ rw (formats_of, e) rest
      | inr (v, e) ↦ rw (formats_of, e, here) rest
    ]

module _ (D : Type 0) (doc : CanonicalDocument) (as_text : Value → String) where
  format_op_is_safe :
      (t : String) (node : Node) (fields : List (String × Value))
      → doc.nodes t ≡ some node
      → are_formats fields ≡ true
      → is_safe_or_none doc (format_op {D = D} t fields) ≡ true
  format_op_is_safe t node [] k h = refl
  format_op_is_safe t node (f ∷ fields) k h = ground (arith, k, h)

  targeted_is_safe :
      (op t : String) (node : Node) (raw : RawOp)
      → doc.nodes t ≡ some node
      → is_safe_or_none doc (targeted {D = D} doc as_text op t node raw) ≡ true
  unfolding targeted
  targeted_is_safe op t node raw k =
      let formats =
        format_op_is_safe t node (formats_of raw.formats format_fields) k
          (formats_of-are_formats raw.formats format_fields refl) in
      ground (arith, k, formats)

  on_target_is_safe :
      (op : String) (t : Option String) (raw : RawOp)
      → is_safe_or_none doc (on_target {D = D} doc as_text op t raw) ≡ true
  unfolding on_target
  on_target_is_safe op none raw = refl
  on_target_is_safe op (some t) raw = elim (Option-cases (doc.nodes t)) [
    | inl e ↦ rw (on_target, e) refl
    | inr (node, e) ↦ ground (arith, e, targeted_is_safe op t node raw e)
  ]

  coerce_named_is_safe :
      (op : String) (raw : RawOp)
      → is_safe_or_none doc (coerce_named {D = D} doc as_text op raw) ≡ true
  unfolding coerce_named
  coerce_named_is_safe op raw = ground (arith, on_target_is_safe op raw.target_id raw)

  coerce_op_is_safe : (raw : RawOp) → is_safe_or_none doc (coerce_op {D = D} doc as_text raw) ≡ true
  unfolding coerce_op
  coerce_op_is_safe raw = elim (Option-cases raw.op) [
    | inl e ↦ rw (coerce_op, e) refl
    | inr (op, e) ↦ ground (arith, e, coerce_named_is_safe op raw)
  ]

  prepend-is_safe :
      (o : Option (Patch D)) (rest : List (Patch D))
      → is_safe_or_none doc o ≡ true
      → all_of (is_safe doc) rest ≡ true
      → all_of (is_safe doc) (prepend o rest) ≡ true
  prepend-is_safe none rest h k = k
  prepend-is_safe (some p) rest h k = rw (h, k) refl

  append_is_safe :
      (ops rest : List (Patch D))
      → all_of (is_safe doc) ops ≡ true
      → all_of (is_safe doc) rest ≡ true
      → all_of (is_safe doc) (ops ++ rest) ≡ true
  append_is_safe [] rest h k = k
  append_is_safe (p ∷ ops) rest h k =
      rw
        (
          and_left (is_safe doc p) (all_of (is_safe doc) ops) h,
          append_is_safe ops rest (and_right (is_safe doc p) (all_of (is_safe doc) ops) h) k,
        )
        refl

  coerce_all-is_safe :
      (ops : List RawOp) → all_of (is_safe doc) (coerce_all {D = D} doc as_text ops) ≡ true
  unfolding coerce_all
  coerce_all-is_safe [] = refl
  coerce_all-is_safe (raw ∷ ops) =
      prepend-is_safe (coerce_op doc as_text raw) (coerce_all doc as_text ops)
        (coerce_op_is_safe raw) (coerce_all-is_safe ops)

  -- Whatever a model replies, every operation that is read from it is safe: of an allowed kind, on a
  -- node of the document, cells where cells are set, and formatting fields only.
  pub tool_calls_are_safe :
      (calls : List ToolCall)
      → all_of (is_safe doc) (ops_from_tool_calls {D = D} doc as_text calls) ≡ true
  unfolding ops_from_tool_calls
  tool_calls_are_safe [] = refl
  tool_calls_are_safe (call ∷ calls) =
      let rest = tool_calls_are_safe calls in
      let both =
        append_is_safe (coerce_all doc as_text call.ops) (ops_from_tool_calls doc as_text calls)
          (coerce_all-is_safe call.ops) rest in
      elim (Option-cases call.name) [
        | inl e ↦ rw (ops_from_tool_calls, e) rest
        | inr (name, e) ↦ elim (Bool-cases (name == "emit_patch")) [
          | inl t ↦ rw (ops_from_tool_calls, e, t) both
          | inr f ↦ rw (ops_from_tool_calls, e, f) rest
        ]
      ]
