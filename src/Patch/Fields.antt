-- ===== src/Patch/Fields.antt =====
-- The branches of `_apply_one` that set fields of one node, marks or metadata.
use cross_format_documment.Base.{
  ℕ, String, Option, none, some, Bool, true, false, List, [], ◌∷◌, ◌++◌, if◌then◌else◌,
}
use cross_format_documment.Base.Lists.{contains, remove}
use cross_format_documment.Base.Maps.{Map, del, put_all}
use cross_format_documment.Base.Result.{Result, ok, err, key_error, value_error, ◌>>=◌}
use cross_format_documment.Model.{
  Value, null, flag, str, truthy, Node, NodeType, is_a, CanonicalDocument, attr,
}
use cross_format_documment.Patch.Op.{Patch, AttrsPayload}
use cross_format_documment.Patch.Graph.{node_at, write, set_attr, given}

-- What `_apply_one` leaves: the document, the inverse that it returns, and the number of fresh ids
-- drawn so far.
pub record Step (D : Type 0) : Type 0 where
  pub doc : CanonicalDocument
  pub inverse : Patch D
  pub drawn : ℕ

-- `_UPDATABLE_NODE_FIELDS`
abbrev pub updatable_node_fields : List String
updatable_node_fields =
    "text" ∷ "bold" ∷ "italic" ∷ "underline" ∷ "font" ∷ "size" ∷ "color" ∷ "link_href" ∷ "level"
    ∷ "style" ∷ "alignment" ∷ "alt_text" ∷ "ordered" ∷ "value" ∷ "header" ∷ "note" ∷ "resolved"
    ∷ "reading_order" ∷ "page_number" ∷ "width" ∷ "height" ∷ "rotation" ∷ "field_name"
    ∷ "field_kind" ∷ "required" ∷ "placeholder" ∷ "help_text" ∷ "options" ∷ "validation_pattern"
    ∷ "default_value" ∷ []

-- `{k: v for k, v in payload.items() if k in allowed}`
unfoldable pub allowed_items : List String → List (String × Value) → List (String × Value)
allowed_items allowed [] = []
allowed_items allowed ((k, v) ∷ items) =
    let rest = allowed_items allowed items in if contains k allowed then (k, v) ∷ rest else rest

-- `{k: getattr(node, k, None) for k in fields}`
unfoldable pub values_before : Node → List (String × Value) → List (String × Value)
values_before n [] = []
values_before n ((k, v) ∷ items) = (k, attr n k null) ∷ values_before n items

-- `setattr` for each item, by names that are entries of `fields`: those of the graph, which the
-- record has as fields of its own, are not among the updatable ones
abbrev pub set_attrs : Node → List (String × Value) → Node
set_attrs n items = record n { fields = put_all n.fields items }

-- `RISKY_META_KEYS` of services/provenance/health.py
abbrev pub risky_meta_keys : List String
risky_meta_keys = "last_modified_by" ∷ "author" ∷ "comments" ∷ "revision" ∷ []

-- `{k: custom[k] for k in keys if custom.get(k)}`
unfoldable pub leaking : Map Value → List String → List (String × Value)
unfolding truthy
leaking custom [] = []
leaking custom (k ∷ ks) =
    let rest = leaking custom ks in
    elim (custom k) [ none ↦ rest | some v ↦ if truthy v then (k, v) ∷ rest else rest ]

-- `custom.pop(k, None)` for each key
unfoldable pub pop_keys : Map Value → List (String × Value) → Map Value
pop_keys custom [] = custom
pop_keys custom ((k, v) ∷ items) = pop_keys (del custom k) items

abbrev pub keys_of : List (String × Value) → List String
keys_of [] = []
keys_of ((k, v) ∷ items) = k ∷ keys_of items

abbrev pub with_marks : CanonicalDocument → List String → CanonicalDocument
with_marks doc ids = record doc { redaction = record (doc.redaction) { redacted_node_ids = ids } }

abbrev pub with_custom : CanonicalDocument → Map Value → Bool → CanonicalDocument
with_custom doc custom sanitized = record doc {
  meta = record (doc.meta) { custom = custom };
  redaction = record (doc.redaction) { metadata_sanitized = sanitized };
}

-- `raise ValueError` unless the node has the type.
abbrev pub require_type : NodeType → Node → Result Node
require_type t n = if is_a t n then ok n else err value_error

-- `dict` fields of a replaced image or page: the named ones that the payload has and the code
-- allows, `bbox` and `attrs`.
unfoldable pub set_payload : List String → Node → AttrsPayload → Node
unfolding allowed_items
set_payload allowed n p = record n {
  fields = put_all n.fields (allowed_items allowed p.fields);
  bbox = elim p.bbox [ none ↦ n.bbox | some b ↦ b ];
  attrs = elim p.attrs [ none ↦ n.attrs | some a ↦ a ];
}

unfoldable pub payload_before : List String → Node → AttrsPayload → AttrsPayload
unfolding allowed_items values_before
payload_before allowed n p = record {
  fields = values_before n (allowed_items allowed p.fields);
  bbox = elim p.bbox [ none ↦ none | some b ↦ some n.bbox ];
  attrs = elim p.attrs [ none ↦ none | some a ↦ some n.attrs ];
}

abbrev pub image_keys : List String
image_keys = "blob_ref" ∷ "mime" ∷ "alt_text" ∷ []

abbrev pub page_keys : List String
page_keys = "page_number" ∷ "width" ∷ "height" ∷ "rotation" ∷ []

-- `a or b` on two payload entries
abbrev pub first_true : Option Value → Option Value → Value
first_true a b =
    let second : Value = elim b [ none ↦ null | some w ↦ w ] in
    elim a [ none ↦ second | some v ↦ if truthy v then v else second ]

module _ {D : Type 0} (drawn : ℕ) (doc : CanonicalDocument) where
  abbrev done : CanonicalDocument → Patch D → Result (Step D)
  done doc' inverse = ok (record { doc = doc'; inverse = inverse; drawn = drawn })

  unfoldable pub set_text : Option String → Value → Result (Step D)
  set_text none text = err key_error
  set_text (some tid) text = do
    node ← node_at doc (some tid)
    done (write doc tid (set_attr node "text" text))
        (Patch.set_text (some tid) (attr node "text" (str "")))

  unfoldable pub update_node : Option String → List (String × Value) → Result (Step D)
  unfolding allowed_items values_before
  update_node none payload = err key_error
  update_node (some tid) payload = do
    node ← node_at doc (some tid)
    let fields = allowed_items updatable_node_fields payload
    done (write doc tid (set_attrs node fields))
        (Patch.update_node (some tid) (values_before node fields))

  unfoldable pub retag : Option String → List String → Result (Step D)
  retag none tags = err key_error
  retag (some tid) tags = do
    node ← node_at doc (some tid)
    done (write doc tid (record node { tags = tags })) (Patch.retag (some tid) node.tags)

  unfoldable pub redact : Option String → Result (Step D)
  redact target =
      let marks = doc.redaction.redacted_node_ids in
      elim (given target) [
        | none ↦ done doc (Patch.unredact target)
        | some tid ↦
            if contains tid marks
            then done doc (Patch.unredact target)
            else done (with_marks doc (marks ++ tid ∷ [])) (Patch.unredact target)
      ]

  unfoldable pub unredact : Option String → Result (Step D)
  unredact target =
      let marks = doc.redaction.redacted_node_ids in
      elim (given target) [
        | none ↦ done doc (Patch.redact target)
        | some tid ↦
            if contains tid marks
            then done (with_marks doc (remove tid marks)) (Patch.redact target)
            else done doc (Patch.redact target)
      ]

  unfoldable pub sanitize_metadata : Result (Step D)
  unfolding leaking pop_keys
  sanitize_metadata =
      let before = leaking doc.meta.custom risky_meta_keys in
      done (with_custom doc (pop_keys doc.meta.custom before) true)
        (Patch.restore_metadata before doc.redaction.metadata_sanitized)

  unfoldable pub restore_metadata : List (String × Value) → Bool → Result (Step D)
  restore_metadata custom was_sanitized =
      done (with_custom doc (put_all doc.meta.custom custom) was_sanitized)
        (Patch.sanitize_metadata (keys_of custom))

  -- `replace_image` and `set_image_attrs`: the inverse has the operation's own name.
  unfoldable pub set_image :
      (Option String → AttrsPayload → Patch D) → Option String → AttrsPayload → Result (Step D)
  unfolding set_payload payload_before
  set_image op none payload = err key_error
  set_image op (some tid) payload = do
    node ← node_at doc (some tid)
    image ← require_type NodeType.image node
    done (write doc tid (set_payload image_keys image payload))
        (op (some image.id) (payload_before image_keys image payload))

  unfoldable pub set_page_attrs : Option String → AttrsPayload → Result (Step D)
  unfolding set_payload payload_before
  set_page_attrs none payload = err key_error
  set_page_attrs (some tid) payload = do
    node ← node_at doc (some tid)
    page ← require_type NodeType.page node
    done (write doc tid (set_payload page_keys page payload))
        (Patch.set_page_attrs (some page.id) (payload_before page_keys page payload))

  unfoldable pub insert_link : Option String → Option Value → Option Value → Result (Step D)
  unfolding truthy
  insert_link none href link_href = err key_error
  insert_link (some tid) href link_href = do
    node ← node_at doc (some tid)
    run ← require_type NodeType.run node
    done (write doc tid (set_attr run "link_href" (first_true href link_href)))
        (Patch.insert_link (some run.id) none (some (attr run "link_href" null)))

  unfoldable pub set_list_attrs : Option String → Option Bool → Result (Step D)
  set_list_attrs none ordered = err key_error
  set_list_attrs (some tid) ordered = do
    node ← node_at doc (some tid)
    list ← require_type NodeType.list node
    let before =
        Patch.set_list_attrs (some list.id) (some (truthy (attr list "ordered" (flag false))))
    elim ordered [
      | none ↦ done doc before
      | some b ↦ done (write doc tid (set_attr list "ordered" (flag b))) before
    ]
