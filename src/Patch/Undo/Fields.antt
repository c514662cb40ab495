-- ===== src/Patch/Undo/Fields.antt =====
-- The operations that set fields of one node, marks or metadata are undone.
use cross_format_documment.Base.{
  ℕ, String, ◌==◌, eq_refl, Option, none, some, Bool, true, false, List, [], ◌∷◌, ◌++◌, ◌≡◌, refl,
  ◌∙◌, ap, Bool-cases, inl, inr,
}
use cross_format_documment.Base.Lists.{contains, remove, remove-append_self, contains-append_self}
use cross_format_documment.Base.Maps.{Map, put-put, put_self, put_all, get_or}
use cross_format_documment.Base.Result.{ok}
use cross_format_documment.Model.{Value, flag, truthy, Node, NodeType, CanonicalDocument, attr}
use cross_format_documment.Patch.Op.{Env, Patch, AttrsPayload}
use cross_format_documment.Patch.Graph.{write, with_nodes, set_attr, given}
use cross_format_documment.Patch.Fields
use cross_format_documment.Patch.Fields.{
  Step, first_true, set_attrs, allowed_items, values_before, updatable_node_fields, with_custom,
  leaking, pop_keys, risky_meta_keys, keys_of, with_marks, set_payload, payload_before, image_keys,
  page_keys,
}
use cross_format_documment.Patch.Execute.{apply_one}
use cross_format_documment.Patch.Restore.{
  write_back, Present, put_all-values_before, put_all-pop_keys, allowed_items_again,
}
use cross_format_documment.Patch.Undo.Meaning.{Undoes, Undoes-by}

-- What a payload leaves out stays, and what it sets is set back.
or_kept {ℓ} :
    {A : Type ℓ} (o : Option A) (old : A)
    → (elim (elim o as (λ _. Option A) [ none ↦ none | some b ↦ some old ]) as (λ _. A) [
      | none ↦ elim o [ none ↦ old | some b ↦ b ]
      | some b ↦ b
    ])
      ≡ old
or_kept none old = refl
or_kept (some b) old = refl

module _ {D : Type 0} (env : Env D) (k : ℕ) (doc : CanonicalDocument) where
  -- An attribute that the node has, set and set back.
  set_back :
      (n : Node) (name : String) (v v0 : Value)
      → n.fields name ≡ some v0
      → set_attr (set_attr n name v) name v0 ≡ n
  set_back n name v v0 h =
      ap (λ (f : Map Value). record n { fields = f })
        (put-put n.fields name v v0 ∙ put_self n.fields name v0 h)

  -- An operation that writes one node, and an inverse that writes it back.
  Undoes-write :
      (op inverse op' : Patch D) (t : String) (n changed restored : Node)
      → doc.nodes t ≡ some n
      → apply_one env k doc op
        ≡ ok (record { doc = write doc t changed; inverse = inverse; drawn = k })
      → ((k' : ℕ)
          → apply_one env k' (write doc t changed) inverse
            ≡ ok (record {
              doc = write (write doc t changed) t restored;
              inverse = op';
              drawn = k';
            }))
      → restored ≡ n
      → Undoes env k doc op
  Undoes-write op inverse op' t n changed restored h e back same =
      Undoes-by env k doc op (record { doc = write doc t changed; inverse = inverse; drawn = k }) e
        λ k'. (
          record { doc = write (write doc t changed) t restored; inverse = op'; drawn = k' },
          back k',
          write_back doc t n changed restored h same,
        )

  pub set_text-Undoes :
      (t : String) (v : Value) (n : Node) (v0 : Value)
      → doc.nodes t ≡ some n
      → n.fields "text" ≡ some v0
      → Undoes env k doc (Patch.set_text (some t) v)
  unfolding apply_one Fields.set_text
  set_text-Undoes t v n v0 h text =
      Undoes-write (Patch.set_text (some t) v) (Patch.set_text (some t) v0)
        (Patch.set_text (some t) v) t n (set_attr n "text" v)
        (set_attr (set_attr n "text" v) "text" v0) h (rw (h, attr, get_or, text)) (λ k'. rw eq_refl)
        (set_back n "text" v v0 text)

  pub update_node-Undoes :
      (t : String) (payload : List (String × Value)) (n : Node)
      → doc.nodes t ≡ some n
      → Present n.fields (allowed_items updatable_node_fields payload)
      → Undoes env k doc (Patch.update_node (some t) payload)
  unfolding apply_one Fields.update_node
  update_node-Undoes t payload n h present =
      let fields = allowed_items updatable_node_fields payload in
      let before = values_before n fields in
      Undoes-write (Patch.update_node (some t) payload) (Patch.update_node (some t) before)
        (Patch.update_node (some t) (values_before (set_attrs n fields) before)) t n
        (set_attrs n fields) (set_attrs (set_attrs n fields) before) h (rw h)
        (λ k'. rw eq_refl (rw allowed_items_again))
        (ap (λ (f : Map Value). record n { fields = f }) (put_all-values_before n fields present))

  pub retag-Undoes :
      (t : String) (tags : List String) (n : Node)
      → doc.nodes t ≡ some n
      → Undoes env k doc (Patch.retag (some t) tags)
  unfolding apply_one Fields.retag
  retag-Undoes t tags n h =
      Undoes-write (Patch.retag (some t) tags) (Patch.retag (some t) n.tags)
        (Patch.retag (some t) tags) t n (record n { tags = tags }) n h (rw h) (λ k'. rw eq_refl)
        refl

  -- A mark on a node that had none is taken off again.
  pub redact-Undoes :
      (t : String)
      → contains t doc.redaction.redacted_node_ids ≡ false
      → Undoes env k doc (Patch.redact (some t))
  unfolding apply_one Fields.redact Fields.unredact
  redact-Undoes t new =
      let marks = doc.redaction.redacted_node_ids in
      elim (Bool-cases (t == "")) [
        | inl no_id ↦
            Undoes-by env k doc (Patch.redact (some t))
              (record { doc = doc; inverse = Patch.unredact (some t); drawn = k })
              (rw (no_id, given, Fields.redact, apply_one))
              λ k'. (
                record { doc = doc; inverse = Patch.redact (some t); drawn = k' },
                rw (no_id, given, Fields.unredact, apply_one),
                refl,
              )
        | inr id ↦
            let marked = with_marks doc (marks ++ t ∷ []) in
            Undoes-by env k doc (Patch.redact (some t))
              (record { doc = marked; inverse = Patch.unredact (some t); drawn = k })
              (rw (id, given, Fields.redact, apply_one) (rw new))
              λ k'. (
                record {
                  doc = with_marks marked (remove t (marks ++ t ∷ []));
                  inverse = Patch.redact (some t);
                  drawn = k';
                },
                rw (id, given, Fields.unredact, apply_one) (rw contains-append_self),
                ap (with_marks doc) (remove-append_self t marks new),
              )
      ]

  pub sanitize_metadata-Undoes :
      (keys : List String) → Undoes env k doc (Patch.sanitize_metadata keys)
  unfolding apply_one Fields.sanitize_metadata Fields.restore_metadata
  sanitize_metadata-Undoes keys =
      let before = leaking doc.meta.custom risky_meta_keys in
      let cleaned = with_custom doc (pop_keys doc.meta.custom before) true in
      Undoes-by env k doc (Patch.sanitize_metadata keys)
        (record {
          doc = cleaned;
          inverse = Patch.restore_metadata before doc.redaction.metadata_sanitized;
          drawn = k;
        })
        refl
        λ k'. (
          record {
            doc =
                with_custom cleaned (put_all cleaned.meta.custom before)
                  doc.redaction.metadata_sanitized;
            inverse = Patch.sanitize_metadata (keys_of before);
            drawn = k';
          },
          refl,
          ap (λ (c : Map Value). with_custom doc c doc.redaction.metadata_sanitized)
              (put_all-pop_keys doc.meta.custom risky_meta_keys),
        )

  -- The fields of an image or a page, set and set back.
  set_payload_back :
      (allowed : List String) (n : Node) (p : AttrsPayload)
      → Present n.fields (allowed_items allowed p.fields)
      → set_payload allowed (set_payload allowed n p) (payload_before allowed n p) ≡ n
  unfolding set_payload payload_before
  set_payload_back allowed n p present = rw allowed_items_again λ i. record n {
    fields = put_all-values_before n (allowed_items allowed p.fields) present i;
    bbox = or_kept p.bbox n.bbox i;
    attrs = or_kept p.attrs n.attrs i;
  }

  pub set_image-Undoes :
      (t : String) (p : AttrsPayload) (n : Node)
      → doc.nodes t ≡ some n
      → n.id ≡ t
      → n.type ≡ NodeType.image
      → Present n.fields (allowed_items image_keys p.fields)
      → Undoes env k doc (Patch.set_image_attrs (some t) p)
        × Undoes env k doc (Patch.replace_image (some t) p)
  unfolding apply_one Fields.set_image
  set_image-Undoes t p n h own image present =
      let changed = set_payload image_keys n p in
      let before = payload_before image_keys n p in
      let restored = set_payload image_keys changed before in
      let after = payload_before image_keys changed before in
      (
        Undoes-write (Patch.set_image_attrs (some t) p) (Patch.set_image_attrs (some t) before)
            (Patch.set_image_attrs (some t) after) t n changed restored h (rw h (rw image (rw own)))
            (λ k'. rw eq_refl (unfold set_payload in rw image (rw own)))
            (set_payload_back image_keys n p present),
        Undoes-write (Patch.replace_image (some t) p) (Patch.replace_image (some t) before)
            (Patch.replace_image (some t) after) t n changed restored h (rw h (rw image (rw own)))
            (λ k'. rw eq_refl (unfold set_payload in rw image (rw own)))
            (set_payload_back image_keys n p present),
      )

  pub set_page_attrs-Undoes :
      (t : String) (p : AttrsPayload) (n : Node)
      → doc.nodes t ≡ some n
      → n.id ≡ t
      → n.type ≡ NodeType.page
      → Present n.fields (allowed_items page_keys p.fields)
      → Undoes env k doc (Patch.set_page_attrs (some t) p)
  unfolding apply_one Fields.set_page_attrs
  set_page_attrs-Undoes t p n h own page present =
      let changed = set_payload page_keys n p in
      let before = payload_before page_keys n p in
      Undoes-write (Patch.set_page_attrs (some t) p) (Patch.set_page_attrs (some t) before)
        (Patch.set_page_attrs (some t) (payload_before page_keys changed before)) t n changed
        (set_payload page_keys changed before) h (rw h (rw page (rw own)))
        (λ k'. rw eq_refl (unfold set_payload in rw page (rw own)))
        (set_payload_back page_keys n p present)

  pub insert_link-Undoes :
      (t : String) (href link_href : Option Value) (n : Node) (v0 : Value)
      → doc.nodes t ≡ some n
      → n.id ≡ t
      → n.type ≡ NodeType.run
      → n.fields "link_href" ≡ some v0
      → Undoes env k doc (Patch.insert_link (some t) href link_href)
  unfolding apply_one Fields.insert_link
  insert_link-Undoes t href link_href n v0 h own run link =
      let v = first_true href link_href in
      let changed = set_attr n "link_href" v in
      Undoes-write (Patch.insert_link (some t) href link_href)
        (Patch.insert_link (some t) none (some v0)) (Patch.insert_link (some t) none (some v)) t n
        changed (set_attr changed "link_href" v0) h
        (rw h (rw run (rw own (rw (link, attr, get_or))))) (λ k'. rw eq_refl (rw run (rw own)))
        (set_back n "link_href" v v0 link)

  -- The attribute holds a Boolean, as the list's class declares.
  pub set_list_attrs-Undoes :
      (t : String) (ordered : Option Bool) (n : Node) (b0 : Bool)
      → doc.nodes t ≡ some n
      → n.id ≡ t
      → n.type ≡ NodeType.list
      → n.fields "ordered" ≡ some (flag b0)
      → Undoes env k doc (Patch.set_list_attrs (some t) ordered)
  unfolding apply_one Fields.set_list_attrs truthy
  set_list_attrs-Undoes t none n b0 h own list kept =
      Undoes-by env k doc (Patch.set_list_attrs (some t) none)
        (record { doc = doc; inverse = Patch.set_list_attrs (some t) (some b0); drawn = k })
        (rw h (rw list (rw own (rw (kept, attr, get_or)))))
        λ k'. (
          record {
            doc = write doc t (set_attr n "ordered" (flag b0));
            inverse = Patch.set_list_attrs (some t) (some b0);
            drawn = k';
          },
          rw h (rw list (rw own (rw (kept, attr, get_or)))),
          ap (λ (f : Map Value). write doc t (record n { fields = f }))
                (put_self n.fields "ordered" (flag b0) kept)
              ∙ ap (with_nodes doc) (put_self doc.nodes t n h),
        )
  set_list_attrs-Undoes t (some b) n b0 h own list kept =
      let changed = set_attr n "ordered" (flag b) in
      Undoes-write (Patch.set_list_attrs (some t) (some b))
        (Patch.set_list_attrs (some t) (some b0)) (Patch.set_list_attrs (some t) (some b)) t n
        changed (set_attr changed "ordered" (flag b0)) h
        (rw h (rw list (rw own (rw (kept, attr, get_or))))) (λ k'. rw eq_refl (rw list (rw own)))
        (set_back n "ordered" (flag b) (flag b0) kept)
