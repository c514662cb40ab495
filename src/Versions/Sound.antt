-- ===== src/Versions/Sound.antt =====
-- What holds of the rows between two requests, and that a commit keeps it.
use cross_format_documment.Base.{
  String, ◌==◌, eq_refl, Option, none, some, List, ◌≡◌, ◌⊎◌, refl, sym, ◌∙◌, subst, arith,
  Bool-cases, inl, inr, text-cases,
}
use cross_format_documment.Base.Maps.{Map}
use cross_format_documment.Model.{CanonicalDocument}
use cross_format_documment.Access.Owner.{Document}
use cross_format_documment.Versions.Store.{
  Serializer, DocumentVersion, find_version, with_current, with_content_hash, to_dict, json_hash,
  canonical_hash, version_row, add_version,
}
use cross_format_documment.Versions.Rows.{
  Keyed, or_row, find_version-append, find_version-id, Keyed-append, add_version-cases,
  find_version-add_version,
}

-- What serialize.py relies on: the hash leaves the key `content_hash` out, a document has its id
-- under the key `doc_id` when it is written and when it is read, and values of different ids have
-- different hashes. Of all else nothing is assumed: what is read may differ from what was written, or
-- not be valid.
pub record IsFaithful {J : Type 0} (s : Serializer J) : Type 0 where
  pub popped :
      (doc : CanonicalDocument) (h : String)
      → s.pop_content_hash (s.model_dump (with_content_hash doc h))
        ≡ s.pop_content_hash (s.model_dump doc)
  pub dumped : (doc : CanonicalDocument) → s.id_of (s.model_dump doc) ≡ some doc.doc_id
  pub validated :
      (j : J) (doc : CanonicalDocument)
      → s.model_validate j ≡ some doc
      → s.id_of j ≡ some doc.doc_id
  pub apart : (a b : J) → json_hash s a ≡ json_hash s b → s.id_of a ≡ s.id_of b

-- A row stands under the hash of the value it holds, which has the id of the row's document; its
-- parent is a row of the same document.
pub record RowSound {J : Type 0} (s : Serializer J) (vs : List (DocumentVersion J))
    (v : DocumentVersion J) : Type 0 where
  pub hashed : json_hash s v.model ≡ v.id
  pub owned : s.id_of v.model ≡ some v.document_id
  pub parent :
      (p : String)
      → v.parent_id ≡ some p
      → (w : DocumentVersion J) × (find_version vs p ≡ some w) × (w.document_id ≡ v.document_id)

-- The rows are keyed and sound, and the current version of a document is a row of it.
pub record Sound {J : Type 0} (s : Serializer J) (docs : Map Document)
    (vs : List (DocumentVersion J)) : Type 0 where
  pub keyed : Keyed vs
  pub rows : (i : String) (v : DocumentVersion J) → find_version vs i ≡ some v → RowSound s vs v
  pub current :
      (i : String) (d : Document) (c : String)
      → docs i ≡ some d
      → d.current_version_id ≡ some c
      → (v : DocumentVersion J) × (find_version vs c ≡ some v) × (v.document_id ≡ i)

pub some-injective : {A : Type 0} {a b : A} → some a ≡ some b → a ≡ b
some-injective h = cc

-- A document with its current version set is the one that was meant, or as it was.
with_current-cases :
    (docs : Map Document) (doc_id c i : String) (d : Document)
    → with_current docs doc_id c i ≡ some d
    → ((i ≡ doc_id) × (d.current_version_id ≡ some c)) ⊎ (docs i ≡ some d)
unfolding with_current
with_current-cases docs doc_id c i d h = ground (arith, text-cases doc_id i)

module _ {J : Type 0} (s : Serializer J) (faithful : IsFaithful s) where
  pub canonical_hash-with_content_hash :
      (doc : CanonicalDocument) (h : String)
      → canonical_hash s (with_content_hash doc h) ≡ canonical_hash s doc
  unfolding canonical_hash to_dict
  canonical_hash-with_content_hash doc h = rw (faithful.popped doc h) refl

  -- The row that a commit adds is sound in every table that holds its parent.
  pub version_row-RowSound :
      (vs : List (DocumentVersion J)) (doc : CanonicalDocument) (parent patch : Option String)
      → ((p : String)
          → parent ≡ some p
          → (w : DocumentVersion J) × (find_version vs p ≡ some w) × (w.document_id ≡ doc.doc_id))
      → RowSound s vs (version_row s doc parent patch)
  unfolding version_row canonical_hash to_dict
  version_row-RowSound vs doc parent patch h = record {
    hashed = canonical_hash-with_content_hash doc (canonical_hash s doc);
    owned = faithful.dumped (with_content_hash doc (canonical_hash s doc));
    parent = h;
  }

  RowSound-grown :
      (vs : List (DocumentVersion J)) (v w : DocumentVersion J)
      → RowSound s vs w
      → RowSound s (add_version vs v) w
  RowSound-grown vs v w h = record {
    hashed = h.hashed;
    owned = h.owned;
    parent = λ p e.
        let (u, found, same) = h.parent p e in (u, find_version-add_version vs v p u found, same);
  }

  or_row-some :
      (o : Option (DocumentVersion J)) (v : DocumentVersion J) (i : String) (w : DocumentVersion J)
      → or_row o v i ≡ some w
      → (o ≡ some w) ⊎ (w ≡ v)
  or_row-some none v i w h = elim (Bool-cases (v.id == i)) [ inl same ↦ inr cc | inr other ↦ cc ]
  or_row-some (some u) v i w h = inl h

  -- Each row of the new table is one of the old, or the added one.
  added_row :
      (vs : List (DocumentVersion J)) (v : DocumentVersion J) (i : String) (w : DocumentVersion J)
      → find_version (add_version vs v) i ≡ some w
      → (find_version vs i ≡ some w) ⊎ (w ≡ v)
  added_row vs v i w h = elim (add_version-cases vs v) [
    | inl (fresh, e) ↦
        or_row-some (find_version vs i) v i w (sym (find_version-append vs v i) ∙ rw e at h)
    | inr (u, known, e) ↦ inl (rw e at h)
  ]

  add_version-Keyed :
      (vs : List (DocumentVersion J)) (v : DocumentVersion J) → Keyed vs → Keyed (add_version vs v)
  add_version-Keyed vs v k = elim (add_version-cases vs v) [
    | inl (fresh, e) ↦ rw e (Keyed-append vs v k fresh)
    | inr (u, known, e) ↦ rw e k
  ]

  pub add_version-Sound :
      (docs : Map Document) (vs : List (DocumentVersion J)) (v : DocumentVersion J)
      → Sound s docs vs
      → RowSound s vs v
      → Sound s docs (add_version vs v)
  add_version-Sound docs vs v h row = record {
    keyed = add_version-Keyed vs v h.keyed;
    rows = λ i w found. elim (added_row vs v i w found) [
      | inl old ↦ RowSound-grown vs v w (h.rows i w old)
      | inr new ↦ subst (RowSound s (add_version vs v)) (sym new) (RowSound-grown vs v v row)
    ];
    current = λ i d c row at.
        let (w, found, same) = h.current i d c row at in
        (w, find_version-add_version vs v c w found, same);
  }

  -- Under the id of a sound row that is committed stands a row of the same document.
  pub added_is_there :
      (vs : List (DocumentVersion J)) (v : DocumentVersion J)
      → ((i : String) (w : DocumentVersion J) → find_version vs i ≡ some w → RowSound s vs w)
      → RowSound s vs v
      → (w : DocumentVersion J) × (find_version (add_version vs v) v.id ≡ some w)
        × (w.document_id ≡ v.document_id)
  added_is_there vs v rows row = elim (add_version-cases vs v) [
    | inl (fresh, e) ↦
        (v, rw e (find_version-append vs v v.id ∙ rw fresh (rw (eq_refl v.id) refl)), refl)
    | inr (w, known, e) ↦
        let sound = rows v.id w known in
        (
          w,
          rw e known,
          some-injective (
              sym sound.owned
              ∙ faithful.apart w.model v.model
                  (sound.hashed ∙ find_version-id vs v.id w known ∙ sym row.hashed)
              ∙ row.owned),
        )
  ]

  -- With the current version of a document set to one of its rows, all is sound.
  pub with_current-Sound :
      (docs : Map Document) (vs : List (DocumentVersion J)) (doc_id c : String)
      (w : DocumentVersion J)
      → Sound s docs vs
      → find_version vs c ≡ some w
      → w.document_id ≡ doc_id
      → Sound s (with_current docs doc_id c) vs
  with_current-Sound docs vs doc_id c w h found same = record {
    keyed = h.keyed;
    rows = h.rows;
    current = λ i d c' row at. elim (with_current-cases docs doc_id c i d row) [
      | inl (here, new) ↦ let e : c ≡ c' = cc in (w, rw e at found, same ∙ sym here)
      | inr old ↦ h.current i d c' old at
    ];
  }
