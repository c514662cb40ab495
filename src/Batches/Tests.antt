-- ===== src/Batches/Tests.antt =====
-- A document that is remediated, and one that is signed.
use cross_format_documment.Base.{
  String, ◌==◌, none, some, false, List, [], ◌∷◌, ◌≡◌, refl, arith, eq_iff, if◌then◌else◌,
  Bool-cases, inl, inr,
}
use cross_format_documment.Base.Int.{ℤ, pos}
use cross_format_documment.Base.Maps.{empty, put}
use cross_format_documment.Base.Result.{Result, ok, err, type_error}
use cross_format_documment.Base.Http.{reply}
use cross_format_documment.Model.{Value, null, int, str, Node, NodeType, CanonicalDocument}
use cross_format_documment.Patch.Op.{Patch}
use cross_format_documment.Patch.Fields
use cross_format_documment.Patch.Graph.{write}
use cross_format_documment.Patch.Execute.{Applied, apply, apply_one}
use cross_format_documment.Versions.Samples.{bare_env, plain, ann, ann_row}
use cross_format_documment.Versions.Samples
use cross_format_documment.Versions.Store.{
  to_dict, from_dict, Serializer, Store, find_version, canonical_hash,
}
use cross_format_documment.Versions.Routes.{load_latest}
use cross_format_documment.Signing.{sign}
use cross_format_documment.Batches.Remediate.{remediation_ops}
use cross_format_documment.Batches.Tags.{IsKeyed}
use cross_format_documment.Batches.Complete.{remediation_is_complete}
use cross_format_documment.Batches.Seal.{sign_document, signature_status}
use cross_format_documment.Batches.Sealed.{seal_is_reported}

abbrev no_number : Value → Result ℤ
no_number v = err type_error

abbrev bare : String → NodeType → List String → Node
bare id type children = record {
  id = id;
  type = type;
  parent_id = none;
  children = children;
  bbox = null;
  attrs = empty;
  tags = [];
  fields = empty;
}

-- A root with a heading, and an image.
abbrev page : CanonicalDocument
page = record (Samples.marked []) {
  nodes =
      put
        (put (put empty "r" (bare "r" NodeType.root ("h" ∷ []))) "h" (bare "h" NodeType.heading []))
        "i" (bare "i" NodeType.image []);
}

page-IsKeyed : IsKeyed page
page-IsKeyed k n h = ground (arith, eq_iff "r" k, eq_iff "h" k, eq_iff "i" k)

abbrev page_ops : List (Patch Node)
page_ops =
    Patch.retag (some "h") ("H1" ∷ [])
    ∷ Patch.update_node (some "h") (("reading_order", int (pos 0)) ∷ [])
    ∷ Patch.update_node (some "i") (("alt_text", str "(image — description needed)") ∷ [])
    ∷ []

page_needs : remediation_ops no_number ("r" ∷ "h" ∷ "i" ∷ []) page ≡ ok page_ops
unfolding remediation_ops
page_needs = refl

abbrev heading_done : Node
heading_done = record (bare "h" NodeType.heading []) {
  tags = "H1" ∷ [];
  fields = put empty "reading_order" (int (pos 0));
}

abbrev image_done : Node
image_done = record (bare "i" NodeType.image []) {
  fields = put empty "alt_text" (str "(image — description needed)");
}

abbrev page_done : Applied Node
page_done = record {
  doc =
      write
        (write (write page "h" (record (bare "h" NodeType.heading []) { tags = "H1" ∷ [] })) "h"
          heading_done)
        "i" image_done;
  inverse =
      Patch.update_node (some "i") (("alt_text", null) ∷ [])
      ∷ Patch.update_node (some "h") (("reading_order", null) ∷ [])
      ∷ Patch.retag (some "h") []
      ∷ [];
  drawn = 0;
}

page_applies : apply bare_env 0 page page_ops ≡ ok page_done
unfolding apply apply_one Fields.retag Fields.update_node
page_applies = refl

remediation_is_complete_example :
    remediation_ops {D = Node} no_number ("r" ∷ "h" ∷ "i" ∷ []) page_done.doc ≡ ok []
remediation_is_complete_example =
    remediation_is_complete bare_env no_number 0 page ("r" ∷ "h" ∷ "i" ∷ []) page_ops page_done
      page-IsKeyed page_needs page_applies

-- The text of a document says whether it is signed, and its id.
abbrev signing : Serializer CanonicalDocument
signing = record plain {
  dumps = λ d. String.◌∷◌ (if d.signature.signed then "1" else "0") d.doc_id;
}

abbrev mac : String → String → String
mac key text = if text == "" then "0" else text

mac_is_not_empty : (key text : String) → (mac key text == "") ≡ false
mac_is_not_empty key text = elim (Bool-cases (text == "")) [ inl e ↦ rw e refl | inr e ↦ rw e e ]

abbrev shelf : Store CanonicalDocument
shelf = record {
  docs = put empty "d" ann_row;
  versions =
      record {
        id = "sha256:0d";
        document_id = "d";
        parent_id = none;
        model = Samples.marked [];
        patch_id = none;
      }
      ∷ [];
  events = [];
}

shelf_loads : load_latest signing shelf "d" ann ≡ reply ("sha256:0d", Samples.marked [])
unfolding load_latest
shelf_loads = refl

seal_is_new :
    find_version shelf.versions
      (canonical_hash signing (sign (canonical_hash signing) mac (Samples.marked []) "ann" "key" 7))
    ≡ none
unfolding find_version canonical_hash sign
seal_is_new = refl

seal_is_reported_example :
    signature_status signing mac "key"
      (sign_document signing mac "key" shelf "d" "ann" 7 ann).0
      "d"
      ann
    ≡ (sign_document signing mac "key" shelf "d" "ann" 7 ann).1
unfolding from_dict to_dict
seal_is_reported_example =
    seal_is_reported signing mac "key" mac_is_not_empty (λ doc h. refl) shelf "d" "ann" "sha256:0d"
      7 ann (Samples.marked []) shelf_loads refl seal_is_new refl
