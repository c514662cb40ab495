-- ===== src/Versions/Tests.antt =====
-- A small document that is uploaded, edited, undone and redone.
use cross_format_documment.Base.{none, some, true, false, [], ◌∷◌, ◌≡◌, refl, inl}
use cross_format_documment.Base.Maps.{empty}
use cross_format_documment.Base.Result.{ok, err}
use cross_format_documment.Base.Http.{Http, reply, fail}
use cross_format_documment.Model.{null, Node, CanonicalDocument}
use cross_format_documment.Access.Owner.{Owned}
use cross_format_documment.Patch.Op.{Patch}
use cross_format_documment.Patch.Fields
use cross_format_documment.Patch.Execute.{apply_one}
use cross_format_documment.Versions.Store.{
  DocumentVersion, Store, canonical_hash, with_content_hash, put_version,
}
use cross_format_documment.Versions.Routes.{undo_target, redo_target, undo, persist_document}
use cross_format_documment.Versions.Edits.{PatchRequest, PatchResponse, Outcome, create_patch}
use cross_format_documment.Versions.Kept.{StoreSound}
use cross_format_documment.Versions.Reached.{
  Service, here, more, ingested, patched, undone, requests_keep_sound,
}
use cross_format_documment.Versions.Samples.{
  marked, plain, plain-IsFaithful, nobody, nobody-Sound, ann, bare_env, uploaded, ann_row,
}
use cross_format_documment.Versions.Undo.{undo_after_edit, undo_after_return}
use cross_format_documment.Versions.Checked.{failed_patch_changes_nothing}
use cross_format_documment.Versions.Contents.{
  stored_json, ingest, edit, undo_call, run, replay, run_refines,
}

abbrev offline : Service Node
offline = record {
  ai_enabled = false;
  interpret = λ doc text. record { id = "p"; patches = []; intent = none };
}

-- A request that scrubs the metadata.
abbrev scrub : PatchRequest Node
scrub = record { ops = Patch.sanitize_metadata [] ∷ []; instruction = none }

abbrev scrubbed : Outcome CanonicalDocument PatchResponse
unfolding create_patch
scrubbed = create_patch plain bare_env false offline.interpret "p1" 0 uploaded "d" scrub ann

abbrev store_of : Outcome CanonicalDocument PatchResponse → Store CanonicalDocument
store_of (ok (store, answer)) = store
store_of (err e) = nobody

abbrev answer_of : Outcome CanonicalDocument PatchResponse → Http PatchResponse
answer_of (ok (store, answer)) = answer
answer_of (err e) = fail 500

scrubbed_is_answered : scrubbed ≡ ok (store_of scrubbed, answer_of scrubbed)
unfolding scrubbed create_patch uploaded apply_one Fields.sanitize_metadata
scrubbed_is_answered = refl

scrubbed_reply :
    scrubbed
    ≡ ok (
      store_of scrubbed,
      reply (record {
        doc_id = "d";
        patch_id = "p1";
        applied = true;
        new_version_id = some "sha256:0d";
        intent = none;
      }),
    )
unfolding scrubbed create_patch uploaded apply_one Fields.sanitize_metadata
scrubbed_reply = refl

requests_keep_sound_example : StoreSound plain (undo plain (store_of scrubbed) "d" ann).0
unfolding uploaded scrubbed
requests_keep_sound_example =
    requests_keep_sound plain plain-IsFaithful bare_env offline nobody
      (undo plain (store_of scrubbed) "d" ann).0
      (more
        (more (more here (ingested (marked []) "ann"))
          (patched "p1" 0 "d" scrub ann (answer_of scrubbed) scrubbed_is_answered))
        (undone "d" ann))
      nobody-Sound

uploaded_row : uploaded.docs "d" ≡ some ann_row
unfolding uploaded persist_document
uploaded_row = refl

undo_after_edit_example :
    (undo_target (put_version plain uploaded "d" (marked ("t" ∷ [])) (some "p2")).0 "d" ann
      ≡ reply "sha256:0d")
    × (redo_target
          (undo plain (put_version plain uploaded "d" (marked ("t" ∷ [])) (some "p2")).0 "d" ann).0
          "d"
          ann
        ≡ reply (canonical_hash plain (marked ("t" ∷ []))))
unfolding uploaded persist_document Owned
undo_after_edit_example =
    undo_after_edit plain uploaded "d" (marked ("t" ∷ [])) (some "p2") ann ann_row uploaded_row
      (inl refl) refl "sha256:0d" refl refl

abbrev first_row : DocumentVersion CanonicalDocument
first_row = record {
  id = "sha256:0d";
  document_id = "d";
  parent_id = none;
  model = with_content_hash (marked []) "sha256:0d";
  patch_id = none;
}

-- The same content again is no new version, and there is nothing to undo.
undo_after_return_example :
    undo_target (put_version plain uploaded "d" (marked []) (some "p2")).0 "d" ann ≡ fail 409
unfolding uploaded persist_document Owned
undo_after_return_example =
    undo_after_return plain uploaded "d" (marked []) (some "p2") ann ann_row uploaded_row (inl refl)
      refl first_row refl

run_refines_example :
    stored_json (
      run plain
        (ingest (marked []) "ann"
          ∷ edit "d" (marked ("t" ∷ [])) none
          ∷ undo_call "d" ann
          ∷ edit "d" (marked []) none
          ∷ [])
        nobody)
    ≡ replay plain
        (ingest (marked []) "ann"
          ∷ edit "d" (marked ("t" ∷ [])) none
          ∷ undo_call "d" ann
          ∷ edit "d" (marked []) none
          ∷ [])
        (stored_json nobody)
run_refines_example = run_refines plain _ nobody

-- An image from another document's folder is refused, and nothing is stored.
abbrev foreign : PatchRequest Node
foreign = record {
  ops =
      Patch.insert_image none (record {
        parent_id = none;
        id = none;
        blob_ref = some "assets/e/a.png";
        mime = none;
        alt_text = none;
        bbox = null;
        attrs = empty;
        index = none;
      })
      ∷ [];
  instruction = none;
}

abbrev foreign_outcome : Outcome CanonicalDocument PatchResponse
unfolding create_patch
foreign_outcome =
    create_patch plain bare_env false offline.interpret "p1" 0 uploaded "d" foreign ann

foreign_fails : foreign_outcome ≡ ok (store_of foreign_outcome, fail 422)
unfolding foreign_outcome create_patch uploaded
foreign_fails = refl

failed_patch_changes_nothing_example : store_of foreign_outcome ≡ uploaded
unfolding create_patch foreign_outcome
failed_patch_changes_nothing_example =
    failed_patch_changes_nothing plain bare_env false offline.interpret "p1" 0 uploaded "d" foreign
      ann (store_of foreign_outcome) 422 foreign_fails
