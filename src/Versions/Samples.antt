-- ===== src/Versions/Samples.antt =====
-- A small document and where it is stored, for tests.
use cross_format_documment.Base.{String, none, some, true, false, List, [], refl, ap, if◌then◌else◌}
use cross_format_documment.Base.Maps.{empty}
use cross_format_documment.Model.{Node, CanonicalDocument}
use cross_format_documment.Access.Owner.{Actor, Document}
use cross_format_documment.Patch.Op.{Env}
use cross_format_documment.Versions.Store.{Serializer, Store, find_version, canonical_hash}
use cross_format_documment.Versions.Routes.{persist_document}
use cross_format_documment.Versions.Edits.{is_nil}
use cross_format_documment.Versions.Sound.{IsFaithful, some-injective}
use cross_format_documment.Versions.Kept.{StoreSound}

-- A document without nodes, with redaction marks.
abbrev pub marked : List String → CanonicalDocument
marked marks = record {
  schema_version = "1.0";
  doc_id = "d";
  root_id = "r";
  nodes = empty;
  meta = record {
    title = none;
    author = none;
    source_format = "docx";
    source_mime = "application/docx";
    created_at = 0;
    modified_at = 0;
    page_count = 1;
    custom = empty;
  };
  permissions = record {
    can_edit = true;
    can_export = true;
    can_copy = true;
    encrypted = false;
    password_protected = false;
  };
  redaction = record { redacted_node_ids = marks; metadata_sanitized = false; pending = [] };
  accessibility = record {
    has_doc_title = false;
    tagged = false;
    images_missing_alt = [];
    reading_order_ok = false;
    score = 0;
  };
  signature = record {
    signed = false;
    signature_valid = none;
    ready_for_signing = false;
    signer = none;
    signed_at = none;
    digest = none;
  };
  content_hash = none;
}

-- The JSON value of a document is the document, and its text says whether there are marks and then
-- the id.
abbrev pub plain : Serializer CanonicalDocument
plain = record {
  model_dump = λ d. d;
  model_validate = λ d. some d;
  id_of = λ d. some d.doc_id;
  pop_content_hash = λ d. record d { content_hash = none };
  dumps = λ d. String.◌∷◌ (if is_nil d.redaction.redacted_node_ids then "0" else "1") d.doc_id;
  sha256 = λ t. t;
}

pub plain-IsFaithful : IsFaithful plain
unfolding canonical_hash
plain-IsFaithful = record {
  popped = λ doc h. refl;
  dumped = λ doc. refl;
  validated = λ j doc h. ap (λ (x : CanonicalDocument). some x.doc_id) (some-injective h);
  apart = λ a b h. cc;
}

abbrev pub nobody : Store CanonicalDocument
nobody = record { docs = empty; versions = []; events = [] }

pub nobody-Sound : StoreSound plain nobody
unfolding find_version
nobody-Sound = record { keyed = tt; rows = λ i v h. cc; current = λ i d c row at. cc }

abbrev pub ann : Actor
ann = record { session_id = "ann"; user_id = none }

abbrev pub bare_env : Env Node
bare_env = record {
  dump = λ n. n;
  validate = λ n. some n;
  new_node_id = λ prefix k. prefix;
  rounds = 9;
}

unfoldable pub uploaded : Store CanonicalDocument
unfolding persist_document
uploaded = (persist_document plain nobody (marked []) "ann").0

-- The row of the document after its upload.
abbrev pub ann_row : Document
ann_row = record {
  id = "d";
  owner_session_id = some "ann";
  owner_user_id = none;
  current_version_id = some "sha256:0d";
}
