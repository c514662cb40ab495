-- ===== src/Model/Documents.antt =====
-- document.py: the document and its trust state. Times are numbers, and the accessibility score is
-- in hundredths.
use cross_format_documment.Base.{ℕ, String, Bool, Option, List}
use cross_format_documment.Base.Maps.{Map}
use cross_format_documment.Model.Values.{Value}
use cross_format_documment.Model.Nodes.{Node}

pub record Permissions : Type 0 where
  pub can_edit : Bool
  pub can_export : Bool
  pub can_copy : Bool
  pub encrypted : Bool
  pub password_protected : Bool

pub record RedactionState : Type 0 where
  pub redacted_node_ids : List String
  pub metadata_sanitized : Bool
  pub pending : List String

pub record AccessibilityState : Type 0 where
  pub has_doc_title : Bool
  pub tagged : Bool
  pub images_missing_alt : List String
  pub reading_order_ok : Bool
  pub score : ℕ

pub record SignatureState : Type 0 where
  pub signed : Bool
  pub signature_valid : Option Bool
  pub ready_for_signing : Bool
  pub signer : Option String
  pub signed_at : Option ℕ
  pub digest : Option String

pub record DocumentMeta : Type 0 where
  pub title : Option String
  pub author : Option String
  pub source_format : String
  pub source_mime : String
  pub created_at : ℕ
  pub modified_at : ℕ
  pub page_count : ℕ
  pub custom : Map Value

pub record CanonicalDocument : Type 0 where
  pub schema_version : String
  pub doc_id : String
  pub root_id : String
  pub nodes : Map Node
  pub meta : DocumentMeta
  pub permissions : Permissions
  pub redaction : RedactionState
  pub accessibility : AccessibilityState
  pub signature : SignatureState
  pub content_hash : Option String
