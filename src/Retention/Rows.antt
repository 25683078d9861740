-- ===== src/Retention/Rows.antt =====
-- The tables, the object store and the vector index that `src/research-retention.ts` works on.
use quantpro_collector.Prelude.{
  ℕ, zero, suc, Bool, true, false, ◌||◌, Option, List, [], ◌∷◌, String, str_eq, length, take,
}
use quantpro_collector.Db.Table.{Table}

pub record ResearchRecord : Type 0 where
  pub record_type : String
  pub record_key : String
  pub is_public : Bool
  pub message_id : String
  -- `$.document.document_id`, `$.document.source_id` and `$.version.ingested_at` of the payload
  pub document_id : Option String
  pub source_id : Option String
  pub ingested_at : Option String
  pub updated_at : String

pub record IngestMessage : Type 0 where
  pub message_id : String
  pub record_type : String
  pub record_key : String
  pub received_at : String

-- a row of research_record_objects
pub record RecordObject : Type 0 where
  pub record_type : String
  pub record_key : String
  pub content_sha256 : String

pub record SemanticState : Type 0 where
  pub is_public : Bool
  pub document_id : String
  pub version_id : String
  pub state : String
  pub expected_chunks : ℕ
  pub confirmed_chunks : ℕ
  pub last_error_code : Option String
  pub retired_at : Option ℕ
  pub updated_at : ℕ

pub data RetentionStatus : Type 0 where
  expired purged : RetentionStatus

-- what a purge reports; the lengths of the two lists, and the lists of the row, are left out
pub record RetentionPurgeDetail : Type 0 where
  pub versions_deleted : ℕ
  pub record_object_rows_deleted : ℕ
  pub object_rows_deleted : ℕ
  pub object_record_rows_deleted : ℕ
  pub state_rows_deleted : ℕ
  pub r2_journals_deleted : ℕ
  pub vectors_deleted : ℕ
  pub objects_deleted : List String
  pub objects_kept_shared_hashes : List String

-- A row of research_document_retention under its document; the lists are kept as JSON.
pub record RetentionRow : Type 0 where
  pub source_id : Option String
  pub reason : String
  pub first_ingested_at : Option String
  pub version_ids : List String
  pub journal_message_ids : List String
  pub content_sha256s : List String
  pub status : RetentionStatus
  pub marked_at : ℕ
  pub purged_at : Option ℕ
  pub purge_detail : Option RetentionPurgeDetail

-- a row of research_retention_audit; the report that it holds as JSON is left out
pub record RetentionAudit : Type 0 where
  pub run_at : ℕ
  pub is_scheduled : Bool
  pub dry_run : Bool
  pub document_count : ℕ
  pub version_count : ℕ
  pub r2_object_count : ℕ
  pub vector_count : ℕ

pub record Store (G : Type 0) : Type 0 where
  pub records : List ResearchRecord
  pub messages : List IngestMessage
  pub links : List RecordObject
  -- the keys of research_objects
  pub objects : List String
  pub states : List SemanticState
  pub retention : Table RetentionRow
  -- the keys of the R2 bucket
  pub r2 : List String
  pub vectors : G
  pub audits : List RetentionAudit

-- `RETENTION_EXPIRED_ERROR_CODE`
abbrev pub retention_expired_error_code : String
retention_expired_error_code = "EXPIRED_RETENTION"

-- `PARAM_CHUNK`
unfoldable pub param_chunk : ℕ
param_chunk = 50

-- `values.slice(start, start + PARAM_CHUNK)` for every start; a list has no more slices than
-- elements
abbrev pub drop : {A : Type 0} → ℕ → List A → List A
drop zero xs = xs
drop (suc n) [] = []
drop (suc n) (x ∷ xs) = drop n xs

unfoldable pub slices_from : {A : Type 0} → ℕ → List A → List (List A)
unfolding param_chunk
slices_from zero xs = []
slices_from (suc n) [] = []
slices_from (suc n) (x ∷ xs) = take param_chunk (x ∷ xs) ∷ slices_from n (drop param_chunk (x ∷ xs))

unfoldable pub slices : {A : Type 0} → List A → List (List A)
unfolding slices_from
slices xs = slices_from (length xs) xs

abbrev pub is_expired : RetentionStatus → Bool
is_expired expired = true
is_expired purged = false

-- `key IN (...)`
abbrev pub is_in : List String → String → Bool
is_in [] key = false
is_in (k ∷ ks) key = str_eq k key || is_in ks key
