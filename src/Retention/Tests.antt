-- ===== src/Retention/Tests.antt =====
-- The retention of documents (src/research-retention.ts) at concrete inputs.
use Prim.Native.String
use quantpro_collector.Prelude.{
  ℕ, zero, suc, ◌≡◌, refl, true, false, none, some, List, [], ◌∷◌, map, String, Option,
}
use quantpro_collector.Db.Table.{lookup, insert}
use quantpro_collector.Kv.{before}
use quantpro_collector.Db.Prog.{Reply, ok, alone, run, case_option, ◌>>=◌, when◌then◌else◌}
use quantpro_collector.Retention.Rows.{
  RecordObject, RetentionRow, RetentionPurgeDetail, Store, expired, purged, is_in, param_chunk,
  slices,
}
use quantpro_collector.Retention.Purge.{
  VectorIndex, object_key, delete_contents, purge_expired_document, deleting,
}
use quantpro_collector.Retention.Mark.{
  RetentionCandidate, mark_expired_document, retire_states, list_expired_pending_purge,
}
use quantpro_collector.Retention.Shared.{delete_contents-exact}
use quantpro_collector.Retention.Guard.{delete_contents_shared, delete_contents_unshared}
use quantpro_collector.Retention.Again.{mark_expired_document_again}
use quantpro_collector.Retention.History.{History}
use quantpro_collector.Retention.Sweep.{SweepOptions, RetentionRunReport, run_retention_sweep}
use quantpro_collector.Retention.Swept.{run_retention_sweep-History}

abbrev Vectors : Type 0
Vectors = List String

abbrev link : String → String → RecordObject
link version content = record {
  record_type = "document_version";
  record_key = version;
  content_sha256 = content;
}

abbrev detail : RetentionPurgeDetail
detail = record {
  versions_deleted = 0;
  record_object_rows_deleted = 0;
  object_rows_deleted = 0;
  object_record_rows_deleted = 0;
  state_rows_deleted = 0;
  r2_journals_deleted = 0;
  vectors_deleted = 0;
  objects_deleted = [];
  objects_kept_shared_hashes = [];
}

-- "a" is shared with another document, "b" is not
abbrev store : Store Vectors
store = record {
  records = [];
  messages = [];
  links = link "v1" "a" ∷ link "other" "a" ∷ link "v1" "b" ∷ [];
  objects = "a" ∷ "b" ∷ [];
  states = [];
  retention = [];
  r2 = object_key "a" ∷ object_key "b" ∷ [];
  vectors = [];
  audits = [];
}

delete_contents-exact_example :
    run alone 0 (delete_contents ("v1" ∷ []) ("a" ∷ "b" ∷ []) detail) store ≡ (
      ok (record detail { objects_deleted = "b" ∷ []; objects_kept_shared_hashes = "a" ∷ [] }),
      record store { r2 = object_key "a" ∷ [] },
    )
unfolding slices
delete_contents-exact_example = delete_contents-exact ("v1" ∷ []) ("a" ∷ "b" ∷ []) detail store

delete_contents_shared_example :
    is_in
      (run alone 0 (delete_contents ("v1" ∷ []) ("a" ∷ "b" ∷ []) detail) store).1.r2
      (object_key "a")
    ≡ true
delete_contents_shared_example =
    delete_contents_shared "v1" [] ("a" ∷ "b" ∷ []) detail "a" alone store (λ n s h. h) (refl, refl)

-- fifty-one versions, all of the same document
abbrev names : ℕ → String → List String
names zero s = []
names (suc n) s = s ∷ names n (String.◌++◌ s "v")

abbrev many : Store Vectors
many = record store { links = map (λ v. link v "a") ("v" ∷ names 50 "vv") }

delete_contents_unshared_example :
    run alone 0 (delete_contents ("v" ∷ names 50 "vv") ("a" ∷ []) detail) many
    ≡ (ok (record detail { objects_kept_shared_hashes = "a" ∷ [] }), many)
unfolding param_chunk
delete_contents_unshared_example =
    delete_contents_unshared "v" (names 50 "vv") detail many "a" refl refl

abbrev row : RetentionRow
row = record {
  source_id = none;
  reason = "AGE_90D";
  first_ingested_at = none;
  version_ids = "v1" ∷ [];
  journal_message_ids = [];
  content_sha256s = "b" ∷ [];
  status = expired;
  marked_at = 10;
  purged_at = none;
  purge_detail = none;
}

abbrev candidate : RetentionCandidate
candidate = record {
  document_id = "document";
  source_id = none;
  first_ingested_at = none;
  reason = "AGE_90D";
  version_count = 1;
}

abbrev index : VectorIndex Vectors
index = record {
  vector_count = λ document version. 1;
  delete_by_ids = λ document version vectors. version ∷ vectors;
}

abbrev marked : Store Vectors
marked = record store { retention = ("document", row) ∷ [] }

abbrev options : SweepOptions
options = record {
  is_scheduled = true;
  dry_run = false;
  now = some 10000000000;
  max_mark = none;
  max_purge = none;
}

abbrev no_dates : String → Option ℕ
no_dates s = none

-- a version of a source whose documents always expire
abbrev forced : Store Vectors
forced = record marked {
  records =
      record {
        record_type = "document_version";
        record_key = "v9";
        is_public = true;
        message_id = "message";
        document_id = some "forced";
        source_id = some "E02-gelonghui-live";
        ingested_at = none;
        updated_at = "2026-01-01T00:00:00.000Z";
      }
      ∷ [];
}

run_retention_sweep-History_example :
    History forced (run alone 0 (mark_expired_document candidate 20) forced).1
    × History forced (run alone 0 (purge_expired_document index "document" row 20) forced).1
    × History forced (run alone 0 (run_retention_sweep no_dates (some index) options) forced).1
run_retention_sweep-History_example =
    run_retention_sweep-History no_dates index (some index) options alone "document" row candidate
      20 forced (λ n s h. h)

abbrev counts : Reply RetentionRunReport → ℕ × ℕ × ℕ
counts (ok r) = (r.scanned_documents, r.marked_expired, r.purged_documents)
counts _ = (0, 0, 0)

-- the sweep marks the document that it scanned, and purges it with the one that was marked
sweep_counts :
    counts (run alone 0 (run_retention_sweep no_dates (some index) options) forced).0 ≡ (1, 1, 2)
unfolding run_retention_sweep run case_option ◌>>=◌ when◌then◌else◌ before lookup slices insert
    deleting
sweep_counts = refl

abbrev purged_before : Store Vectors
purged_before = record store {
  records =
      record {
        record_type = "document_version";
        record_key = "v1";
        is_public = true;
        message_id = "message";
        document_id = some "document";
        source_id = none;
        ingested_at = none;
        updated_at = "2026-01-01T00:00:00.000Z";
      }
      ∷ [];
  retention = ("document", record row { status = purged; purged_at = some 15 }) ∷ [];
}

mark_expired_document_again_example :
    let out = run alone 0 (mark_expired_document candidate 20) purged_before in
    (out ≡ (ok false, retire_states "document" 20 purged_before))
    × (list_expired_pending_purge 20 out.1 ≡ list_expired_pending_purge 20 purged_before)
unfolding lookup
mark_expired_document_again_example =
    mark_expired_document_again candidate 20 20 purged_before
      (record row { status = purged; purged_at = some 15 }) refl refl
