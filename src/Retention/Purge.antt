-- ===== src/Retention/Purge.antt =====
-- `purgeExpiredDocument` of `src/research-retention.ts`. R2 and the vector index are accesses like
-- those to the database.
use Prim.Native.String
use quantpro_collector.Prelude.{
  ℕ, ◌+◌, Bool, false, not, ◌&&◌, Option, none, some, List, [], ◌∷◌, ◌++◌, String, str_eq, length,
  ltb, filter, if◌then◌else◌,
}
use quantpro_collector.Db.Table.{lookup}
use quantpro_collector.Db.Prog.{
  Prog, done, fail, store_unavailable, integrity_failed, select, exec, batch_result, case_option,
  when◌then◌else◌, ◌>>=◌,
}
use quantpro_collector.State.Receipts.{update_row}
use quantpro_collector.Retention.Rows.{
  ResearchRecord, RecordObject, SemanticState, RetentionRow, RetentionPurgeDetail, Store, purged,
  is_expired, is_in, slices,
}

-- Vectorize: the ids of a version's vectors are derived from its id, and deleted together
pub record VectorIndex (G : Type 0) : Type 0 where
  pub vector_count : (document_id version_id : String) → ℕ
  pub delete_by_ids : (document_id version_id : String) → G → G

abbrev pub object_key : String → String
object_key content_sha256 = String.◌++◌ "research-objects/sha256/" content_sha256

abbrev pub journal_key : String → String
journal_key message_id = String.◌++◌ "research-replica-journal/v2/" (String.◌++◌ message_id ".json")

-- a reference to a content by a record outside of some versions
abbrev pub is_foreign : String → List String → RecordObject → Bool
is_foreign content versions l = str_eq l.content_sha256 content && not (is_in versions l.record_key)

abbrev no_detail : RetentionPurgeDetail
no_detail = record {
  versions_deleted = 0;
  record_object_rows_deleted = 0;
  object_rows_deleted = 0;
  object_record_rows_deleted = 0;
  state_rows_deleted = 0;
  r2_journals_deleted = 0;
  vectors_deleted = 0;
  objects_deleted = [];
  objects_kept_shared_hashes = [];
}

abbrev pub without : String → List String → List String
without key keys = filter (λ k. not (str_eq k key)) keys

abbrev pub is_link_of : List String → RecordObject → Bool
is_link_of keys l = str_eq l.record_type "document_version" && is_in keys l.record_key

abbrev pub is_version_of : List String → ResearchRecord → Bool
is_version_of keys r =
    str_eq r.record_type "document_version" && r.is_public && is_in keys r.record_key

abbrev pub is_object_of : List String → ResearchRecord → Bool
is_object_of keys r = str_eq r.record_type "object" && is_in keys r.record_key

abbrev pub singles : List String → List (List String)
singles [] = []
singles (x ∷ xs) = (x ∷ []) ∷ singles xs

abbrev pub is_state_of : String → SemanticState → Bool
is_state_of document r = r.is_public && str_eq r.document_id document

abbrev pub purged_row : ℕ → RetentionPurgeDetail → RetentionRow → RetentionRow
purged_row now d r =
    if is_expired r.status
    then record r { status = purged; purged_at = some now; purge_detail = some d }
    else r

abbrev pub row_is_expired : Option RetentionRow → Bool
row_is_expired none = false
row_is_expired (some r) = is_expired r.status

module _ {G : Type 0} where
  -- SELECT COUNT(*) ... AND record_key NOT IN (...)
  abbrev pub foreign_refs : String → List String → Store G → ℕ
  foreign_refs content versions s = length (filter (is_foreign content versions) s.links)

  -- the counts of all slices, added up
  unfoldable pub count_references : String → List (List String) → Prog (Store G) ℕ
  count_references content [] = done 0
  count_references content (v ∷ vs) = do
    here ← select (foreign_refs content v)
    rest ← count_references content vs
    done (here + rest)

  abbrev pub delete_object : String → Store G → Store G
  delete_object key s = record s { r2 = without key s.r2 }

  -- step 2a: a content that is still referenced is kept
  unfoldable pub delete_contents :
      (versions contents : List String) → RetentionPurgeDetail → Prog (Store G) RetentionPurgeDetail
  unfolding count_references
  delete_contents versions [] d = done d
  delete_contents versions (c ∷ cs) d =
      let kept =
        delete_contents versions cs
          (record d { objects_kept_shared_hashes = d.objects_kept_shared_hashes ++ c ∷ [] }) in
      let gone =
        delete_contents versions cs (record d { objects_deleted = d.objects_deleted ++ c ∷ [] }) in
      do
        references ← count_references c (slices versions)
        when ltb 0 references then kept else (do _ ← exec (delete_object (object_key c)); gone)

  -- step 2b
  unfoldable pub delete_journals :
      List String → RetentionPurgeDetail → Prog (Store G) RetentionPurgeDetail
  delete_journals [] d = done d
  delete_journals (m ∷ ms) d = do
    _ ← exec (delete_object (journal_key m))
    delete_journals ms (record d { r2_journals_deleted = d.r2_journals_deleted + 1 })

  -- a DELETE and the number of its rows
  unfoldable pub deleting :
      {A : Type 0}
      → (A → Bool)
      → (Store G → List A)
      → (List A → Store G → Store G)
      → Prog (Store G) ℕ
  deleting gone rows put = do
    changes ←
        batch_result (λ s. some (put (filter (λ r. not (gone r)) (rows s)) s))
          (λ s. length (filter gone (rows s)))
    case_option changes (fail store_unavailable) done

  -- the same for every slice of the keys
  unfoldable pub delete_slices :
      (List String → Prog (Store G) ℕ) → List (List String) → Prog (Store G) ℕ
  delete_slices delete [] = done 0
  delete_slices delete (v ∷ vs) = do
    here ← delete v
    rest ← delete_slices delete vs
    done (here + rest)

  abbrev pub delete_links : List String → Prog (Store G) ℕ
  delete_links keys =
      deleting (is_link_of keys) (λ s. s.links) (λ rows s. record s { links = rows })

  abbrev pub delete_records : (ResearchRecord → Bool) → Prog (Store G) ℕ
  delete_records gone = deleting gone (λ s. s.records) (λ rows s. record s { records = rows })

  abbrev pub delete_objects : List String → Prog (Store G) ℕ
  delete_objects keys =
      deleting (is_in keys) (λ s. s.objects) (λ rows s. record s { objects = rows })

  -- step 3: the rows of the database
  unfoldable pub delete_rows :
      (document : String)
      → (versions : List String) → RetentionPurgeDetail
      → Prog (Store G) RetentionPurgeDetail
  unfolding delete_slices
  delete_rows document versions d = do
    links ← delete_slices delete_links (slices versions)
    records ← delete_slices (λ keys. delete_records (is_version_of keys)) (slices versions)
    object_records ←
        delete_slices (λ keys. delete_records (is_object_of keys)) (slices d.objects_deleted)
    objects ← delete_slices delete_objects (singles d.objects_deleted)
    states ← deleting (is_state_of document) (λ s. s.states) (λ rows s. record s { states = rows })
    done (record d {
      record_object_rows_deleted = links;
      versions_deleted = records;
      object_record_rows_deleted = object_records;
      object_rows_deleted = objects;
      state_rows_deleted = states;
    })

  -- step 4
  unfoldable pub delete_vectors :
      VectorIndex G
      → (document : String) → (versions : List String) → RetentionPurgeDetail
      → Prog (Store G) RetentionPurgeDetail
  delete_vectors index document [] d = done d
  delete_vectors index document (v ∷ vs) d = do
    _ ← exec (λ s. record s { vectors = index.delete_by_ids document v s.vectors })
    delete_vectors index document vs
        (record d { vectors_deleted = d.vectors_deleted + index.vector_count document v })

  -- UPDATE ... WHERE document_id = ? AND status = 'EXPIRED'
  unfoldable pub flip_row : (document : String) → ℕ → RetentionPurgeDetail → Store G → Store G
  unfolding update_row
  flip_row document now d s = record s {
    retention = update_row document (purged_row now d) s.retention;
  }

  unfoldable pub flip :
      (document : String) → ℕ → RetentionPurgeDetail → Prog (Store G) RetentionPurgeDetail
  unfolding flip_row
  flip document now d = do
    flipped ←
        batch_result (λ s. some (flip_row document now d s))
          (λ s. row_is_expired (lookup document s.retention))
    case_option flipped (fail store_unavailable)
        λ one. when one then done d else fail integrity_failed

  -- `purgeExpiredDocument`
  unfoldable pub purge_expired_document :
      VectorIndex G → (document : String) → RetentionRow → ℕ → Prog (Store G) RetentionPurgeDetail
  unfolding delete_contents delete_journals delete_rows delete_vectors flip
  purge_expired_document index document row now = do
    contents ← delete_contents row.version_ids row.content_sha256s no_detail
    journals ← delete_journals row.journal_message_ids contents
    rows ← delete_rows document row.version_ids journals
    vectors ← delete_vectors index document row.version_ids rows
    flip document now vectors
