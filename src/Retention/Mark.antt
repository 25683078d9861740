-- ===== src/Retention/Mark.antt =====
-- `retentionExpiryReason`, `markExpiredDocument` and `listExpiredPendingPurge` of
-- `src/research-retention.ts`.
use quantpro_collector.Prelude.{
  ℕ, Bool, true, false, not, ◌&&◌, ◌||◌, Option, none, some, List, [], ◌∷◌, ◌++◌, map, String,
  str_eq, ltb, ◌==◌, filter, take, if◌then◌else◌, codes,
}
use quantpro_collector.Db.Table.{Table, lookup}
use quantpro_collector.Db.Prog.{
  Prog, done, fail, store_unavailable, select, exec, batch_result, case_option, ◌>>=◌,
}
use quantpro_collector.State.Receipts.{insert_or_ignore}
use quantpro_collector.Kv.{before}
use quantpro_collector.Retention.Rows.{
  ResearchRecord, IngestMessage, RecordObject, SemanticState, RetentionRow, Store, expired,
  is_expired, is_in, slices, retention_expired_error_code,
}

-- a document that the scan found
pub record RetentionCandidate : Type 0 where
  pub document_id : String
  pub source_id : Option String
  pub first_ingested_at : Option String
  pub reason : String
  pub version_count : ℕ

pub record MarkedVersionCapture : Type 0 where
  pub version_ids : List String
  pub journal_message_ids : List String
  pub content_sha256s : List String

abbrev is_forced : Option String → Bool
is_forced none = false
is_forced (some source) = str_eq source "E02-gelonghui-live"

abbrev or_empty : Option String → String
or_empty none = ""
or_empty (some s) = s

-- `retentionExpiryReason`; `date_parse` is `Date.parse`, `none` where that is no number
unfoldable pub retention_expiry_reason :
    (date_parse : String → Option ℕ)
    → (source_id first_ingested_at : Option String) → (cutoff : ℕ) → Option String
retention_expiry_reason date_parse source first cutoff =
    if is_forced source
    then some "SOURCE_E02_GELONGHUI_LIVE"
    else elim (date_parse (or_empty first)) [
      | none ↦ none
      | some t ↦ if ltb t cutoff then some "AGE_90D" else none
    ]

-- SELECT DISTINCT
abbrev pub distinct : List String → List String
distinct [] = []
distinct (x ∷ xs) = x ∷ filter (λ y. not (str_eq y x)) (distinct xs)

abbrev pub is_public_version : String → ResearchRecord → Bool
is_public_version document r =
    str_eq r.record_type "document_version"
    && r.is_public
    && elim r.document_id [ none ↦ false | some d ↦ str_eq d document ]

abbrev pub is_message_of : List String → IngestMessage → Bool
is_message_of keys m = str_eq m.record_type "document_version" && is_in keys m.record_key

abbrev pub is_content_of : List String → RecordObject → Bool
is_content_of keys l = str_eq l.record_type "document_version" && is_in keys l.record_key

abbrev pub retire : String → ℕ → SemanticState → SemanticState
retire document now r =
    if r.is_public && str_eq r.document_id document
    then record r {
      state = "FAILED";
      expected_chunks = 0;
      confirmed_chunks = 0;
      last_error_code = some retention_expired_error_code;
      retired_at = some (elim r.retired_at [ none ↦ now | some t ↦ t ]);
      updated_at = now;
    }
    else r

abbrev pub marked_row : RetentionCandidate → MarkedVersionCapture → ℕ → RetentionRow
marked_row c v now = record {
  source_id = c.source_id;
  reason = c.reason;
  first_ingested_at = c.first_ingested_at;
  version_ids = v.version_ids;
  journal_message_ids = v.journal_message_ids;
  content_sha256s = v.content_sha256s;
  status = expired;
  marked_at = now;
  purged_at = none;
  purge_detail = none;
}

abbrev pub is_none : {A : Type 0} → Option A → Bool
is_none none = true
is_none (some a) = false

-- ORDER BY marked_at, document_id
abbrev queued_before : String × RetentionRow → String × RetentionRow → Bool
queued_before (d, r) (e, q) =
    ltb r.marked_at q.marked_at || (r.marked_at == q.marked_at && before (codes d) (codes e))

unfoldable pub insert_queued : String × RetentionRow → Table RetentionRow → Table RetentionRow
insert_queued r [] = r ∷ []
insert_queued r (q ∷ qs) = if queued_before r q then r ∷ (q ∷ qs) else q ∷ insert_queued r qs

unfoldable pub sort_queued : Table RetentionRow → Table RetentionRow
unfolding insert_queued
sort_queued [] = []
sort_queued (r ∷ rs) = insert_queued r (sort_queued rs)

module _ {G : Type 0} where
  -- one SELECT for every slice of the keys
  unfoldable pub select_slices :
      (List String → Store G → List String) → List (List String) → Prog (Store G) (List String)
  select_slices ask [] = done []
  select_slices ask (v ∷ vs) = do
    here ← select (ask v)
    rest ← select_slices ask vs
    done (here ++ rest)

  -- `captureVersions`
  unfoldable pub capture_versions : (document : String) → Prog (Store G) MarkedVersionCapture
  unfolding select_slices
  capture_versions document = do
    versions ← select (λ s. map (λ r. r.record_key) (filter (is_public_version document) s.records))
    journals ←
        select_slices
          (λ keys s. distinct (map (λ m. m.message_id) (filter (is_message_of keys) s.messages)))
          (slices versions)
    contents ←
        select_slices
          (λ keys s. distinct (map (λ l. l.content_sha256) (filter (is_content_of keys) s.links)))
          (slices versions)
    done (record {
      version_ids = versions;
      journal_message_ids = journals;
      content_sha256s = contents;
    })

  -- INSERT ... ON CONFLICT(document_id) DO NOTHING
  unfoldable pub insert_marked : RetentionCandidate → MarkedVersionCapture → ℕ → Store G → Store G
  unfolding insert_or_ignore
  insert_marked c v now s = record s {
    retention = insert_or_ignore c.document_id (marked_row c v now) s.retention;
  }

  unfoldable pub retire_states : (document : String) → ℕ → Store G → Store G
  retire_states document now s = record s { states = map (retire document now) s.states }

  -- behind the capture
  unfoldable pub mark_captured : RetentionCandidate → ℕ → MarkedVersionCapture → Prog (Store G) Bool
  unfolding insert_marked retire_states
  mark_captured c now v = do
    inserted ←
        batch_result (λ s. some (insert_marked c v now s))
          (λ s. is_none (lookup c.document_id s.retention))
    case_option inserted (fail store_unavailable)
        λ fresh. do _ ← exec (retire_states c.document_id now); done fresh

  -- `markExpiredDocument`
  unfoldable pub mark_expired_document : RetentionCandidate → ℕ → Prog (Store G) Bool
  unfolding capture_versions mark_captured
  mark_expired_document c now = do
    captured ← capture_versions c.document_id
    mark_captured c now captured

  -- `listExpiredPendingPurge`
  unfoldable pub list_expired_pending_purge : ℕ → Store G → Table RetentionRow
  unfolding sort_queued
  list_expired_pending_purge limit s =
      take limit (sort_queued (filter (λ e. is_expired e.1.status) s.retention))
