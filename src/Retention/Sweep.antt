-- ===== src/Retention/Sweep.antt =====
-- `runRetentionSweep` of `src/research-retention.ts`. What an access that fails throws leaves the
-- sweep as it is: the source logs it, and gives it the code STORE_UNAVAILABLE.
use quantpro_collector.Prelude.{
  ℕ, suc, ◌+◌, Bool, true, false, Option, some, List, [], ◌∷◌, ◌++◌, map, length, String,
  if◌then◌else◌,
}
use quantpro_collector.Db.Table.{Table}
use quantpro_collector.Db.Prog.{
  Prog, done, fail, integrity_failed, select, exec, case_option, when◌then◌else◌, ◌>>=◌,
}
use quantpro_collector.Retention.Rows.{RetentionRow, RetentionPurgeDetail, RetentionAudit, Store}
use quantpro_collector.Retention.Purge.{VectorIndex, purge_expired_document}
use quantpro_collector.Retention.Mark.{
  RetentionCandidate, mark_expired_document, list_expired_pending_purge,
}
use quantpro_collector.Retention.Scan.{
  clamp_int, retention_cutoff, retention_mark_page, retention_mark_page_max,
  scan_retention_candidates,
}

pub record SweepOptions : Type 0 where
  pub is_scheduled : Bool
  pub dry_run : Bool
  -- `none` for a text that is no date
  pub now : Option ℕ
  pub max_mark : Option ℕ
  pub max_purge : Option ℕ

pub record PendingPurge : Type 0 where
  pub document_id : String
  pub reason : String
  pub marked_at : ℕ
  pub version_count : ℕ

pub record RetentionRunReport : Type 0 where
  pub is_scheduled : Bool
  pub dry_run : Bool
  pub cutoff : ℕ
  pub scanned_documents : ℕ
  pub would_mark : List RetentionCandidate
  pub already_expired_pending_purge : List PendingPurge
  pub marked_expired : ℕ
  pub purge_candidates : ℕ
  pub purged_documents : ℕ
  pub purge : List RetentionPurgeDetail
  -- VECTORIZE_BINDING_UNAVAILABLE
  pub purge_skipped : Bool

abbrev pub empty_report : SweepOptions → ℕ → RetentionRunReport
unfolding retention_cutoff
empty_report o now = record {
  is_scheduled = o.is_scheduled;
  dry_run = o.dry_run;
  cutoff = retention_cutoff now;
  scanned_documents = 0;
  would_mark = [];
  already_expired_pending_purge = [];
  marked_expired = 0;
  purge_candidates = 0;
  purged_documents = 0;
  purge = [];
  purge_skipped = false;
}

abbrev pub scanned_report : SweepOptions → (now scanned : ℕ) → RetentionRunReport
scanned_report o now scanned = record (empty_report o now) { scanned_documents = scanned }

abbrev pub mark_bound : SweepOptions → ℕ
unfolding clamp_int
mark_bound o = clamp_int o.max_mark retention_mark_page 1 retention_mark_page_max

abbrev pub pending_of : String × RetentionRow → PendingPurge
pending_of (d, r) = record {
  document_id = d;
  reason = r.reason;
  marked_at = r.marked_at;
  version_count = length r.version_ids;
}

abbrev sum : List ℕ → ℕ
sum [] = 0
sum (n ∷ ns) = n + sum ns

-- the row that `writeRetentionAudit` inserts
abbrev pub audit_row : RetentionRunReport → ℕ → RetentionAudit
audit_row r now = record {
  run_at = now;
  is_scheduled = r.is_scheduled;
  dry_run = r.dry_run;
  document_count =
      if r.dry_run
      then length r.would_mark + length r.already_expired_pending_purge
      else r.marked_expired + r.purged_documents;
  version_count =
      if r.dry_run
      then sum (
          map (λ c. c.version_count) r.would_mark
          ++ map (λ p. p.version_count) r.already_expired_pending_purge)
      else sum (map (λ d. d.versions_deleted) r.purge);
  r2_object_count = sum (map (λ d. length d.objects_deleted) r.purge);
  vector_count = sum (map (λ d. d.vectors_deleted) r.purge);
}

-- `RETENTION_PURGE_PAGE` and `RETENTION_PURGE_PAGE_MAX`
abbrev pub purge_bound : SweepOptions → ℕ
unfolding clamp_int
purge_bound o = clamp_int o.max_purge 20 1 100

module _ {G : Type 0} where
  unfoldable pub insert_audit : RetentionRunReport → ℕ → Store G → Store G
  insert_audit r now s = record s { audits = s.audits ++ audit_row r now ∷ [] }

  -- `writeRetentionAudit`, behind which the report is returned
  unfoldable pub write_retention_audit : ℕ → RetentionRunReport → Prog (Store G) RetentionRunReport
  unfolding insert_audit
  write_retention_audit now r = do _ ← exec (insert_audit r now); done r

  -- how many of the candidates were marked
  unfoldable pub mark_all : ℕ → List RetentionCandidate → Prog (Store G) ℕ
  unfolding mark_expired_document
  mark_all now [] = done 0
  mark_all now (c ∷ cs) = do
    fresh ← mark_expired_document c now
    rest ← mark_all now cs
    done (if fresh then suc rest else rest)

  unfoldable pub purge_all :
      VectorIndex G → ℕ → Table RetentionRow → Prog (Store G) (List RetentionPurgeDetail)
  unfolding purge_expired_document
  purge_all index now [] = done []
  purge_all index now ((d, row) ∷ rows) = do
    detail ← purge_expired_document index d row now
    rest ← purge_all index now rows
    done (detail ∷ rest)

  unfoldable pub dry_sweep :
      SweepOptions
      → ℕ
      → RetentionRunReport
      → List RetentionCandidate
      → Prog (Store G) RetentionRunReport
  unfolding write_retention_audit list_expired_pending_purge clamp_int
  dry_sweep o now report candidates = do
    pending ← select (list_expired_pending_purge (purge_bound o))
    write_retention_audit now (record report {
      would_mark = candidates;
      already_expired_pending_purge = map pending_of pending;
    })

  unfoldable pub real_sweep :
      Option (VectorIndex G)
      → SweepOptions
      → ℕ
      → RetentionRunReport
      → List RetentionCandidate
      → Prog (Store G) RetentionRunReport
  unfolding write_retention_audit list_expired_pending_purge clamp_int mark_all purge_all
  real_sweep index o now report candidates = do
    marked ← mark_all now candidates
    purgeable ← select (list_expired_pending_purge (purge_bound o))
    let listed = record report { marked_expired = marked; purge_candidates = length purgeable }
    case_option index (write_retention_audit now (record listed { purge_skipped = true })) λ i. do
      details ← purge_all i now purgeable
      write_retention_audit now
          (record listed { purge = details; purged_documents = length details })

  -- `runRetentionSweep`
  unfoldable pub run_retention_sweep :
      (date_parse : String → Option ℕ)
      → Option (VectorIndex G)
      → SweepOptions
      → Prog (Store G) RetentionRunReport
  unfolding scan_retention_candidates dry_sweep real_sweep clamp_int
  run_retention_sweep date_parse index o = case_option o.now (fail integrity_failed) λ now. do
    scan ← scan_retention_candidates date_parse now (some (mark_bound o))
    when o.dry_run
        then dry_sweep o now (scanned_report o now scan.1) scan.0
        else real_sweep index o now (scanned_report o now scan.1) scan.0
