-- ===== src/Retention/Swept.antt =====
-- Whole sweeps of `src/research-retention.ts`, whatever runs between their accesses.
use quantpro_collector.Prelude.{ℕ, zero, suc, refl, Option, some, List, [], ◌∷◌, String}
use quantpro_collector.Db.Table.{Table}
use quantpro_collector.Db.Prog.{World, run}
use quantpro_collector.Db.Prog.Keeps.{
  Keeps, Respects, run-Keeps, Keeps-done, Keeps-fail, Keeps-select, Keeps-bind, Keeps-option,
  Keeps-when,
}
use quantpro_collector.Retention.Rows.{RetentionRow, Store}
use quantpro_collector.Retention.Purge.{VectorIndex, purge_expired_document}
use quantpro_collector.Retention.Mark.{RetentionCandidate, mark_expired_document}
use quantpro_collector.Retention.Scan.{ScanRow, scan_pages, scan_retention_candidates}
use quantpro_collector.Retention.Sweep.{
  SweepOptions, RetentionRunReport, write_retention_audit, insert_audit, mark_all, purge_all,
  dry_sweep, real_sweep, run_retention_sweep, mark_bound, scanned_report,
}
use quantpro_collector.Retention.History.{History}
use quantpro_collector.Retention.Calls.{Keeps-beside, Keeps-purge, Keeps-mark, itself-History}

module _ {G : Type 0} {before : Store G} where
  Keeps-scan_pages :
      (judge : ScanRow → Option String) (limit pages : ℕ) (cursor : String)
      (cs : List RetentionCandidate) (scanned : ℕ)
      → Keeps (History before) (scan_pages judge limit pages cursor cs scanned)
  unfolding scan_pages
  Keeps-scan_pages judge limit zero cursor cs scanned = Keeps-done _
  Keeps-scan_pages judge limit (suc pages) cursor cs scanned =
      Keeps-bind _ _ (Keeps-select _) λ rows.
        Keeps-when _ _ _ (λ h. Keeps-done _)
          λ h. Keeps-when _ _ _ (λ k. Keeps-done _) (λ k. Keeps-scan_pages judge limit pages _ _ _)

  Keeps-scan :
      (date_parse : String → Option ℕ) (now : ℕ) (limit : Option ℕ)
      → Keeps (History before) (scan_retention_candidates date_parse now limit)
  unfolding scan_retention_candidates
  Keeps-scan date_parse now limit = search Keeps-scan_pages

  Keeps-write_retention_audit :
      (now : ℕ) (r : RetentionRunReport) → Keeps (History before) (write_retention_audit now r)
  unfolding write_retention_audit insert_audit
  Keeps-write_retention_audit now r =
      Keeps-bind _ _ (Keeps-beside _ (λ s. refl)) (λ u. Keeps-done r)

  Keeps-mark_all :
      (now : ℕ) (cs : List RetentionCandidate) → Keeps (History before) (mark_all now cs)
  unfolding mark_all
  Keeps-mark_all now [] = Keeps-done _
  Keeps-mark_all now (c ∷ cs) =
      Keeps-bind _ _ (Keeps-mark c now)
        λ fresh. Keeps-bind _ _ (Keeps-mark_all now cs) (λ rest. Keeps-done _)

  Keeps-purge_all :
      (index : VectorIndex G) (now : ℕ) (rows : Table RetentionRow)
      → Keeps (History before) (purge_all index now rows)
  unfolding purge_all
  Keeps-purge_all index now [] = Keeps-done _
  Keeps-purge_all index now ((d, row) ∷ rows) =
      Keeps-bind _ _ (Keeps-purge index d row now)
        λ detail. Keeps-bind _ _ (Keeps-purge_all index now rows) (λ rest. Keeps-done _)

  Keeps-dry_sweep :
      (o : SweepOptions) (now : ℕ) (report : RetentionRunReport) (cs : List RetentionCandidate)
      → Keeps (History before) (dry_sweep o now report cs)
  unfolding dry_sweep
  Keeps-dry_sweep o now report cs =
      Keeps-bind _ _ (Keeps-select _) (λ pending. Keeps-write_retention_audit now _)

  Keeps-real_sweep :
      (index : Option (VectorIndex G)) (o : SweepOptions) (now : ℕ) (report : RetentionRunReport)
      (cs : List RetentionCandidate)
      → Keeps (History before) (real_sweep index o now report cs)
  unfolding real_sweep
  Keeps-real_sweep index o now report cs = Keeps-bind _ _ (Keeps-mark_all now cs) λ marked.
      Keeps-bind _ _ (Keeps-select _) λ purgeable.
        Keeps-option index _ _ (Keeps-write_retention_audit now _) λ i.
          Keeps-bind _ _ (Keeps-purge_all i now purgeable)
            (λ details. Keeps-write_retention_audit now _)

  Keeps-sweep :
      (date_parse : String → Option ℕ) (index : Option (VectorIndex G)) (o : SweepOptions)
      → Keeps (History before) (run_retention_sweep date_parse index o)
  unfolding run_retention_sweep
  Keeps-sweep date_parse index o = Keeps-option o.now _ _ (Keeps-fail _) λ now.
      Keeps-bind _ _ (Keeps-scan date_parse now (some (mark_bound o))) λ scan.
        Keeps-when _ _ _ (λ h. Keeps-dry_sweep o now (scanned_report o now scan.1) scan.0)
          (λ h. Keeps-real_sweep index o now (scanned_report o now scan.1) scan.0)

-- Whatever other calls do in between and whichever accesses fail: neither marking a document, nor
-- purging one, nor a whole sweep loses a row of the retention table, changes what a row captured
-- for its purge, or touches a row that is PURGED, if the other calls do so.
pub run_retention_sweep-History :
    {G : Type 0} (date_parse : String → Option ℕ) (index : VectorIndex G)
    (deps : Option (VectorIndex G)) (o : SweepOptions) (w : World (Store G)) (document : String)
    (row : RetentionRow) (c : RetentionCandidate) (now : ℕ) (before : Store G)
    → Respects (History before) w
    → History before (run w 0 (mark_expired_document c now) before).1
      × History before (run w 0 (purge_expired_document index document row now) before).1
      × History before (run w 0 (run_retention_sweep date_parse deps o) before).1
run_retention_sweep-History date_parse index deps o w document row c now before others =
    let start = itself-History before in
    (
      run-Keeps w 0 (mark_expired_document c now) before others (Keeps-mark c now) start,
      run-Keeps w 0 (purge_expired_document index document row now) before others
          (Keeps-purge index document row now) start,
      run-Keeps w 0 (run_retention_sweep date_parse deps o) before others
          (Keeps-sweep date_parse deps o) start,
    )
