-- ===== src/Retention/Again.antt =====
-- `markExpiredDocument` (src/research-retention.ts) with nothing in between, and of a document that
-- was purged before.
use quantpro_collector.Prelude.{
  ℕ, suc, ◌≡◌, ap, ◌∙◌, false, some, List, [], ◌∷◌, ◌++◌, map, String, filter,
}
use quantpro_collector.Db.Table.{lookup}
use quantpro_collector.Db.Prog.{Prog, ok, alone, run, ◌>>=◌}
use quantpro_collector.Db.Prog.Alone.{run_alone}
use quantpro_collector.Db.Prog.Bind.{run-bind, continue_with, continue-ok}
use quantpro_collector.Retention.Rows.{RetentionRow, Store, is_expired, slices}
use quantpro_collector.Retention.Mark.{
  RetentionCandidate, MarkedVersionCapture, distinct, is_public_version, is_message_of,
  is_content_of, is_none, marked_row, select_slices, capture_versions, insert_marked, retire_states,
  mark_captured, mark_expired_document, list_expired_pending_purge,
}
use quantpro_collector.State.History.{insert_or_ignore_taken}

module _ {G : Type 0} where
  abbrev all_slices :
      (List String → Store G → List String) → List (List String) → Store G → List String
  all_slices ask [] s = []
  all_slices ask (v ∷ vs) s = ask v s ++ all_slices ask vs s

  select_slices-alone :
      (n : ℕ) (ask : List String → Store G → List String) (vs : List (List String)) (s : Store G)
      → run alone n (select_slices ask vs) s ≡ (ok (all_slices ask vs s), s)
  unfolding select_slices
  select_slices-alone n ask [] s = simp run_alone
  select_slices-alone n ask (v ∷ vs) s =
      simp (run_alone, run-bind, select_slices-alone (suc n) ask vs s, continue-ok)

  -- what a mark captures
  unfoldable pub capture_of : String → Store G → MarkedVersionCapture
  capture_of document s =
      let versions = map (λ r. r.record_key) (filter (is_public_version document) s.records) in
      record {
        version_ids = versions;
        journal_message_ids =
            all_slices
              (λ keys s.
                distinct (map (λ m. m.message_id) (filter (is_message_of keys) s.messages)))
              (slices versions) s;
        content_sha256s =
            all_slices
              (λ keys s.
                distinct (map (λ l. l.content_sha256) (filter (is_content_of keys) s.links)))
              (slices versions) s;
      }

  selected :
      {B : Type 0} (n : ℕ) (ask : List String → Store G → List String) (vs : List (List String))
      (k : List String → Prog (Store G) B) (s : Store G)
      → run alone n (select_slices ask vs >>= k) s ≡ run alone 0 (k (all_slices ask vs s)) s
  selected n ask vs k s =
      run-bind n (select_slices ask vs) k s
      ∙ ap (continue_with k) (select_slices-alone n ask vs s)
      ∙ continue-ok k (all_slices ask vs s) s

  capture_versions-alone :
      (document : String) (s : Store G)
      → run alone 0 (capture_versions document) s ≡ (ok (capture_of document s), s)
  unfolding capture_versions capture_of
  capture_versions-alone document s = simp (run_alone, selected)

  mark_captured-alone :
      (c : RetentionCandidate) (now : ℕ) (v : MarkedVersionCapture) (s : Store G)
      → run alone 0 (mark_captured c now v) s ≡ (
        ok (is_none (lookup c.document_id s.retention)),
        retire_states c.document_id now (insert_marked c v now s),
      )
  unfolding mark_captured
  mark_captured-alone c now v s = simp run_alone

  pub mark_expired_document-alone :
      (c : RetentionCandidate) (now : ℕ) (s : Store G)
      → run alone 0 (mark_expired_document c now) s ≡ (
        ok (is_none (lookup c.document_id s.retention)),
        retire_states c.document_id now (insert_marked c (capture_of c.document_id s) now s),
      )
  unfolding mark_expired_document
  mark_expired_document-alone c now s =
      run-bind 0 (capture_versions c.document_id) (mark_captured c now) s
      ∙ ap (continue_with (mark_captured c now)) (capture_versions-alone c.document_id s)
      ∙ continue-ok (mark_captured c now) (capture_of c.document_id s) s
      ∙ mark_captured-alone c now (capture_of c.document_id s) s

  -- If a document that was purged comes back and expires again, then marking it, with nothing else
  -- running and no access failing, only retires its index rows: it answers that nothing was marked,
  -- and neither the retention table nor the queue of the purge changes.
  pub mark_expired_document_again :
      (c : RetentionCandidate) (now limit : ℕ) (s : Store G) (r : RetentionRow)
      → lookup c.document_id s.retention ≡ some r
      → is_expired r.status ≡ false
      → let out = run alone 0 (mark_expired_document c now) s in
        (out ≡ (ok false, retire_states c.document_id now s))
        × (list_expired_pending_purge limit out.1 ≡ list_expired_pending_purge limit s)
  unfolding insert_marked list_expired_pending_purge retire_states
  mark_expired_document_again c now limit s r h p =
      let row = marked_row c (capture_of c.document_id s) now in
      let same : insert_marked c (capture_of c.document_id s) now s ≡ s =
        ap (λ t. record s { retention = t })
          (insert_or_ignore_taken c.document_id row r s.retention h) in
      let whole =
        mark_expired_document-alone c now s
        ∙ ap
            (λ t.
              (ok (is_none (lookup c.document_id s.retention)), retire_states c.document_id now t))
            same
        ∙ ap (λ o. (ok (is_none o), retire_states c.document_id now s)) h in
      (whole, ap (λ x. list_expired_pending_purge limit x.1) whole)
