-- ===== src/Retention/Calls.antt =====
-- Whole calls of `markExpiredDocument` and `purgeExpiredDocument` (src/research-retention.ts),
-- whatever runs between their accesses.
use mathlib.Core.Option.{some-injective}
use quantpro_collector.Prelude.{ℕ, ◌≡◌, refl, subst, Bool, not, List, [], ◌∷◌, some, String, filter}
use quantpro_collector.Db.Table.{lookup}
use quantpro_collector.Db.Prog.{Prog, exec}
use quantpro_collector.Db.Prog.Keeps.{
  Keeps, Keeps-done, Keeps-fail, Keeps-exec, Keeps-select, Keeps-batch_result, Keeps-bind,
  Keeps-option, Keeps-when, keeps_rules,
}
use quantpro_collector.Retention.Rows.{
  ResearchRecord, is_in, RetentionRow, RetentionPurgeDetail, Store, slices,
}
use quantpro_collector.Retention.Purge.{
  VectorIndex, count_references, delete_contents, delete_journals, deleting, delete_slices,
  delete_rows, delete_vectors, flip, purge_expired_document, delete_links, delete_records,
  delete_objects, flip_row, is_link_of, is_version_of, is_object_of, is_state_of, singles,
}
use quantpro_collector.Retention.Mark.{
  RetentionCandidate, MarkedVersionCapture, select_slices, capture_versions, mark_captured,
  mark_expired_document, insert_marked, retire_states,
}
use quantpro_collector.Retention.History.{
  History, History-flip_row, History-insert_marked, History-beside, itself-Follows,
}

module _ {G : Type 0} {before : Store G} where
  committed :
      (f : Store G → Store G) (s t : Store G)
      → ((u : Store G) → History before u → History before (f u))
      → History before s
      → some (f s) ≡ some t
      → History before t
  committed f s t h p e = subst (History before) (some-injective _ _ e) (h s p)

  pub Keeps-beside :
      (f : Store G → Store G)
      → ((s : Store G) → (f s).retention ≡ s.retention)
      → Keeps (History before) (exec f)
  Keeps-beside f e = Keeps-exec f (History-beside f e)

  Keeps-count_references :
      (c : String) (vs : List (List String)) → Keeps (History before) (count_references c vs)
  unfolding count_references
  Keeps-count_references c [] = Keeps-done _
  Keeps-count_references c (v ∷ vs) =
      Keeps-bind _ _ (Keeps-select _)
        λ here. Keeps-bind _ _ (Keeps-count_references c vs) (λ rest. Keeps-done _)

  Keeps-delete_contents :
      (versions cs : List String) (d : RetentionPurgeDetail)
      → Keeps (History before) (delete_contents versions cs d)
  unfolding delete_contents
  Keeps-delete_contents versions [] d = Keeps-done _
  Keeps-delete_contents versions (c ∷ cs) d =
      Keeps-bind _ _ (Keeps-count_references c (slices versions)) λ n.
        Keeps-when _ _ _ (λ h. Keeps-delete_contents versions cs _)
          λ h.
            Keeps-bind _ _ (Keeps-beside _ (λ t. refl)) (λ u. Keeps-delete_contents versions cs _)

  Keeps-delete_journals :
      (ms : List String) (d : RetentionPurgeDetail) → Keeps (History before) (delete_journals ms d)
  unfolding delete_journals
  Keeps-delete_journals [] d = Keeps-done _
  Keeps-delete_journals (m ∷ ms) d =
      Keeps-bind _ _ (Keeps-beside _ (λ t. refl)) (λ u. Keeps-delete_journals ms _)

  Keeps-deleting :
      {A : Type 0} (gone : A → Bool) (rows : Store G → List A) (put : List A → Store G → Store G)
      → ((l : List A) (s : Store G) → (put l s).retention ≡ s.retention)
      → Keeps (History before) (deleting gone rows put)
  unfolding deleting
  Keeps-deleting gone rows put e =
      Keeps-bind _ _
        (Keeps-batch_result _ _ (λ s t p x.
          committed (λ u. put (filter (λ r. not (gone r)) (rows u)) u) s t
            (History-beside (λ u. put (filter (λ r. not (gone r)) (rows u)) u) (λ u. e _ u)) p x))
        (λ changes. Keeps-option changes _ _ (Keeps-fail _) (λ n. Keeps-done n))

  Keeps-delete_slices :
      (delete : List String → Prog (Store G) ℕ)
      → ((keys : List String) → Keeps (History before) (delete keys))
      → (vs : List (List String)) → Keeps (History before) (delete_slices delete vs)
  unfolding delete_slices
  Keeps-delete_slices delete h [] = Keeps-done _
  Keeps-delete_slices delete h (v ∷ vs) =
      Keeps-bind _ _ (h v)
        λ here. Keeps-bind _ _ (Keeps-delete_slices delete h vs) (λ rest. Keeps-done _)

  Keeps-delete_links : (keys : List String) → Keeps (History before) (delete_links keys)
  Keeps-delete_links keys =
      Keeps-deleting (is_link_of keys) (λ s. s.links) (λ rows s. record s { links = rows })
        (λ l s. refl)

  Keeps-delete_records :
      (gone : ResearchRecord → Bool) → Keeps (History before) (delete_records gone)
  Keeps-delete_records gone =
      Keeps-deleting gone (λ s. s.records) (λ rows s. record s { records = rows }) (λ l s. refl)

  Keeps-delete_objects : (keys : List String) → Keeps (History before) (delete_objects keys)
  Keeps-delete_objects keys =
      Keeps-deleting (is_in keys) (λ s. s.objects) (λ rows s. record s { objects = rows })
        (λ l s. refl)

  Keeps-delete_rows :
      (document : String) (versions : List String) (d : RetentionPurgeDetail)
      → Keeps (History before) (delete_rows document versions d)
  unfolding delete_rows
  Keeps-delete_rows document versions d =
      Keeps-bind _ _ (Keeps-delete_slices delete_links Keeps-delete_links (slices versions))
        λ links.
          Keeps-bind _ _
            (Keeps-delete_slices (λ keys. delete_records (is_version_of keys))
              (λ keys. Keeps-delete_records (is_version_of keys)) (slices versions))
            λ records.
              Keeps-bind _ _
                (Keeps-delete_slices (λ keys. delete_records (is_object_of keys))
                  (λ keys. Keeps-delete_records (is_object_of keys)) (slices d.objects_deleted))
                λ object_records.
                  Keeps-bind _ _
                    (Keeps-delete_slices delete_objects Keeps-delete_objects
                      (singles d.objects_deleted))
                    λ objects.
                      Keeps-bind _ _
                        (Keeps-deleting (is_state_of document) (λ s. s.states)
                          (λ rows s. record s { states = rows }) (λ l s. refl))
                        (λ states. Keeps-done _)

  Keeps-delete_vectors :
      (index : VectorIndex G) (document : String) (vs : List String) (d : RetentionPurgeDetail)
      → Keeps (History before) (delete_vectors index document vs d)
  unfolding delete_vectors
  Keeps-delete_vectors index document [] d = Keeps-done _
  Keeps-delete_vectors index document (v ∷ vs) d =
      Keeps-bind _ _ (Keeps-beside _ (λ t. refl)) (λ u. Keeps-delete_vectors index document vs _)

  Keeps-flip :
      (document : String) (now : ℕ) (d : RetentionPurgeDetail)
      → Keeps (History before) (flip document now d)
  unfolding flip
  Keeps-flip document now d =
      Keeps-bind _ _
        (Keeps-batch_result _ _ (λ s t p e.
          committed (flip_row document now d) s t (History-flip_row document now d) p e))
        λ flipped. search keeps_rules depth 12

  pub Keeps-purge :
      (index : VectorIndex G) (document : String) (row : RetentionRow) (now : ℕ)
      → Keeps (History before) (purge_expired_document index document row now)
  unfolding purge_expired_document
  Keeps-purge index document row now =
      Keeps-bind _ _ (Keeps-delete_contents row.version_ids row.content_sha256s _) λ c.
        Keeps-bind _ _ (Keeps-delete_journals row.journal_message_ids c) λ j.
          Keeps-bind _ _ (Keeps-delete_rows document row.version_ids j) λ r.
            Keeps-bind _ _ (Keeps-delete_vectors index document row.version_ids r)
              (λ v. Keeps-flip document now v)

  Keeps-select_slices :
      (ask : List String → Store G → List String) (vs : List (List String))
      → Keeps (History before) (select_slices ask vs)
  unfolding select_slices
  Keeps-select_slices ask [] = Keeps-done _
  Keeps-select_slices ask (v ∷ vs) =
      Keeps-bind _ _ (Keeps-select _)
        λ here. Keeps-bind _ _ (Keeps-select_slices ask vs) (λ rest. Keeps-done _)

  Keeps-capture_versions : (document : String) → Keeps (History before) (capture_versions document)
  unfolding capture_versions
  Keeps-capture_versions document = Keeps-bind _ _ (Keeps-select _) λ versions.
      Keeps-bind _ _ (Keeps-select_slices _ _)
        λ journals. Keeps-bind _ _ (Keeps-select_slices _ _) (λ contents. Keeps-done _)

  Keeps-mark_captured :
      (c : RetentionCandidate) (now : ℕ) (v : MarkedVersionCapture)
      → Keeps (History before) (mark_captured c now v)
  unfolding mark_captured retire_states
  Keeps-mark_captured c now v =
      Keeps-bind _ _
        (Keeps-batch_result _ _
          (λ s t p e. committed (insert_marked c v now) s t (History-insert_marked c v now) p e))
        λ inserted.
          Keeps-option inserted _ _ (Keeps-fail _)
            λ fresh. Keeps-bind _ _ (Keeps-beside _ (λ s. refl)) (λ u. Keeps-done fresh)

  pub Keeps-mark :
      (c : RetentionCandidate) (now : ℕ) → Keeps (History before) (mark_expired_document c now)
  unfolding mark_expired_document
  Keeps-mark c now =
      Keeps-bind _ _ (Keeps-capture_versions c.document_id) (λ v. Keeps-mark_captured c now v)

pub itself-History : {G : Type 0} (s : Store G) → History s s
itself-History s = record { follows = λ document. itself-Follows (lookup document s.retention) }
