-- ===== src/State/Outcome.antt =====
-- `appendStateBatch` (src/state-gateway.ts) with nothing else running: the answer for every state
-- of the receipt.
use quantpro_collector.Prelude.{
  ◌≡◌, refl, ap, ◌∙◌, Bool, true, false, not, ◌&&◌, ◌||◌, some, String, eq_refl, arith,
  if◌then◌else◌, Bool-cases, inl, inr,
}
use quantpro_collector.Db.Prog.{ok, alone, run}
use quantpro_collector.Db.Prog.Alone.{run_alone}
use quantpro_collector.Db.Prog.Bind.{run-alone_from, run-bind, continue_with, continue-ok}
use quantpro_collector.State.Errors.{state_conflict, state_unavailable, map_domain_error}
use quantpro_collector.State.Receipts.{
  Store, Reservation, StateWriteReceipt, WriteRequest, Finish, same_write, is_settled, is_open,
  is_free, take_lease, end_lease, owned_by, close_receipt, get_state_write_receipt, acquire_lease,
  open_receipt, reserve_state_write,
}
use quantpro_collector.State.Close.{Answer, answer, thrown}
use quantpro_collector.State.Batch.{Ledgers, Checked, Appended, ValidatedStateBatch}
use quantpro_collector.State.Gateway.{
  AppendInput, AppendOutcome, refused, append_receipt, append_failed, append_settled, append_write,
  append_reserved, reconcile_error, replayed, is_conflict, written, unwritten, append_validated,
  write_request,
}
use quantpro_collector.State.History.{lookup-update_row}
use quantpro_collector.State.Alone.{
  reservation_of, tries, found_row, acquire_lease-row, open_receipt-row, reserve_state_write-alone,
}

module _ {R : Type 0} where
  close_receipt-row :
      (write_key request_id : String) (f : Finish) (r : StateWriteReceipt) (s : Store R)
      → get_state_write_receipt write_key s ≡ some r
      → get_state_write_receipt write_key (close_receipt write_key request_id f s)
        ≡ some (end_lease request_id f r)
  unfolding close_receipt get_state_write_receipt
  close_receipt-row write_key request_id f r s h = ground (
    arith,
    eq_refl write_key,
    lookup-update_row write_key write_key (end_lease request_id f) s.receipts,
  )

module _ {R : Type 0} (l : Ledgers R) (i : AppendInput) where
  -- the answer of the ledger, and the receipt closed with it
  abbrev pub sent_outcome : WriteRequest → StateWriteReceipt → Answer Appended → AppendOutcome
  sent_outcome q r (thrown e) = refused (map_domain_error e)
  sent_outcome q r (answer a) = append_receipt l i q a (end_lease q.request_id (written i a) r)

  abbrev finish_of : Answer Appended → Finish
  finish_of (thrown e) = unwritten i (map_domain_error e)
  finish_of (answer a) = written i a

  append_settled-alone :
      (q : WriteRequest) (a : Answer Appended) (r : StateWriteReceipt) (s : Store R)
      → get_state_write_receipt q.write_key s ≡ some r
      → run alone 0 (append_settled l i q a) s
        ≡ (ok (sent_outcome q r a), close_receipt q.write_key q.request_id (finish_of a) s)
  unfolding append_settled append_failed
  append_settled-alone q (thrown e) r s h = simp (
    run_alone,
    close_receipt-row q.write_key q.request_id (unwritten i (map_domain_error e)) r s h,
  )
  append_settled-alone q (answer a) r s h =
      simp (run_alone, close_receipt-row q.write_key q.request_id (written i a) r s h)

  abbrev pub sent_to : Checked → Store R → Store R
  sent_to c s = record s { ledgers = (l.append c s.ledgers).1 }

  pub append_write-alone :
      (q : WriteRequest) (c : Checked) (r : StateWriteReceipt) (s : Store R)
      → get_state_write_receipt q.write_key s ≡ some r
      → let a = (l.append c s.ledgers).0 in
        run alone 0 (append_write l i q c) s ≡ (
          ok (sent_outcome q r a),
          close_receipt q.write_key q.request_id (finish_of a) (sent_to c s),
        )
  unfolding append_write get_state_write_receipt
  append_write-alone q c r s h =
      let a = (l.append c s.ledgers).0 in
      simp (run_alone, run-alone_from 1 0) (append_settled-alone q a r (sent_to c s) h)

  -- The state of a receipt decides, in this order: another write or a conflict is refused, a
  -- settled write is replayed, a free one is sent, and a leased one has to wait.
  abbrev pub append_outcome : WriteRequest → StateWriteReceipt → Answer Appended → AppendOutcome
  append_outcome q r a =
      if not (same_write q r) || is_conflict l i r.status
      then refused (reconcile_error state_conflict false)
      else if is_settled r.status
      then replayed l i q r
      else if is_free q.request_id q.now r.lease_owner r.lease_until
      then sent_outcome q (take_lease q r) a
      else refused (reconcile_error state_unavailable true)

  -- only then is a batch sent
  abbrev pub is_sent : WriteRequest → StateWriteReceipt → Bool
  is_sent q r =
      same_write q r && is_open r.status && is_free q.request_id q.now r.lease_owner r.lease_until

  append_reserved-branches :
      (q : WriteRequest) (c : Checked) (v : Reservation) (s : Store R)
      → run alone 0 (append_reserved l i q c v) s ≡ (
          if is_conflict l i v.receipt.status
          then (ok (refused (reconcile_error state_conflict false)), s)
          else if v.acquired
          then run alone 0 (append_write l i q c) s
          else if is_settled v.receipt.status
          then (ok (replayed l i q v.receipt), s)
          else (ok (refused (reconcile_error state_unavailable true)), s))
  unfolding append_reserved
  append_reserved-branches q c v s = simp run_alone

  take_lease-held :
      (q : WriteRequest) (r : StateWriteReceipt) → is_sent q r ≡ false → take_lease q r ≡ r
  unfolding take_lease
  take_lease-held q r h = ground arith

  take_lease-sent :
      (q : WriteRequest) (r : StateWriteReceipt)
      → is_sent q r ≡ true
      → (is_conflict l i (take_lease q r).status ≡ false)
        × (owned_by q.request_id (take_lease q r).lease_owner ≡ true)
  unfolding take_lease
  take_lease-sent q r h = ground (arith, eq_refl q.request_id)

  append_reserved-held :
      (q : WriteRequest) (c : Checked) (r : StateWriteReceipt) (s : Store R)
      → is_sent q r ≡ false
      → run alone 0 (append_reserved l i q c (reservation_of q r)) s
        ≡ (ok (append_outcome q r (l.append c s.ledgers).0), s)
  append_reserved-held q c r s h =
      append_reserved-branches q c (reservation_of q r) s ∙ ground (arith, take_lease-held q r h)

  append_reserved-sent :
      (q : WriteRequest) (c : Checked) (r : StateWriteReceipt) (s : Store R)
      → is_sent q r ≡ true
      → get_state_write_receipt q.write_key s ≡ some (take_lease q r)
      → let a = (l.append c s.ledgers).0 in
        run alone 0 (append_reserved l i q c (reservation_of q r)) s ≡ (
          ok (append_outcome q r a),
          close_receipt q.write_key q.request_id (finish_of a) (sent_to c s),
        )
  append_reserved-sent q c r s h e =
      append_reserved-branches q c (reservation_of q r) s
      ∙ ground (arith, take_lease-sent q r h, append_write-alone q c (take_lease q r) s e)

  reserved : WriteRequest → Store R → Store R
  reserved q s =
      if tries q (found_row q s) then acquire_lease q (open_receipt q s) else open_receipt q s

  reserved-ledgers : (q : WriteRequest) (s : Store R) → (reserved q s).ledgers ≡ s.ledgers
  unfolding reserved acquire_lease open_receipt
  reserved-ledgers q s = ground arith

  reserved-row :
      (q : WriteRequest) (s : Store R)
      → is_sent q (found_row q s) ≡ true
      → get_state_write_receipt q.write_key (reserved q s) ≡ some (take_lease q (found_row q s))
  unfolding reserved
  reserved-row q s h =
      ground (arith, acquire_lease-row q (found_row q s) (open_receipt q s) (open_receipt-row q s))

  append_validated-reserved :
      (v : ValidatedStateBatch) (s : Store R)
      → let q = write_request i v in
        run alone 0 (append_validated l i v) s
        ≡ run alone 0
            (append_reserved l i q v.checked (reservation_of q (found_row q s)))
            (reserved q s)
  unfolding append_validated reserved
  append_validated-reserved v s =
      let q = write_request i v in
      run-bind 0 (reserve_state_write q) (append_reserved l i q v.checked) s
      ∙ ap (continue_with (append_reserved l i q v.checked)) (reserve_state_write-alone q s)
      ∙ continue-ok (append_reserved l i q v.checked) _ _

  close_receipt-ledgers :
      (write_key request_id : String) (f : Finish) (s : Store R)
      → (close_receipt write_key request_id f s).ledgers ≡ s.ledgers
  unfolding close_receipt
  close_receipt-ledgers write_key request_id f s = refl

  -- With nothing else running and no access failing, a validated batch is sent to its ledger once
  -- exactly if its receipt is new or is of the same channel and payload, is neither settled nor in
  -- conflict, and has no lease or one that has run out or is the caller's; the answer is then the
  -- ledger's. Otherwise no ledger changes: another payload is a conflict, a settled write is
  -- replayed, and a leased one has to wait.
  pub append_validated-alone :
      (v : ValidatedStateBatch) (s : Store R)
      → let q = write_request i v in
        let r = found_row q s in
        let x = l.append v.checked s.ledgers in
        ((run alone 0 (append_validated l i v) s).0 ≡ ok (append_outcome q r x.0))
        × ((run alone 0 (append_validated l i v) s).1.ledgers
            ≡ (if is_sent q r then x.1 else s.ledgers))
  append_validated-alone v s =
      let q = write_request i v in
      let r = found_row q s in
      let t = reserved q s in
      let e = reserved-ledgers q s in
      let go = append_validated-reserved v s in
      elim (Bool-cases (is_sent q r)) [
        | inl h ↦
            rw (go, append_reserved-sent q v.checked r t h (reserved-row q s h), e, h)
              (
                refl,
                close_receipt-ledgers q.write_key q.request_id _
                    (record t { ledgers = (l.append v.checked s.ledgers).1 }),
              )
        | inr h ↦ rw (go, append_reserved-held q v.checked r t h, e, h) (refl, refl)
      ]
