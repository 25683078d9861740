-- ===== src/State/Alone.antt =====
-- A write to the state ledgers (src/state-gateway.ts) with nothing else running.
use quantpro_collector.Prelude.{
  ◌≡◌, Bool, false, not, ◌&&◌, none, some, eq_refl, arith, if◌then◌else◌, Option-cases, Bool-cases,
  inl, inr,
}
use quantpro_collector.Db.Table.{lookup}
use quantpro_collector.Db.Prog.{ok, alone, run}
use quantpro_collector.Db.Prog.Alone.{run_alone}
use quantpro_collector.State.Receipts.{
  Store, StateWriteReceipt, WriteRequest, Reservation, conflict, new_receipt, same_write,
  is_settled, take_lease, owned_by, open_receipt, acquire_lease, get_state_write_receipt,
  reserve_state_write,
}
use quantpro_collector.State.History.{lookup-update_row, lookup-insert_or_ignore}

module _ (q : WriteRequest) where
  -- the row that a reservation finds or makes
  abbrev pub found_row : {R : Type 0} → Store R → StateWriteReceipt
  found_row s = elim (lookup q.write_key s.receipts) [ none ↦ new_receipt q | some r ↦ r ]

  pub open_receipt-row :
      {R : Type 0} (s : Store R)
      → get_state_write_receipt q.write_key (open_receipt q s) ≡ some (found_row s)
  unfolding open_receipt get_state_write_receipt
  open_receipt-row s = elim (Option-cases (lookup q.write_key s.receipts)) [
    | inl h ↦ ground (
      arith,
      h,
      eq_refl q.write_key,
      lookup-insert_or_ignore q.write_key q.write_key (new_receipt q) s.receipts,
    )
    | inr (r, h) ↦ ground (
      arith,
      h,
      eq_refl q.write_key,
      lookup-insert_or_ignore q.write_key q.write_key (new_receipt q) s.receipts,
    )
  ]

  pub acquire_lease-row :
      {R : Type 0} (r : StateWriteReceipt) (s : Store R)
      → get_state_write_receipt q.write_key s ≡ some r
      → get_state_write_receipt q.write_key (acquire_lease q s) ≡ some (take_lease q r)
  unfolding acquire_lease get_state_write_receipt
  acquire_lease-row r s h = ground (
    arith,
    eq_refl q.write_key,
    lookup-update_row q.write_key q.write_key (take_lease q) s.receipts,
  )

  -- what the row makes of a reservation
  abbrev pub reservation_of : StateWriteReceipt → Reservation
  reservation_of r =
      if not (same_write q r)
      then record { acquired = false; receipt = record r { status = conflict } }
      else if is_settled r.status
      then record { acquired = false; receipt = r }
      else record {
        acquired = owned_by q.request_id (take_lease q r).lease_owner;
        receipt = take_lease q r;
      }

  abbrev pub tries : StateWriteReceipt → Bool
  tries r = same_write q r && not (is_settled r.status)

  pub reserve_state_write-alone :
      {R : Type 0} (s : Store R)
      → run alone 0 (reserve_state_write q) s ≡ (
        ok (reservation_of (found_row s)),
        if tries (found_row s) then acquire_lease q (open_receipt q s) else open_receipt q s,
      )
  unfolding reserve_state_write
  reserve_state_write-alone s =
      let r = found_row s in
      let e = open_receipt-row s in
      let e' = acquire_lease-row r (open_receipt q s) e in
      elim (Bool-cases (same_write q r)) [
        | inr f ↦ simp (run_alone, e, f)
        | inl f ↦ elim (Bool-cases (is_settled r.status)) [
          | inl g ↦ simp (run_alone, e, f, g)
          | inr g ↦ simp (run_alone, e, e', f, g)
        ]
      ]
