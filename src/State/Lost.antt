-- ===== src/State/Lost.antt =====
-- `appendStateBatch` (src/state-gateway.ts): the receipt of a write whose closing failed once.
use quantpro_collector.Prelude.{◌≡◌, true, Option, none, some, eq_refl, ◌==◌, arith}
use quantpro_collector.Db.Table.{lookup}
use quantpro_collector.Db.Prog.{
  ok, run, World, case_option, when◌then◌else◌, ◌>>=◌, try_batch, batch_result, select, exec,
}
use quantpro_collector.State.Errors.{DomainError, map_domain_error}
use quantpro_collector.State.Receipts.{
  Store, StateWriteReceipt, WriteRequest, failed, end_lease, close_receipt, get_state_write_receipt,
  owned_by, StateReceiptStatus,
}
use quantpro_collector.State.Close.{answer}
use quantpro_collector.State.Batch.{Ledgers, Checked, Appended}
use quantpro_collector.State.Gateway.{
  AppendInput, refused, append_failed, append_settled, append_write, unwritten,
}
use quantpro_collector.State.History.{lookup-update_row}

-- the second access of a call fails, no other does
abbrev pub second_down : {S : Type 0} → World S
second_down = record { others = λ n s. s; down = λ n. n == 1 }

abbrev pub row_status : Option StateWriteReceipt → Option StateReceiptStatus
row_status none = none
row_status (some r) = some r.status

module _ {R : Type 0} (l : Ledgers R) (i : AppendInput) where
  -- If the ledger takes a batch and only the update that closes its receipt fails, the caller is
  -- told that the gateway was unavailable, and the receipt of the caller's lease says FAILED,
  -- although the ledger has the batch.
  pub append_write-failed :
      (q : WriteRequest) (c : Checked) (a : Appended) (r : StateWriteReceipt) (s : Store R)
      → (l.append c s.ledgers).0 ≡ answer a
      → lookup q.write_key s.receipts ≡ some r
      → owned_by q.request_id r.lease_owner ≡ true
      → let out = run second_down 0 (append_write l i q c) s in
        (out.0 ≡ ok (refused (map_domain_error DomainError.unexpected)))
        × (out.1.ledgers ≡ (l.append c s.ledgers).1)
        × (row_status (lookup q.write_key out.1.receipts) ≡ some failed)
  unfolding append_write append_settled append_failed run ◌>>=◌ case_option when◌then◌else◌
      try_batch batch_result select exec map_domain_error close_receipt get_state_write_receipt
      end_lease
  append_write-failed q c a r s e h o = ground (
    arith,
    e,
    h,
    o,
    eq_refl q.write_key,
    lookup-update_row q.write_key q.write_key
        (end_lease q.request_id (unwritten i (map_domain_error DomainError.unexpected))) s.receipts,
  )
