-- ===== src/State/Calls.antt =====
-- A whole call of `appendStateBatch` (src/state-gateway.ts), whatever runs between its accesses.
use quantpro_collector.Prelude.{String, List, inl, ◌≡◌, subst, inr}
use mathlib.Core.Option.{some-injective, some}
use quantpro_collector.Db.Prog.{World, run}
use quantpro_collector.Db.Prog.Keeps.{
  Keeps, Respects, run-Keeps, Keeps-done, Keeps-exec, Keeps-try_batch, Keeps-batch_result,
  Keeps-bind, Keeps-option, keeps_rules,
}
use quantpro_collector.State.Errors.{DomainError}
use quantpro_collector.State.Receipts.{Store, WriteRequest, Reservation, reserve_state_write}
use quantpro_collector.State.Close.{
  ask, Answer, answer, thrown, validate_close_dependencies, CloseEvent,
}
use quantpro_collector.State.Batch.{
  Ledgers, Checked, InvestmentLedgerRole, validate_state_batch, Appended, ValidatedStateBatch,
  validate_state_batch,
}
use quantpro_collector.State.Gateway.{
  AppendInput, append_failed, append_settled, append_write, append_reserved, append_validated,
  dependencies, append_state_batch, write_request, append_checked,
}
use quantpro_collector.State.History.{
  History, History-open_receipt, History-acquire_lease, History-close_receipt,
}

module _ {R : Type 0} {before : Store R} where
  Keeps-reserve : (q : WriteRequest) → Keeps (History before) (reserve_state_write q)
  unfolding reserve_state_write
  Keeps-reserve q =
      search (keeps_rules, Keeps-exec, History-open_receipt, History-acquire_lease) depth 14

module _ {R : Type 0} {before : Store R} (l : Ledgers R) (i : AppendInput) where
  Keeps-append_failed :
      (q : WriteRequest) (e : DomainError) → Keeps (History before) (append_failed l i q e)
  unfolding append_failed
  Keeps-append_failed q e = search (keeps_rules, Keeps-exec, History-close_receipt) depth 14

  committed :
      (f : Store R → Store R) (s t : Store R)
      → ((u : Store R) → History before u → History before (f u))
      → History before s
      → some (f s) ≡ some t
      → History before t
  committed f s t h p e = subst (History before) (some-injective _ _ e) (h s p)

  sent :
      (c : Checked) (s : Store R)
      → History before s
      → History before (record s { ledgers = (l.append c s.ledgers).1 })
  sent c s h = record { follows = h.follows; unleased = h.unleased }

  Keeps-append_settled :
      (q : WriteRequest) (a : Answer Appended) → Keeps (History before) (append_settled l i q a)
  unfolding append_settled
  Keeps-append_settled q (thrown e) = Keeps-append_failed q e
  Keeps-append_settled q (answer a) =
      Keeps-bind _ _
        (Keeps-try_batch _ (λ s t p e. committed _ s t (History-close_receipt _ _ _) p e))
        λ closed. search (keeps_rules, Keeps-append_failed) depth 12

  Keeps-append_write :
      (q : WriteRequest) (c : Checked) → Keeps (History before) (append_write l i q c)
  unfolding append_write
  Keeps-append_write q c =
      Keeps-bind _ _ (Keeps-batch_result _ _ (λ s t p e. committed _ s t (sent c) p e)) λ answered.
        Keeps-option answered _ _ (Keeps-append_failed q DomainError.unexpected)
          (Keeps-append_settled q)

  Keeps-append_reserved :
      (q : WriteRequest) (c : Checked) (r : Reservation)
      → Keeps (History before) (append_reserved l i q c r)
  unfolding append_reserved
  Keeps-append_reserved q c r = search (keeps_rules, Keeps-append_write) depth 12

  Keeps-append_validated :
      (v : ValidatedStateBatch) → Keeps (History before) (append_validated l i v)
  unfolding append_validated
  Keeps-append_validated v =
      Keeps-bind _ _ (Keeps-reserve (write_request i v))
        (λ r. Keeps-append_reserved (write_request i v) v.checked r)

  Keeps-validate_close_dependencies :
      (date : String) (events : List CloseEvent)
      → Keeps (History before) (validate_close_dependencies l.reads date events)
  unfolding validate_close_dependencies ask
  Keeps-validate_close_dependencies date events = search keeps_rules depth 14

  Keeps-dependencies : (c : Checked) → Keeps (History before) (dependencies l i c)
  Keeps-dependencies (inl c) = Keeps-done _
  Keeps-dependencies (inr (InvestmentLedgerRole.industry, b)) = Keeps-done _
  Keeps-dependencies (inr (InvestmentLedgerRole.company, b)) = Keeps-done _
  Keeps-dependencies (inr (InvestmentLedgerRole.close, b)) =
      Keeps-validate_close_dependencies b.trading_date b.events

  Keeps-append_checked :
      (v : Answer ValidatedStateBatch) → Keeps (History before) (append_checked l i v)
  unfolding append_checked
  Keeps-append_checked (thrown e) = Keeps-done _
  Keeps-append_checked (answer v) =
      Keeps-bind _ _ (Keeps-dependencies v.checked)
        λ e. Keeps-option e _ _ (Keeps-append_validated v) (λ e. Keeps-done _)

-- Whatever other calls do in between and whichever accesses fail: an append to the state ledgers
-- loses no receipt, changes no receipt's channel or payload, leaves every receipt that is settled
-- (persisted or replayed) exactly as it was, and gives no settled receipt a lease, if the other
-- calls do so and no settled receipt has a lease before.
pub append_state_batch-History :
    {R : Type 0} (l : Ledgers R) (w : World (Store R)) (i : AppendInput) (before : Store R)
    → Respects (History before) w
    → History before before
    → History before (run w 0 (append_state_batch l i) before).1
unfolding append_state_batch
append_state_batch-History l w i before others h =
    run-Keeps w 0 (append_state_batch l i) before others
      (Keeps-append_checked l i (validate_state_batch l i.channel i.batch)) h
