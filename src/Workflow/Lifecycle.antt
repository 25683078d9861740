-- ===== src/Workflow/Lifecycle.antt =====
-- The lifecycle of a job as a step relation on the tables: what the header comment of
-- research-workflow.ts promises, with no handler, read or race in sight.
use quantpro_collector.Prelude.{
  ℕ, ◌+◌, ◌≡◌, true, false, Option, none, some, [], ◌∷◌, ◌++◌, String, any,
}
use quantpro_collector.Db.Table.{insert, erase}
use quantpro_collector.Workflow.Rows.{Store, LeaseRow, DeferralRow, ProposalRow, EventRow}
use quantpro_collector.Workflow.Input.{lease_ttl_ms}
use quantpro_collector.Workflow.Tables.{
  select_lease, select_terminal, select_deferral, select_deferral_by_idempotency_key, is_live,
  still_deferred, holds_lease, add_event,
}
use quantpro_collector.Workflow.Submit.{is_formal, clashes}

abbrev pub next_generation : Option LeaseRow → ℕ
next_generation none = 1
next_generation (some l) = l.claim_count + 1

abbrev pub with_lease : String → LeaseRow → Store → Store
with_lease job l s = record s { leases = insert job l s.leases }

abbrev pub without_lease : String → Store → Store
without_lease job s = record s { leases = erase job s.leases }

abbrev pub with_proposal : ProposalRow → Store → Store
with_proposal p s = record s { proposals = s.proposals ++ p ∷ [] }

-- the formal result, the terminal row and the release of the lease, in one
abbrev pub with_result : ProposalRow → ℕ → Store → Store
with_result p now s = record s {
  proposals = s.proposals ++ p ∷ [];
  terminals =
      insert p.job_id (record { proposal_id = p.proposal_id; completed_at = now }) s.terminals;
  leases = erase p.job_id s.leases;
}

-- the recheck gate and the release of the lease, in one
abbrev pub with_deferral : String → DeferralRow → Store → Store
with_deferral job d s = record s {
  deferrals = insert job d s.deferrals;
  leases = erase job s.leases;
}

pub data Step (s : Store) : Store → Type 0 where
  log : (e : EventRow) → Step s (add_event e s)
  grant :
      (job : String) (now : ℕ) (l : LeaseRow)
      → select_terminal job s ≡ false
      → still_deferred now (select_deferral job s) ≡ false
      → is_live now (select_lease job s) ≡ false
      → l.claim_count ≡ next_generation (select_lease job s)
      → l.claimed_at ≡ now
      → l.lease_expires_at ≡ now + lease_ttl_ms
      → Step s (with_lease job l s)
  release : (job : String) → Step s (without_lease job s)
  file :
      (p : ProposalRow)
      → is_formal p ≡ false
      → any (clashes p) s.proposals ≡ false
      → Step s (with_proposal p s)
  complete :
      (p : ProposalRow) (owner : String) (generation now : ℕ)
      → is_formal p ≡ true
      → any (clashes p) s.proposals ≡ false
      → holds_lease p.job_id owner generation now s ≡ true
      → select_terminal p.job_id s ≡ false
      → Step s (with_result p now s)
  postpone :
      (job : String) (d : DeferralRow)
      → holds_lease job d.lease_owner d.expected_generation d.deferred_at s ≡ true
      → select_terminal job s ≡ false
      → select_deferral job s ≡ none
      → select_deferral_by_idempotency_key d.idempotency_key s ≡ none
      → Step s (with_deferral job d s)

pub data Reach (s : Store) : Store → Type 0 where
  here : Reach s s
  next : {t u : Store} → Reach s t → Step t u → Reach s u
