-- ===== src/Workflow/Safety/Consistent.antt =====
-- The invariant of the tables of research-workflow.ts: a completed job has exactly its formal
-- result, and holds no lease.
use quantpro_collector.Prelude.{
  ◌+◌, ◌≤◌, ◌≡◌, true, false, ◌&&◌, Option, none, some, [], ◌∷◌, ◌++◌, String, str_eq, eq_iff, any,
  arith, any-append,
}
use quantpro_collector.Db.Table.{lookup, insert, erase, lookup-insert, lookup-erase}
use quantpro_collector.Workflow.Rows.{Store, LeaseRow, ProposalRow}
use quantpro_collector.Workflow.Input.{lease_ttl_ms}
use quantpro_collector.Workflow.Tables.{is_some, select_lease, select_terminal, add_event}
use quantpro_collector.Workflow.Submit.{is_formal, has_formal}
use quantpro_collector.Workflow.Lifecycle.{
  Step, log, grant, release, file, complete, postpone, Reach, here, next, next_generation,
}

pub record IsConsistent (s : Store) : Type 0 where
  -- a completed job holds no lease
  pub settled : (j : String) → select_terminal j s ≡ true → select_lease j s ≡ none
  -- the jobs with a formal result are the completed ones
  pub formal : (j : String) → has_formal j s ≡ select_terminal j s
  -- a lease lasts for the fixed time, and generations start at 1
  pub leased :
      (j : String) (l : LeaseRow)
      → select_lease j s ≡ some l
      → (1 ≤ l.claim_count) × (l.lease_expires_at ≡ l.claimed_at + lease_ttl_ms)

module _ {s : Store} (h : IsConsistent s) where
  settled-grant :
      (job : String) (l : LeaseRow)
      → select_terminal job s ≡ false
      → (j : String) → select_terminal j s ≡ true
      → lookup j (insert job l s.leases) ≡ none
  unfolding select_lease
  settled-grant job l open_job j e =
      ground (arith, h.settled j e, eq_iff job j, lookup-insert job j l s.leases)

  leased-grant :
      (job : String) (l : LeaseRow)
      → 1 ≤ l.claim_count
      → l.lease_expires_at ≡ l.claimed_at + lease_ttl_ms
      → (j : String) (k : LeaseRow) → lookup j (insert job l s.leases) ≡ some k
      → (1 ≤ k.claim_count) × (k.lease_expires_at ≡ k.claimed_at + lease_ttl_ms)
  unfolding select_lease
  leased-grant job l p q j k e =
      ground (arith, h.leased j k, eq_iff job j, lookup-insert job j l s.leases)

  leased-erase :
      (job j : String) (k : LeaseRow)
      → lookup j (erase job s.leases) ≡ some k
      → (1 ≤ k.claim_count) × (k.lease_expires_at ≡ k.claimed_at + lease_ttl_ms)
  unfolding select_lease
  leased-erase job j k e = ground (arith, h.leased j k, lookup-erase job j s.leases)

  settled-erase :
      (job j : String) → select_terminal j s ≡ true → lookup j (erase job s.leases) ≡ none
  unfolding select_lease
  settled-erase job j e = ground (arith, h.settled j e, lookup-erase job j s.leases)

  settled_complete :
      (p : ProposalRow) (t : _) (j : String)
      → is_some (lookup j (insert p.job_id t s.terminals)) ≡ true
      → lookup j (erase p.job_id s.leases) ≡ none
  unfolding select_lease select_terminal
  settled_complete p t j e =
      ground (
        arith,
        h.settled j,
        lookup-erase p.job_id j s.leases,
        lookup-insert p.job_id j t s.terminals,
      )

  formal-file :
      (p : ProposalRow)
      → is_formal p ≡ false
      → (j : String)
      → any (λ q. str_eq q.job_id j && is_formal q) (s.proposals ++ p ∷ []) ≡ select_terminal j s
  unfolding has_formal
  formal-file p e j =
      ground
        (arith, h.formal j, any-append (λ q. str_eq q.job_id j && is_formal q) s.proposals (p ∷ []))

  formal_complete :
      (p : ProposalRow) (t : _)
      → is_formal p ≡ true
      → (j : String)
      → any (λ q. str_eq q.job_id j && is_formal q) (s.proposals ++ p ∷ [])
        ≡ is_some (lookup j (insert p.job_id t s.terminals))
  unfolding has_formal select_terminal
  formal_complete p t e j = ground (
    arith,
    h.formal j,
    lookup-insert p.job_id j t s.terminals,
    any-append (λ q. str_eq q.job_id j && is_formal q) s.proposals (p ∷ []),
  )

next_generation_pos : (o : Option LeaseRow) → 1 ≤ next_generation o
next_generation_pos none = omega arith
next_generation_pos (some l) = omega arith

Step-IsConsistent : {s t : Store} → Step s t → IsConsistent s → IsConsistent t
unfolding select_lease select_terminal has_formal add_event
Step-IsConsistent (log e) h = record { settled = h.settled; formal = h.formal; leased = h.leased }
Step-IsConsistent {s} (grant job now l o d v c a x) h = record {
  settled = settled-grant h job l o;
  formal = h.formal;
  leased = leased-grant h job l (rw c (next_generation_pos (select_lease job s))) (omega arith);
}
Step-IsConsistent (release job) h = record {
  settled = settled-erase h job;
  formal = h.formal;
  leased = leased-erase h job;
}
Step-IsConsistent (file p f c) h = record {
  settled = h.settled;
  formal = formal-file h p f;
  leased = h.leased;
}
Step-IsConsistent (complete p owner generation now f c l o) h = record {
  settled = settled_complete h p _;
  formal = formal_complete h p _ f;
  leased = leased-erase h p.job_id;
}
Step-IsConsistent (postpone job d l o e k) h = record {
  settled = settled-erase h job;
  formal = h.formal;
  leased = leased-erase h job;
}

-- Whatever steps are taken, a consistent store stays consistent.
pub Reach-IsConsistent : {s t : Store} → Reach s t → IsConsistent s → IsConsistent t
Reach-IsConsistent here h = h
Reach-IsConsistent (next r st) h = Step-IsConsistent st (Reach-IsConsistent r h)
