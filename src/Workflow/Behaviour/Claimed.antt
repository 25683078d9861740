-- ===== src/Workflow/Behaviour/Claimed.antt =====
-- `claimResearchJob` of research-workflow.ts: what the answer CLAIMED means, whatever other calls
-- do in between.
use quantpro_collector.Prelude.{
  ℕ, zero, suc, ◌+◌, ◌≡◌, refl, Bool, true, false, ◌&&◌, ◌==◌, Option, none, some, String, arith,
  str_eq, eq_refl,
}
use quantpro_collector.Db.Prog.{Prog, World, run, select, exec}
use quantpro_collector.Db.Prog.Ensures.{
  Ensures, Holds, run-Ensures, Ensures-when, Ensures-option, Ensures-bind,
}
use quantpro_collector.Workflow.Rows.{Store, LeaseRow, ClaimOutcome, claimed}
use quantpro_collector.Workflow.Tables.{select_lease}
use quantpro_collector.Workflow.Claim.{
  ClaimInput, after_attempt, claim_attempts, claim_from, claim_research_job,
}

abbrev same_lease : (owner : String) (claimed_at expires generation : ℕ) → Option LeaseRow → Bool
same_lease owner claimed_at expires generation none = false
same_lease owner claimed_at expires generation (some l) =
    str_eq l.lease_owner owner
    && l.claimed_at == claimed_at
    && l.lease_expires_at == expires
    && l.claim_count == generation

-- the answer CLAIMED shows the caller's own lease, as it stands in the table
abbrev pub leased : (caller : String) → ClaimOutcome → Store → Bool
leased caller (claimed job owner claimed_at expires generation) s =
    str_eq owner caller && same_lease owner claimed_at expires generation (select_lease job s)
leased caller _ s = true

module _ (i : ClaimInput) (now : ℕ) where
  abbrev Leased : ClaimOutcome → Store → Type 0
  Leased o s = leased i.lease_owner o s ≡ true

  own-Leased :
      (l : LeaseRow) (s : Store)
      → select_lease i.job_id s ≡ some l
      → str_eq l.lease_owner i.lease_owner ≡ true
      → Leased (claimed i.job_id l.lease_owner l.claimed_at l.lease_expires_at l.claim_count) s
  own-Leased l s e h = ground (arith, e, h, eq_refl l.lease_owner)

  after_attempt-Leased :
      (id : String) (again : Prog Store ClaimOutcome) (s : Store)
      → ((t : Store) → Ensures Leased again t)
      → Ensures Leased (after_attempt i now id again) s
  unfolding after_attempt select exec
  after_attempt-Leased id again s h = Ensures-bind Leased _ _ s λ t.
      Ensures-when Leased _ _ _ t (λ _. Ensures-bind Leased _ _ t (λ u. refl))
        λ _. Ensures-bind Leased _ _ t λ u.
          Ensures-when Leased _ _ _ u (λ _. refl)
            λ _. Ensures-bind Leased _ _ u λ v.
              Ensures-option Leased _ _ _ v (λ _. h v)
                λ l e.
                  Ensures-when Leased _ _ _ v (λ _. h v)
                    λ _. Ensures-when Leased _ _ _ v (own-Leased l v e) (λ _. refl)

  claim_attempts-Leased : (left n : ℕ) (s : Store) → Ensures Leased (claim_attempts i now left n) s
  unfolding claim_attempts select exec
  claim_attempts-Leased zero n s = tt
  claim_attempts-Leased (suc left) n s =
      let again = claim_attempts-Leased left (n + 1) in
      Ensures-bind Leased _ _ s λ t. Ensures-bind Leased _ _ _ λ u.
        Ensures-option Leased _ _ _ u (λ _. after_attempt-Leased _ _ u again)
          λ l e.
            Ensures-when Leased _ _ _ u (λ h. own-Leased l u e (ground (arith, h)))
              (λ _. after_attempt-Leased _ _ u again)

  claim_from-Leased : (s : Store) → Ensures Leased (claim_from i now) s
  unfolding claim_from select exec
  claim_from-Leased s = Ensures-bind Leased _ _ s λ t.
      Ensures-when Leased _ _ _ t (λ _. refl)
        λ _. Ensures-bind Leased _ _ t λ u.
          Ensures-when Leased _ _ _ u (λ _. Ensures-bind Leased _ _ u (λ v. refl))
            λ _.
              Ensures-bind Leased _ _ u
                λ v. Ensures-when Leased _ _ _ v (λ _. refl) (λ _. claim_attempts-Leased 2 0 v)

claim-Leased :
    (i : ClaimInput) (s : Store)
    → Ensures (λ o t. leased i.lease_owner o t ≡ true) (claim_research_job i) s
unfolding claim_research_job
claim-Leased i s =
    let Q = λ (o : ClaimOutcome) (t : Store). leased i.lease_owner o t ≡ true in
    Ensures-when Q _ _ _ s (λ _. tt)
      λ _.
        Ensures-when Q _ _ _ s (λ _. tt)
          λ _. Ensures-option Q _ _ _ s (λ _. tt) (λ now _. claim_from-Leased i now s)

-- Whatever other calls do between the accesses of a claim, and whichever of them fail: when it
-- answers CLAIMED, the job's lease is the caller's at that moment, with the times and the
-- generation of the answer.
pub claim_research_job-leased :
    (w : World Store) (i : ClaimInput) (s : Store)
    → Holds (λ o t. leased i.lease_owner o t ≡ true) (run w 0 (claim_research_job i) s)
claim_research_job-leased w i s = run-Ensures _ w 0 (claim_research_job i) s (claim-Leased i s)
