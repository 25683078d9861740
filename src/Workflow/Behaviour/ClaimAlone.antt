-- ===== src/Workflow/Behaviour/ClaimAlone.antt =====
-- `claimResearchJob` of research-workflow.ts with no interference: its outcome is a function of
-- the phase that the job is in.
use quantpro_collector.Prelude.{
  ℕ, ◌+◌, ◌≡◌, refl, Bool, true, false, not, Option, none, some, String, arith, str_eq, eq_refl,
  if◌then◌else◌, ltb, leb, Bool-cases, Option-cases, inl, inr,
}
use quantpro_collector.Db.Prog.Alone.{run_alone}
use quantpro_collector.Db.Prog.{
  Reply, Reply, ok, err, filtered, integrity_failed, alone, run, when◌then◌else◌,
}
use quantpro_collector.Workflow.Rows.{
  Store, LeaseRow, ClaimReason, ClaimOutcome, already_claimed, not_claimable, not_found, terminal,
}
use quantpro_collector.Workflow.Input.{lease_ttl_ms, job_id_ok}
use quantpro_collector.Workflow.Tables.{
  is_public, select_lease, select_terminal, select_deferral, still_deferred, is_claimable,
}
use quantpro_collector.Workflow.Claim.{
  ClaimInput, after_attempt, claim_attempts, claim_from, claim_research_job,
}
use quantpro_collector.Workflow.Behaviour.Claim.{
  claim_batch-lease, claim_batch-terminals, claim_batch-deferrals,
}

-- The lifecycle of the header comment: what a job is at a given time.
pub data Phase : Type 0 where
  private_job completed deferred : Phase
  claimed : LeaseRow → Phase
  -- with the generation that the next claim gets
  queued : ℕ → Phase

abbrev open_phase : ℕ → Option LeaseRow → Phase
open_phase now none = queued 1
open_phase now (some l) =
    if ltb now l.lease_expires_at then claimed l else queued (l.claim_count + 1)

unfoldable pub phase : String → ℕ → Store → Phase
phase job now s =
    if not (is_public job s)
    then private_job
    else if select_terminal job s
    then completed
    else if still_deferred now (select_deferral job s)
    then deferred
    else open_phase now (select_lease job s)

-- The outcome that each phase calls for.
unfoldable pub claim_outcome : ClaimInput → ℕ → Phase → ClaimOutcome
claim_outcome i now private_job = not_claimable i.job_id not_found
claim_outcome i now completed = not_claimable i.job_id terminal
claim_outcome i now deferred = not_claimable i.job_id ClaimReason.deferred
claim_outcome i now (claimed l) =
    if str_eq l.lease_owner i.lease_owner
    then ClaimOutcome.claimed i.job_id l.lease_owner l.claimed_at l.lease_expires_at l.claim_count
    else already_claimed i.job_id l.lease_owner l.lease_expires_at
claim_outcome i now (queued generation) =
    ClaimOutcome.claimed i.job_id i.lease_owner now (now + lease_ttl_ms) generation

leb-ltb : (x y : ℕ) → leb x y ≡ not (ltb y x)
leb-ltb x y = ground arith

claimable :
    (job : String) (now : ℕ) (s : Store)
    → select_terminal job s ≡ false
    → still_deferred now (select_deferral job s) ≡ false
    → is_claimable job now s ≡ true
unfolding is_claimable
claimable job now s f g = simp (f, g)

-- the two ways of answering the caller's own lease are one
either : {A : Type 0} {S : Type 0} (b : Bool) (p : Reply A × S) → (if b then p else p).0 ≡ p.0
either true p = refl
either false p = refl

module _ (i : ClaimInput) (now : ℕ) where
  attempts_alone :
      (s : Store)
      → select_terminal i.job_id s ≡ false
      → still_deferred now (select_deferral i.job_id s) ≡ false
      → (run alone 3 (claim_attempts i now 2 0) s).0
        ≡ ok (claim_outcome i now (open_phase now (select_lease i.job_id s)))
  unfolding claim_attempts after_attempt claim_outcome
  attempts_alone s f g =
      let c = claimable i.job_id now s f g in
      elim (Option-cases (select_lease i.job_id s)) [
        | inl e ↦ simp (run_alone, claim_batch-lease i now, c, e, eq_refl)
        | inr (l, e) ↦ elim (Bool-cases (ltb now l.lease_expires_at)) [
          | inr d ↦ simp (run_alone, claim_batch-lease i now, c, e, d, eq_refl)
          | inl d ↦ elim (Bool-cases (str_eq l.lease_owner i.lease_owner)) [
            | inr h ↦ simp (
              run_alone,
              claim_batch-lease i now,
              claim_batch-terminals i now,
              claim_batch-deferrals i now,
              leb-ltb,
              c,
              e,
              d,
              f,
              g,
              h,
              eq_refl,
            )
            | inl h ↦
                simp
                  (
                    run_alone,
                    claim_batch-lease i now,
                    claim_batch-terminals i now,
                    claim_batch-deferrals i now,
                    leb-ltb,
                    c,
                    e,
                    d,
                    f,
                    g,
                    h,
                    eq_refl,
                  )
                  (either _ _)
          ]
        ]
      ]

  claim_from-alone :
      (s : Store)
      → (run alone 0 (claim_from i now) s).0 ≡ ok (claim_outcome i now (phase i.job_id now s))
  unfolding claim_from phase claim_outcome
  claim_from-alone s = elim (Bool-cases (is_public i.job_id s)) [
    | inr e ↦ simp (run_alone, e)
    | inl e ↦ elim (Bool-cases (select_terminal i.job_id s)) [
      | inl f ↦ simp (run_alone, e, f)
      | inr f ↦ elim (Bool-cases (still_deferred now (select_deferral i.job_id s))) [
        | inl g ↦ simp (run_alone, e, f, g)
        | inr g ↦ simp (run_alone, e, f, g) (attempts_alone s f g)
      ]
    ]
  ]

-- A claim with nothing else running and no access failing gets the outcome that the job's phase
-- calls for: a missing job is not found, a completed one is terminal, a deferred one is deferred,
-- a claimed one is its own owner's again and already claimed for anyone else, and a queued one is
-- claimed with its next generation. A missing owner or time is an error, as is a malformed id.
pub claim_research_job-alone :
    (i : ClaimInput) (s : Store)
    → (run alone 0 (claim_research_job i) s).0 ≡ (
        if not (job_id_ok i.job_id)
        then err filtered
        else if str_eq i.lease_owner ""
        then err integrity_failed
        else elim i.now [
          | none ↦ err integrity_failed
          | some now ↦ ok (claim_outcome i now (phase i.job_id now s))
        ])
unfolding claim_research_job
claim_research_job-alone i s = elim (Bool-cases (job_id_ok i.job_id)) [
  | inr e ↦ simp (run_alone, e)
  | inl e ↦ elim (Bool-cases (str_eq i.lease_owner "")) [
    | inl f ↦ simp (run_alone, e, f)
    | inr f ↦ elim (Option-cases i.now) [
      | inl g ↦ simp (run_alone, e, f, g)
      | inr (now, g) ↦ simp (run_alone, e, f, g, claim_from-alone i now)
    ]
  ]
]
