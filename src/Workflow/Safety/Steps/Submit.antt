-- ===== src/Workflow/Safety/Steps/Submit.antt =====
-- The writes of `submitResearchResultProposal` (research-workflow.ts) are steps of the lifecycle.
use quantpro_collector.Prelude.{
  ℕ, ◌≡◌, refl, true, false, Option, none, some, String, arith, any, if_intro, Bool-cases,
  Option-cases, inl, inr, ◌⊎◌, subst, sym,
}
use quantpro_collector.Workflow.Rows.{
  Store, ProposalRow, EventReason, ProposalStatus, received, EventSubReason, ResearchOrigin,
  chatgpt, SubmitReason, EventType,
}
use quantpro_collector.Workflow.Tables.{
  select_terminal, holds_lease, add_event, terminal_matches_proposal,
}
use quantpro_collector.Workflow.Canonical.{PreparedProposal}
use quantpro_collector.Workflow.Submit.{
  SubmitInput, submit_event, submit_proposal_id, is_chatgpt, clashes, insert_proposal, proposal_row,
  conflict_event, reject_batch, synthetic_batch, may_complete, insert_formal, insert_terminal,
  release_lease, note_completion, formal_batch,
}
use quantpro_collector.Workflow.Lifecycle.{
  log, release, file, complete, Reach, next, with_result, with_proposal, without_lease,
}

insert_proposal-cases :
    (p : ProposalRow) (s : Store)
    → (insert_proposal p s ≡ none)
      ⊎ ((any (clashes p) s.proposals ≡ false) × (insert_proposal p s ≡ some (with_proposal p s)))
unfolding insert_proposal
insert_proposal-cases p s = elim (Bool-cases (any (clashes p) s.proposals)) [
  | inl c ↦ inl (rw c)
  | inr c ↦ inr (c, rw c)
]

module _ (i : SubmitInput) (now : ℕ) (prepared : PreparedProposal) where
  pub Reach-conflict_event :
      {o : Store} (existing : String) (s : Store)
      → Reach o s
      → Reach o (conflict_event i now prepared existing s)
  unfolding conflict_event
  Reach-conflict_event {o} existing s r = next r (log _)

  pub Reach-reject_batch :
      {o : Store} (origin : ResearchOrigin) (reason : SubmitReason) (sub : Option EventSubReason)
      (s t : Store)
      → Reach o s
      → reject_batch i now prepared origin reason sub s ≡ some t
      → Reach o t
  unfolding reject_batch
  Reach-reject_batch {o} origin reason sub s t r e =
      let p = proposal_row i now prepared origin ProposalStatus.rejected (some reason) in
      elim (insert_proposal-cases p s) [
        | inl n ↦ absurd (ground arith)
        | inr (c, m) ↦
            let a : add_event
                  (submit_event i now prepared 1 EventType.submit_rejected
                    (submit_proposal_id i now prepared) (some origin)
                    (some (EventReason.submit reason)) sub)
                  (with_proposal p s)
                ≡ t =
              ground arith in
            subst (Reach o) a (next (next r (file p (ground arith) c)) (log _))
      ]

  pub Reach-synthetic_batch :
      {o : Store} (origin : ResearchOrigin) (s t : Store)
      → is_chatgpt origin ≡ false
      → Reach o s
      → synthetic_batch i now prepared origin s ≡ some t
      → Reach o t
  unfolding synthetic_batch
  Reach-synthetic_batch {o} origin s t f r e =
      let p = proposal_row i now prepared origin received none in
      elim (insert_proposal-cases p s) [
        | inl n ↦ absurd (ground arith)
        | inr (c, m) ↦
            let a : add_event
                  (submit_event i now prepared 1 EventType.submit_received
                    (submit_proposal_id i now prepared) (some origin) none none)
                  (without_lease i.job_id (with_proposal p s))
                ≡ t =
              ground arith in
            subst (Reach o) a
              (next (next (next r (file p (ground arith) c)) (release i.job_id)) (log _))
      ]

  module _ (generation : ℕ) where
    Reach-note_completion :
        {o : Store} (n : ℕ) (kind : EventType) (s : Store)
        → Reach o s
        → Reach o (note_completion i now prepared generation n kind s)
    unfolding note_completion
    Reach-note_completion {o} n kind s r =
        if_intro (Reach o)
          (terminal_matches_proposal i.job_id (submit_proposal_id i now prepared) s)
          (λ _. next r (
            log (
              submit_event i now prepared n kind (submit_proposal_id i now prepared) (some chatgpt)
                none none)))
          (λ _. r)

    formal_writes :
        (s t : Store)
        → may_complete i now prepared generation s ≡ true
        → insert_formal i now prepared generation s ≡ some t
        → let p = proposal_row i now prepared chatgpt received none in
          (any (clashes p) s.proposals ≡ false)
          × (release_lease i now prepared generation (insert_terminal i now prepared generation t)
              ≡ with_result p now s)
    unfolding insert_formal insert_proposal insert_terminal release_lease may_complete
    formal_writes s t m e = (ground arith, ground arith)

    no_formal_writes :
        (s t : Store)
        → may_complete i now prepared generation s ≡ false
        → insert_formal i now prepared generation s ≡ some t
        → let u =
            release_lease i now prepared generation (insert_terminal i now prepared generation t) in
          (u ≡ s) ⊎ (u ≡ without_lease i.job_id s)
    unfolding insert_formal insert_terminal release_lease may_complete
    no_formal_writes s t m e = ground arith

    may_complete_holds :
        (s : Store)
        → may_complete i now prepared generation s ≡ true
        → (holds_lease i.job_id i.caller_principal generation now s ≡ true)
          × (select_terminal i.job_id s ≡ false)
    unfolding may_complete
    may_complete_holds s m = (ground arith, ground arith)

    -- The three writes of the formal batch are one step, or at most a release.
    Reach-writes :
        {o : Store} (s t : Store)
        → Reach o s
        → insert_formal i now prepared generation s ≡ some t
        → Reach o
            (release_lease i now prepared generation (insert_terminal i now prepared generation t))
    Reach-writes {o} s t r e = elim (Bool-cases (may_complete i now prepared generation s)) [
      | inl m ↦
          let (c, a) = formal_writes s t m e in
          let (l, n) = may_complete_holds s m in
          subst (Reach o) (sym a) (
            next r (
              complete (proposal_row i now prepared chatgpt received none) i.caller_principal
                generation now refl c l n))
      | inr m ↦ elim (no_formal_writes s t m e) [
        | inl a ↦ subst (Reach o) (sym a) r
        | inr a ↦ subst (Reach o) (sym a) (next r (release i.job_id))
      ]
    ]

    pub Reach-formal_batch :
        {o : Store} (s t : Store)
        → Reach o s
        → formal_batch i now prepared generation s ≡ some t
        → Reach o t
    unfolding formal_batch
    Reach-formal_batch {o} s t r e =
        elim (Option-cases (insert_formal i now prepared generation s)) [
          | inl n ↦ absurd (ground arith)
          | inr (u, m) ↦
              let v =
                release_lease i now prepared generation
                  (insert_terminal i now prepared generation u) in
              let a : note_completion i now prepared generation 3 EventType.completed
                    (note_completion i now prepared generation 2 EventType.submit_received v)
                  ≡ t =
                ground arith in
              subst (Reach o) a (
                Reach-note_completion 3 EventType.completed _
                  (Reach-note_completion 2 EventType.submit_received v (Reach-writes s u r m)))
        ]
