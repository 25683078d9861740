-- ===== src/Workflow/Tables.antt =====
-- The SELECTs of research-workflow.ts, the predicates of its conditional writes, and its event
-- insert.
use Prim.Native.String
use quantpro_collector.Prelude.{
  ℕ, Bool, true, false, not, ◌&&◌, Option, none, some, [], ◌∷◌, ◌++◌, String, str_eq, ltb, ◌==◌,
  any, find?,
}
use quantpro_collector.Db.Table.{lookup, find_value}
use quantpro_collector.Workflow.Rows.{LeaseRow, DeferralRow, ProposalRow, EventRow, Store}

-- the random ids of one call, in the order in which it may need them
abbrev pub Fresh : Type 0
Fresh = ℕ → String

abbrev pub tagged : String → String → String
tagged tag id = String.◌++◌ tag id

-- the visibility gate of `claimResearchJob`
unfoldable pub is_public : String → Store → Bool
is_public job s = any (λ k. str_eq k job) s.public_jobs

unfoldable pub select_lease : String → Store → Option LeaseRow
select_lease job s = lookup job s.leases

abbrev pub is_some {ℓ} : {A : Type ℓ} → Option A → Bool
is_some none = false
is_some (some _) = true

-- `selectTerminal`
unfoldable pub select_terminal : String → Store → Bool
select_terminal job s = is_some (lookup job s.terminals)

-- `terminalMatchesProposal`
unfoldable pub terminal_matches_proposal : String → String → Store → Bool
terminal_matches_proposal job proposal s = elim (lookup job s.terminals) [
  | none ↦ false
  | some t ↦ str_eq t.proposal_id proposal
]

unfoldable pub select_deferral : String → Store → Option DeferralRow
select_deferral job s = lookup job s.deferrals

unfoldable pub select_deferral_by_idempotency_key : String → Store → Option DeferralRow
select_deferral_by_idempotency_key key s =
    find_value (λ d. str_eq d.idempotency_key key) s.deferrals

unfoldable pub select_proposal_by_idempotency_key : String → Store → Option ProposalRow
select_proposal_by_idempotency_key key s = find? (λ p. str_eq p.idempotency_key key) s.proposals

-- `deferral && deferral.recheck_at > now`
abbrev pub still_deferred : ℕ → Option DeferralRow → Bool
still_deferred now none = false
still_deferred now (some d) = ltb now d.recheck_at

-- `lease && lease.lease_expires_at > now`
abbrev pub is_live : ℕ → Option LeaseRow → Bool
is_live now none = false
is_live now (some l) = ltb now l.lease_expires_at

-- NOT EXISTS a terminal row, NOT EXISTS a deferral with `recheck_at > now`
unfoldable pub is_claimable : String → ℕ → Store → Bool
unfolding select_terminal select_deferral
is_claimable job now s =
    not (select_terminal job s) && not (still_deferred now (select_deferral job s))

-- EXISTS the lease of this owner and generation, not expired
abbrev holds : String → ℕ → ℕ → Option LeaseRow → Bool
holds owner generation now none = false
holds owner generation now (some l) =
    str_eq l.lease_owner owner && l.claim_count == generation && ltb now l.lease_expires_at

unfoldable pub holds_lease : String → String → ℕ → ℕ → Store → Bool
unfolding select_lease
holds_lease job owner generation now s = holds owner generation now (select_lease job s)

-- `eventStatement`: the table is append-only
unfoldable pub add_event : EventRow → Store → Store
add_event e s = record s { events = s.events ++ e ∷ [] }
