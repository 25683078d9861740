-- ===== src/Workflow/Tests/Defer.antt =====
-- Runs of `deferResearchJob` (src/research-workflow.ts) on a job that its caller has leased.
use quantpro_collector.Prelude.{◌≡◌, refl, some, [], ◌∷◌, ap}
use quantpro_collector.Db.Table.{lookup, find_value}
use quantpro_collector.Db.Prog.{ok, alone, run}
use quantpro_collector.Workflow.Rows.{Store, LeaseRow, DeferOutcome, upstream_unavailable}
use quantpro_collector.Workflow.Tables.{
  select_lease, select_terminal, select_deferral, select_deferral_by_idempotency_key, holds_lease,
}
use quantpro_collector.Workflow.Submit.{lease_sub_reason}
use quantpro_collector.Workflow.Defer.{DeferInput, may_defer, defer_from, release_deferred}
use quantpro_collector.Workflow.Behaviour.Defer.{postponed, defer_from-alone}

abbrev defer_input : DeferInput
defer_input = record {
  job_id = "job";
  expected_generation = some 2;
  idempotency_key = "key-00001";
  reason = "UPSTREAM_UNAVAILABLE";
  recheck_at = some 500;
  caller_principal = "worker";
  request_id = "request";
  now = some 100;
}

abbrev own_lease : LeaseRow
own_lease = record {
  lease_owner = "worker";
  claim_token = "token";
  claimed_at = 50;
  lease_expires_at = 3_600_050;
  claim_count = 2;
}

abbrev held : Store
held = record {
  public_jobs = "job" ∷ [];
  leases = ("job", own_lease) ∷ [];
  terminals = [];
  deferrals = [];
  proposals = [];
  events = [];
}

defer_from-alone_example :
    run alone 0 (defer_from defer_input upstream_unavailable 2 100 500 "hash") held ≡ (
      ok (DeferOutcome.deferred "job" 500),
      postponed defer_input upstream_unavailable 2 100 500 "hash" held,
    )
unfolding may_defer holds_lease select_lease select_terminal select_deferral
    select_deferral_by_idempotency_key lookup find_value
defer_from-alone_example =
    defer_from-alone defer_input upstream_unavailable 2 100 500 "hash" held refl

-- with the wrong generation the caller is told so
stale :
    (run alone 0 (defer_from defer_input upstream_unavailable 3 100 500 "hash") held).1.leases
    ≡ held.leases
unfolding may_defer holds_lease select_lease select_terminal select_deferral lease_sub_reason
    select_deferral_by_idempotency_key lookup find_value release_deferred
stale =
    ap (λ p. p.1.leases)
      (defer_from-alone defer_input upstream_unavailable 3 100 500 "hash" held refl)
