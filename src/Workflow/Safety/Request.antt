-- ===== src/Workflow/Safety/Request.antt =====
-- Any call of the work queue, and where its writes stand.
use quantpro_collector.Prelude.{ℕ, String}
use quantpro_collector.Db.Prog.{Prog, ◌>>=◌, done}
use quantpro_collector.Workflow.Rows.{Store, ClaimOutcome, SubmitOutcome, DeferOutcome}
use quantpro_collector.Workflow.Canonical.{Platform}
use quantpro_collector.Workflow.Claim.{ClaimInput, claim_research_job}
use quantpro_collector.Workflow.Submit.{SubmitInput}
use quantpro_collector.Workflow.Submit.Handler.{submit_research_result_proposal}
use quantpro_collector.Workflow.Defer.{DeferInput, defer_research_job}

pub data Request : Type 0 where
  claim : ClaimInput → Request
  submit : SubmitInput → Request
  defer : DeferInput → Request

pub data Response : Type 0 where
  claim : ClaimOutcome → Response
  submit : SubmitOutcome → Response
  defer : DeferOutcome → Response

unfoldable pub handle : Platform → (ℕ → String) → Request → Prog Store Response
handle pf iso (Request.claim i) = do done (Response.claim (← claim_research_job i))
handle pf iso (Request.submit i) = do
  done (Response.submit (← submit_research_result_proposal pf i))
handle pf iso (Request.defer i) = do done (Response.defer (← defer_research_job pf iso i))
