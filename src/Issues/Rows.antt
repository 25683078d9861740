-- ===== src/Issues/Rows.antt =====
-- The data of `src/issue-bookkeeping.ts`: the dedupe rows, the requests to GitHub and the receipts.
use Prim.Native.String
use quantpro_collector.Prelude.{ℕ, Option, none, some, List, [], ◌∷◌, String, str_eq, if◌then◌else◌}
use quantpro_collector.Json.{Json}
use quantpro_collector.Db.Table.{Table}
use quantpro_collector.Db.Prog.{when◌then◌else◌}
use quantpro_collector.Issues.Command.{Operation, BookkeepingTarget}

-- the status of a stored row
pub data RowStatus : Type 0 where
  persisted delivery_blocked outcome_unknown : RowStatus

pub record StoredRow : Type 0 where
  pub source_task : String
  pub target_key : String
  pub operation : Operation
  pub status : RowStatus
  pub issue_comment_id : Option String
  pub url : Option String
  pub detail : Option String
  pub created_at : ℕ
  pub updated_at : ℕ

-- the dedupe rows, and GitHub
pub record Store (G : Type 0) : Type 0 where
  pub rows : Table StoredRow
  pub github : G

-- one request to GitHub
pub record Delivery : Type 0 where
  pub target : BookkeepingTarget
  pub operation : Operation
  pub body : Option String
  pub token : String

-- an answer of GitHub, and the body if it is JSON
pub record Response : Type 0 where
  pub status : ℕ
  pub body : Option Json

-- GitHub; `none` stands for a failure of the transport. `print` is `String` of a value.
pub record Platform (G : Type 0) : Type 0 where
  pub deliver : Delivery → G → Option Response × G
  pub print : Json → String
  pub print_status : ℕ → String
  pub json_parse : String → Option Json

pub record SubmitInput : Type 0 where
  pub command : Json
  pub token : Option String
  pub targets_raw : Option String
  pub now : ℕ

pub data BookkeepingStatus : Type 0 where
  persisted idempotent_replay delivery_blocked outcome_unknown rejected_target : BookkeepingStatus

pub record BookkeepingReceipt : Type 0 where
  pub status : BookkeepingStatus
  pub dedupe_key : String
  pub source_task : String
  pub target_key : String
  pub operation : Operation
  pub target : Option BookkeepingTarget
  pub issue_comment_id : Option String
  pub url : Option String
  pub detail : Option String
  pub occurred_at : ℕ

pub data BookkeepingReply : Type 0 where
  receipt : BookkeepingReceipt → BookkeepingReply
  -- STATE_VALIDATION_FAILED and STATE_UNAVAILABLE
  invalid unavailable : BookkeepingReply

abbrev pub truthy : Option String → Option String
truthy none = none
truthy (some s) = if str_eq s "" then none else some s

abbrev pub text : String → String → String
text a b = String.◌++◌ a b

abbrev pub bullets : List String → String
bullets [] = ""
bullets (r ∷ []) = text "- " r
bullets (r ∷ (q ∷ rs)) = text (text "- " r) (text "\n" (bullets (q ∷ rs)))

-- `assembleBody`
unfoldable pub assemble_body : String → Option (List String) → String
assemble_body body none = body
assemble_body body (some []) = body
assemble_body body (some (r ∷ rs)) = text body (text "\n\n" (bullets (r ∷ rs)))

-- the row's status, the answer's, and the details, by GitHub's answer
pub record Verdict : Type 0 where
  pub row_status : RowStatus
  pub status : BookkeepingStatus
  pub issue_comment_id : Option String
  pub url : Option String
  pub detail : Option String

abbrev pub failed_with : RowStatus → BookkeepingStatus → String → Verdict
failed_with row_status status detail = record {
  row_status = row_status;
  status = status;
  issue_comment_id = none;
  url = none;
  detail = some detail;
}
