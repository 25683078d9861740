-- ===== src/Runs/Tests.antt =====
-- Run envelopes (src/run-envelope.ts) at concrete inputs: every command is new, and `rest` holds
-- the envelope keys that a command was called with.
use quantpro_collector.Prelude.{arith, true, none, some, List, [], ◌∷◌, String}
use quantpro_collector.Json.{null}
use quantpro_collector.Db.Prog.{alone, run}
use quantpro_collector.State.Receipts.{StateWriteChannel}
use quantpro_collector.State.Close.{answer}
use quantpro_collector.State.Batch.{InvestmentLedgerRole}
use quantpro_collector.Runs.Rows.{StoredRun, RunStore, read_run}
use quantpro_collector.Runs.Envelope.{RunEnvelope, RunInput, Platform, ChannelPayload, role_payload}
use quantpro_collector.Runs.Envelope.Identity.{RunIdentity}
use quantpro_collector.Runs.Envelope.Process.{process_run_envelope}
use quantpro_collector.Runs.History.{History}
use quantpro_collector.Runs.Calls.{process_run_envelope-History}
use quantpro_collector.Runs.Once.{run_outcome, final_row}

abbrev Keys : Type 0
Keys = List String

abbrev payload : ChannelPayload
payload = role_payload InvestmentLedgerRole.company "2026-01-05" 2 null

abbrev envelope : RunEnvelope
envelope = record {
  task_name = "company-facts";
  summary = "two events";
  blocked_by = none;
  observations = none;
  channel_payload = some payload;
}

abbrev platform : Platform Keys
platform = record {
  parse = λ v. some envelope;
  envelope_json = λ e. null;
  sha256 = λ v. "hash";
  command_sha256 = λ role v. answer "hash";
  hour = λ t. "2026-01-05T01";
  print = λ n. "1";
  clip = λ s. s;
  date_parse = λ s. none;
  code_text = λ code phase. "code";
  resolve_owner_context = some (λ keys. answer tt);
  execute = λ p key keys. (
    answer (record { is_new = true; write_key = "event-1"; comment_id = "comment"; url = "url" }),
    key ∷ keys,
  );
  find_receipt = λ key keys. none;
}

abbrev input : String → RunInput
input id = record {
  envelope = null;
  received_at = 100;
  new_run_id = id;
  created_at = 101;
  updated_at = 102;
  collector_build_sha = none;
  cloudflare_version_id = none;
}

abbrev identity : RunIdentity
identity = record {
  envelope_key = "E:hash";
  channel = some StateWriteChannel.company;
  event_count = some 2;
  as_of = some "2026-01-05";
  prompt_version = none;
}

abbrev no_runs : RunStore Keys
no_runs = record { runs = []; rest = [] }

no_runs-History : History no_runs no_runs
unfolding read_run
no_runs-History = record { follows = λ task key. tt; unique = λ task key. ground arith }

process_run_envelope-History_example :
    History no_runs (run alone 0 (process_run_envelope platform (input "run-1")) no_runs).1
process_run_envelope-History_example =
    process_run_envelope-History platform alone (input "run-1") no_runs (λ n s h. h) no_runs-History

abbrev last_row : StoredRun
last_row =
    final_row platform (input "run-1") envelope identity
      (run_outcome platform (input "run-1") envelope identity []).0
