-- ===== src/Runs/Envelope/Identity.antt =====
-- The gates and the identity of an envelope in `src/run-envelope.ts`, and `computeTimeliness` of
-- `src/automation-run-ledger.ts`.
use Prim.Native.String
use quantpro_collector.Prelude.{
  ℕ, ◌+◌, ◌*◌, Bool, true, false, not, ◌&&◌, ◌||◌, Option, none, some, String, str_eq, ltb,
  if◌then◌else◌,
}
use quantpro_collector.Json.{Json, get, record_of, text_of}
use quantpro_collector.State.Receipts.{StateWriteChannel, market}
use quantpro_collector.State.Close.{Answer, answer, thrown}
use quantpro_collector.State.Batch.{InvestmentLedgerRole}
use quantpro_collector.Runs.Envelope.{
  PreWriteBlocker, ChannelPayload, market_payload, role_payload, RunEnvelope, Platform,
  automation_registry_keys, read_only_tasks, is_task, portfolio_not_confirmed, data_unavailable,
  upstream_unavailable,
}

-- the task of an envelope that its schema refuses, if it has one
unfoldable pub raw_task_name : Json → Option String
raw_task_name raw = elim (record_of raw) [
  | none ↦ none
  | some m ↦ elim (get "task_name" m) [
    | none ↦ none
    | some v ↦ elim (text_of v) [
      | none ↦ none
      | some t ↦ if is_task automation_registry_keys t then some t else none
    ]
  ]
]

-- its summary, before it is clipped
unfoldable pub raw_summary : Json → Option String
raw_summary raw = elim (record_of raw) [
  | none ↦ none
  | some m ↦ elim (get "summary" m) [ none ↦ none | some v ↦ text_of v ]
]

abbrev pub is_some : {A : Type 0} → Option A → Bool
is_some none = false
is_some (some a) = true

-- `comboViolation`
unfoldable pub combo_violation : RunEnvelope → Bool
combo_violation e =
    if is_some e.channel_payload && (is_some e.blocked_by || is_some e.observations)
    then true
    else if is_some e.blocked_by && is_some e.observations
    then true
    else is_some e.observations && not (is_task read_only_tasks e.task_name)

pub record RunIdentity : Type 0 where
  pub envelope_key : String
  pub channel : Option StateWriteChannel
  pub event_count : Option ℕ
  pub as_of : Option String
  pub prompt_version : Option String

abbrev pub channel_of : InvestmentLedgerRole → StateWriteChannel
channel_of InvestmentLedgerRole.industry = StateWriteChannel.industry
channel_of InvestmentLedgerRole.company = StateWriteChannel.company
channel_of InvestmentLedgerRole.close = StateWriteChannel.close

abbrev pub role_text : InvestmentLedgerRole → String
role_text InvestmentLedgerRole.industry = "INDUSTRY"
role_text InvestmentLedgerRole.company = "COMPANY"
role_text InvestmentLedgerRole.close = "CLOSE"

abbrev pub blocker_text : PreWriteBlocker → String
blocker_text portfolio_not_confirmed = "PORTFOLIO_NOT_CONFIRMED"
blocker_text data_unavailable = "DATA_UNAVAILABLE"
blocker_text upstream_unavailable = "UPSTREAM_UNAVAILABLE"

abbrev pub text : String → String → String
text a b = String.◌++◌ a b

abbrev pub bare_identity : String → RunIdentity
bare_identity key = record {
  envelope_key = key;
  channel = none;
  event_count = none;
  as_of = none;
  prompt_version = none;
}

module _ {R : Type 0} (pf : Platform R) where
  abbrev payload_identity : ChannelPayload → Answer RunIdentity
  payload_identity (market_payload as_of production_ref n content) = answer (record {
    envelope_key = text "E:MARKET:" (pf.sha256 content);
    channel = some market;
    event_count = some n;
    as_of = some as_of;
    prompt_version = some production_ref;
  })
  payload_identity (role_payload role as_of n content) = elim (pf.command_sha256 role content) [
    | thrown e ↦ thrown e
    | answer h ↦ answer (record {
      envelope_key = text "E:" (text (role_text role) (text ":" h));
      channel = some (channel_of role);
      event_count = some n;
      as_of = some as_of;
      prompt_version = none;
    })
  ]

  -- the envelope's identity: its content, or for a bare run its kind and hour
  unfoldable pub run_identity : RunEnvelope → ℕ → Answer RunIdentity
  run_identity e now = elim e.blocked_by [
    | some b ↦ answer (bare_identity (text "BL:" (text (blocker_text b) (text ":" (pf.hour now)))))
    | none ↦ elim e.observations [
      | some n ↦ answer (bare_identity (text "OB:" (text (pf.print n) (text ":" (pf.hour now)))))
      | none ↦ elim e.channel_payload [
        | none ↦ answer (bare_identity (text "HB:" (pf.hour now)))
        | some p ↦ payload_identity p
      ]
    ]
  ]

  -- `computeTimeliness`
  unfoldable pub compute_timeliness : Option String → ℕ → Bool
  compute_timeliness none received = false
  compute_timeliness (some as_of) received =
      if str_eq as_of "" then false else elim (pf.date_parse as_of) [
        | none ↦ true
        | some t ↦ ltb (t + 40 * 60 * 1000) received || ltb (received + 5 * 60 * 1000) t
      ]
