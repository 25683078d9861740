-- ===== src/Quota/Tests.antt =====
-- Runs of the quota modules (`src/quota-admission.ts` and its siblings) on small inputs.
use quantpro_collector.Prelude.{
  ◌+◌, ◌≡◌, true, false, ◌&&◌, none, some, List, [], ◌∷◌, str_eq, ltb, leb, All, if◌then◌else◌,
}
use quantpro_collector.Json.{num, str, bool, arr, obj, field, end, nil, cons}
use quantpro_collector.Quota.Dimensions.{
  Dates, DimensionSpec, billing_cycle, AccountPeriodAnchor, subscription_renewal,
}
use quantpro_collector.Quota.Admission.{
  verified, BaselineRow, Answers, dimension_status, QuotaTables,
}
use quantpro_collector.Quota.Metering.{
  ClientUsageInput, usage_row, record_client_usage, StoredCircuit,
}
use quantpro_collector.Quota.Billing.{BillingDimensionMapping, BillingReadInput}
use quantpro_collector.Quota.Closing.{amount, is_closed, shown, dimension_status-closed}
use quantpro_collector.Quota.Usage.{record_client_usage-counted, counters, counted, at_key}

abbrev dates : Dates
dates = record {
  date_parse =
      λ s. if str_eq s "start" then some 10 else if str_eq s "end" then some 20 else some 12;
  iso = λ n. "2026-10-02T00:00:00.000Z";
}

abbrev anchor : AccountPeriodAnchor
anchor = record {
  account_id = "account";
  period_start = "start";
  period_end = "end";
  anchor_kind = subscription_renewal;
  source = "operator";
  source_version = "1";
  verified_at = "middle";
}

abbrev rows_read : DimensionSpec
rows_read = record {
  key = "d1.rows_read";
  unit = "rows";
  period = billing_cycle;
  included = some 100;
  threshold_95 = some 95;
  provable = true;
  note = "";
}

abbrev baseline : BaselineRow
baseline = record {
  state = verified;
  used = 96;
  unobserved_upper_bound = 0;
  source = "meter";
  source_version = "1";
  as_of = "middle";
  coverage_end = none;
  recorded_at = "middle";
}

abbrev answers : Answers
answers = record {
  anchor = some (some anchor);
  live = none;
  baseline = λ d p. none;
  reserved = λ d p. none;
  booked = λ d p. some (some 1_000);
}

abbrev no_tables : QuotaTables
no_tables = record { periods = []; baselines = []; catalog = [] }

abbrev call : ClientUsageInput
call = record {
  route = "mcp:search_documents_semantic";
  client_id = "client";
  observed = record { dimension_key = "ai.neurons"; units = 7 } ∷ [];
  now = "2026-10-02T10:30:00.000Z";
}

abbrev circuit : StoredCircuit
circuit = record {
  dimension_key = "ai.neurons";
  state = "OPEN";
  current_usage = 10_000;
  threshold_95 = 10_000;
  as_of = "middle";
}

-- a payload with one row of usage, for the period of the anchor
abbrev payload : BillingReadInput
payload = record {
  http_status = 200;
  fetched_at = "middle";
  body = obj (
      field "success" (bool true) (
        field "result"
          (obj (
            field "billing_cycle_start" (str "start") (
              field "billing_cycle_end" (str "end") (
                field "account_id" (str "account") (
                  field "usage"
                    (arr (cons (obj (field "type" (str "rows") (field "value" (num 5) end))) nil))
                    end)))))
          end));
  account_id = "account";
  expected_period = some ("start", "end");
  pagination_complete = true;
  coverage_end = some "middle";
  max_age_ms = 100;
  now = some 15;
}

abbrev mappings : List BillingDimensionMapping
mappings =
    record {
      provider_usage_type = "rows";
      dimension_key = "d1.rows_read";
      scale = 1_000_000;
      evidence = "invoice";
    }
    ∷ []

dimension_status-closed_example :
    let s = dimension_status answers dates (some 15) "d1.rows_read" in
    is_closed s.state ≡ elim s.period_key [
      | none ↦ false
      | some p ↦ ltb 0 (amount s.threshold_95) && leb (amount s.threshold_95) (shown s)
    ]
dimension_status-closed_example = dimension_status-closed answers dates (some 15) "d1.rows_read"

record_client_usage-counted_example :
    All
      (λ f.
        counted f "2026-10-02T10:00:00Z" "client" call.route (record_client_usage call [])
        ≡ counted f "2026-10-02T10:00:00Z" "client" call.route []
          + (if at_key "2026-10-02T10:00:00Z" "client" call.route (usage_row call)
              then f (usage_row call)
              else 0))
      counters
record_client_usage-counted_example =
    record_client_usage-counted call "2026-10-02T10:00:00Z" "client" call.route []
