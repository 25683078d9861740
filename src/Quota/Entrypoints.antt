-- ===== src/Quota/Entrypoints.antt =====
-- `src/quota-entrypoints.ts`: the catalog of entrypoints with their cost.
use quantpro_collector.Prelude.{
  ℕ, Bool, true, false, not, Option, none, some, List, [], ◌∷◌, ◌++◌, String, str_eq, any, find?,
  filter, map,
}
use quantpro_collector.Quota.Dimensions.{◌⧺◌}

pub data EntrypointKind : Type 0 where
  http mcp_tool cron oauth : EntrypointKind

pub data RouteCostClass : Type 0 where
  control light_read heavy_bounded heavy_unbounded : RouteCostClass

pub record RouteDimension : Type 0 where
  pub dimension_key : String
  pub units : ℕ

pub record RouteCostProfile : Type 0 where
  pub route : String
  pub kind : EntrypointKind
  pub cost_class : RouteCostClass
  pub dimensions : List RouteDimension
  pub note : String

abbrev profile :
    EntrypointKind → String → RouteCostClass → List RouteDimension → String → RouteCostProfile
profile kind route cost_class dimensions note = record {
  route = route;
  kind = kind;
  cost_class = cost_class;
  dimensions = dimensions;
  note = note;
}

abbrev d1_read : ℕ → RouteDimension
d1_read n = record { dimension_key = "d1.rows_read"; units = n }

abbrev d1_write : ℕ → RouteDimension
d1_write n = record { dimension_key = "d1.rows_written"; units = n }

abbrev r2_a : ℕ → RouteDimension
r2_a n = record { dimension_key = "r2.class_a"; units = n }

abbrev r2_b : ℕ → RouteDimension
r2_b n = record { dimension_key = "r2.class_b"; units = n }

-- `QUOTA_HTTP_ROUTES`
unfoldable pub quota_http_routes : List RouteCostProfile
quota_http_routes =
    profile http "http:/api/github-auth/probe" control []
      "GitHub auth probe; no Collector paid resource beyond inbound billing"
    ∷ profile http "http:/api/github-auth/quote-universe" light_read (d1_read 8 ∷ [])
        "D1-backed universe read"
    ∷ profile http "http:/api/github-auth/portfolio-status" light_read (d1_read 8 ∷ [])
        "D1-backed status read"
    ∷ profile http "http:/api/control-plane-status" light_read (d1_read 8 ∷ [])
        "read-only diagnostics"
    ∷ profile http "http:/api/quote-universe" light_read (d1_read 8 ∷ []) "universe snapshot read"
    ∷ profile http "http:/api/public/quotes" light_read []
        "upstream quote proxy; no Collector paid dimension"
    ∷ profile http "http:/api/portfolio-quotes" light_read []
        "upstream quote proxy; no Collector paid dimension"
    ∷ profile http "http:/internal/research-replica/v2/ingest" heavy_bounded
        (d1_read 10_000 ∷ d1_write 1_000 ∷ r2_a 4 ∷ r2_b 4 ∷ [])
        "replica ingest: journal+object R2 writes and one D1 batch per record. Declared caps are the accounting aggregation hints; actual usage is observed post-hoc by the pure resource observers."
    ∷ profile http "http:/internal/research-replica/v2/receipts" light_read (d1_read 8 ∷ [])
        "receipt read by message id"
    ∷ profile http "http:/internal/research-semantic-index/run" control []
        "SEALED (quota redesign 2026-10-02, G2): cloud batch embedding is permanently disabled and the route returns a structured pointer to the local RTX 5080 GPU pipeline; zero Workers AI calls"
    ∷ profile http "http:/internal/research-semantic-index/pending" light_read
        (d1_read 500_000 ∷ [])
        "read-only cursor page of at most 128 already-registered versions using the forced (state,document,version) index; the local GPU pipeline polls this to plan its embedding work"
    ∷ profile http "http:/internal/research-semantic-index/ingest-vectors" heavy_bounded
        (d1_read 500 ∷ d1_write 300 ∷ [])
        "locally-computed embeddings (owner approved 2026-09-30): zero Workers AI cost; the declaration covers the state-row read/write and one Vectorize upsert per document; Vectorize stored-dimension growth stays on the direct binding"
    ∷ profile http "http:/internal/research-semantic-index/status" light_read (d1_read 16 ∷ [])
        "index state read"
    ∷ profile http "http:/internal/research-semantic-index/probe" light_read (d1_read 16 ∷ [])
        "deployment probe read (one single-query embedding, operator-triggered only)"
    ∷ profile http "http:/internal/research-retention/run" heavy_unbounded []
        "retention sweep combines an unbounded records scan with Vectorize stock deletion"
    ∷ profile oauth "oauth:/authorize" control (d1_read 32 ∷ d1_write 32 ∷ [])
        "OAuth/KV table writes served from D1"
    ∷ profile oauth "oauth:/oauth/token" control (d1_read 32 ∷ d1_write 32 ∷ [])
        "token issue/refresh writes"
    ∷ profile oauth "oauth:/mcp" control (d1_read 16 ∷ [])
        "dispatch to the MCP surface; per-tool class applies"
    ∷ profile oauth "oauth:/__oauth_diag/latest" light_read (d1_read 8 ∷ d1_write 4 ∷ [])
        "diagnostic D1 writes are billed"
    ∷ []

-- an entry of `TOOL_CLASSES`
abbrev tool : String → RouteCostClass → List RouteDimension → String → RouteCostProfile
tool name = profile mcp_tool ("mcp:" ⧺ name)

-- `TOOL_CLASSES` up to the gateway status
unfoldable pub ledger_tools : List RouteCostProfile
ledger_tools =
    tool "calculate" light_read [] "connectivity probe; no paid dimension"
    ∷ tool "get_portfolio_quotes" light_read [] "upstream quote proxy"
    ∷ tool "get_public_quotes" light_read [] "upstream quote proxy"
    ∷ tool "get_control_plane_status" light_read [] "read-only status"
    ∷ tool "get_state_snapshot" light_read (d1_read 32 ∷ []) "ledger read"
    ∷ tool "read_state_snapshot" light_read (d1_read 32 ∷ []) "ledger read"
    ∷ tool "read_state_snapshot_v2" light_read (d1_read 32 ∷ []) "ledger read"
    ∷ tool "append_company_events" heavy_bounded (d1_read 32 ∷ d1_write 32 ∷ []) "ledger append"
    ∷ tool "append_industry_events" heavy_bounded (d1_read 32 ∷ d1_write 32 ∷ []) "ledger append"
    ∷ tool "append_close_events" heavy_bounded (d1_read 32 ∷ d1_write 32 ∷ []) "ledger append"
    ∷ tool "append_market_observation" heavy_bounded (d1_read 32 ∷ d1_write 32 ∷ []) "ledger append"
    ∷ tool "submit_run_envelope" heavy_bounded (d1_read 32 ∷ d1_write 32 ∷ []) "ledger append"
    ∷ tool "validate_state_batch" light_read (d1_read 16 ∷ []) "validation only"
    ∷ tool "append_state_batch" heavy_bounded (d1_read 64 ∷ d1_write 64 ∷ []) "state gateway write"
    ∷ tool "begin_run" heavy_bounded (d1_read 16 ∷ d1_write 16 ∷ []) "run audit write"
    ∷ tool "end_run" heavy_bounded (d1_read 16 ∷ d1_write 16 ∷ []) "run audit write"
    ∷ tool "record_automation_run" heavy_bounded (d1_read 16 ∷ d1_write 16 ∷ []) "run audit write"
    ∷ tool "get_automation_run_history" light_read (d1_read 32 ∷ []) "run audit read"
    ∷ tool "get_production_health_snapshot" light_read (d1_read 32 ∷ [])
        "#50 bounded read-only health projection"
    ∷ tool "submit_issue_bookkeeping" heavy_bounded (d1_read 16 ∷ d1_write 16 ∷ [])
        "issue #52 controlled bookkeeping: one dedupe read+write; the GitHub call is not a D1 dimension"
    ∷ tool "get_state_write_receipt" light_read (d1_read 16 ∷ []) "receipt read"
    ∷ tool "get_gateway_status" light_read (d1_read 16 ∷ []) "gateway diagnostics"
    ∷ []

-- `TOOL_CLASSES` behind it
unfoldable pub research_tools : List RouteCostProfile
research_tools =
    tool "get_market_checkpoints" light_read (d1_read 32 ∷ []) "checkpoint read"
    ∷ tool "append_market_checkpoint" heavy_bounded (d1_read 32 ∷ d1_write 32 ∷ [])
        "checkpoint write"
    ∷ tool "search_documents" heavy_bounded (d1_read 128 ∷ []) "FTS index read"
    ∷ tool "get_document" light_read (d1_read 16 ∷ []) "document read"
    ∷ tool "search_documents_semantic" heavy_bounded (d1_read 32 ∷ [])
        "semantic query: one bge-m3 query embedding (<1 Neuron, the ONLY remaining cloud AI spend) + one 1024-dim index query + index lookups; the single-shot query-to-vector path is preserved untouched (quota redesign 2026-10-02)"
    ∷ tool "search_evidence" light_read (d1_read 32 ∷ []) "evidence read"
    ∷ tool "get_evidence" light_read (d1_read 16 ∷ []) "evidence read"
    ∷ tool "get_theme_accumulator" light_read (d1_read 16 ∷ []) "accumulator read"
    ∷ tool "get_company_evidence_state" light_read (d1_read 16 ∷ []) "accumulator read"
    ∷ tool "get_coverage_status" light_read (d1_read 32 ∷ []) "coverage read"
    ∷ tool "get_source_health" light_read (d1_read 32 ∷ []) "source health read"
    ∷ tool "get_market_signal_state" light_read (d1_read 16 ∷ []) "market signal read"
    ∷ tool "list_research_jobs" light_read (d1_read 64 ∷ []) "job index read"
    ∷ tool "get_research_job_context" light_read (d1_read 32 ∷ []) "job context read"
    ∷ tool "claim_research_job" heavy_bounded (d1_read 32 ∷ d1_write 32 ∷ []) "lease claim write"
    ∷ tool "submit_research_result_proposal" heavy_bounded (d1_read 32 ∷ d1_write 32 ∷ r2_a 2 ∷ [])
        "proposal write plus durable journal object"
    ∷ tool "defer_research_job" heavy_bounded (d1_read 32 ∷ d1_write 32 ∷ []) "lease defer write"
    ∷ []

unfoldable pub quota_mcp_tools : List RouteCostProfile
unfolding ledger_tools research_tools
quota_mcp_tools = ledger_tools ++ research_tools

-- `QUOTA_CRONS`
unfoldable pub quota_crons : List RouteCostProfile
quota_crons =
    profile cron "cron:55 0 * * mon-fri" control [] "quote bridge schedule; upstream calls only"
    ∷ profile cron "cron:39,44,49 1,2,3,5,6 * * mon-fri" control [] "quote bridge schedule"
    ∷ profile cron "cron:24,29,54,59 7 * * mon-fri" control [] "quote bridge schedule"
    ∷ profile cron "cron:4,9,24,29 8 * * mon-fri" control [] "quote bridge schedule"
    ∷ profile cron "cron:30 20 * * *" heavy_unbounded []
        "daily retention sweep: unbounded documents scan plus Vectorize deletion"
    ∷ profile cron "cron:40 16 * * *" control []
        "SEALED (quota redesign 2026-10-02, G2): registration kept so the cron catalog stays complete, but the handler is a structured no-op log; cloud batch embedding belongs to the local GPU pipeline"
    ∷ []

unfoldable pub quota_entrypoints : List RouteCostProfile
unfolding quota_http_routes quota_mcp_tools quota_crons
quota_entrypoints = quota_http_routes ++ quota_mcp_tools ++ quota_crons

-- `routeCostProfile`: the routes are distinct, so that the first entry is the last
unfoldable pub route_cost_profile : String → Option RouteCostProfile
unfolding quota_entrypoints
route_cost_profile route = find? (λ e. str_eq e.route route) quota_entrypoints

abbrev pub same_kind : EntrypointKind → EntrypointKind → Bool
same_kind http http = true
same_kind mcp_tool mcp_tool = true
same_kind cron cron = true
same_kind oauth oauth = true
same_kind _ _ = false

abbrev pub kind_matches : Option EntrypointKind → RouteCostProfile → Bool
kind_matches none e = true
kind_matches (some k) e = same_kind e.kind k

abbrev pub seen : List String → String → Bool
seen observed route = any (λ o. str_eq o route) observed

-- `missingEntrypoints`
unfoldable pub missing_entrypoints : List String → Option EntrypointKind → List String
unfolding quota_entrypoints
missing_entrypoints observed kind =
    map RouteCostProfile.route
      (filter (λ e. not (seen observed e.route)) (filter (kind_matches kind) quota_entrypoints))

abbrev is_classified : Option RouteCostProfile → Bool
is_classified none = false
is_classified (some e) = true

-- `unclassifiedEntrypoints`
unfoldable pub unclassified_entrypoints : List String → List String
unfolding route_cost_profile
unclassified_entrypoints observed =
    filter (λ route. not (is_classified (route_cost_profile route))) observed
