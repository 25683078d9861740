-- ===== src/Workflow/Input.antt =====
-- The tests that research-workflow.ts and research-scopes.ts make on their text inputs.
use quantpro_collector.Prelude.{
  ℕ, Bool, false, ◌&&◌, ◌||◌, Option, none, some, String, str_eq, leb, ◌==◌, if◌then◌else◌, codes,
  js_length, is_digit, is_lower, is_upper, is_lower_hex, strip_prefix, repeats,
}
use quantpro_collector.Workflow.Rows.{
  ResearchOrigin, chatgpt, synthetic, replay, DeferReason, recheck_required, upstream_unavailable,
  needs_owner_input,
}

-- RESEARCH_LEASE_TTL_SECONDS, in milliseconds
abbrev pub lease_ttl_ms : ℕ
lease_ttl_ms = 3_600_000

-- `jobId.length < 1 || jobId.length > RESEARCH_CLAIM_JOB_ID_MAX_LENGTH` does not hold
unfoldable pub job_id_ok : String → Bool
job_id_ok job_id = leb 1 (js_length job_id) && leb (js_length job_id) 256

-- `RESEARCH_IDEMPOTENCY_KEY_PATTERN`, /^[A-Za-z0-9:_-]{8,128}$/
abbrev is_key_char : ℕ → Bool
is_key_char c = is_upper c || is_lower c || is_digit c || c == b':' || c == b'_' || c == b'-'

unfoldable pub idempotency_key_ok : String → Bool
idempotency_key_ok key = repeats is_key_char 8 128 (codes key)

-- `isFormalResearchOwner`: /^oauth-client:[a-f0-9]{64}$/
unfoldable pub is_formal_research_owner : String → Bool
is_formal_research_owner value = elim (strip_prefix (codes "oauth-client:") (codes value)) [
  | none ↦ false
  | some hex ↦ repeats is_lower_hex 64 64 hex
]

-- The declared origin, with its default; `none` is a text outside the closed set.
unfoldable pub declared_origin : Option String → Option ResearchOrigin
declared_origin none = some chatgpt
declared_origin (some o) =
    if str_eq o "CHATGPT"
    then some chatgpt
    else if str_eq o "SYNTHETIC"
    then some synthetic
    else if str_eq o "REPLAY"
    then some replay
    else none

-- `DEFER_REASONS.includes(reason)`
unfoldable pub defer_reason : String → Option DeferReason
defer_reason r =
    if str_eq r "RECHECK_REQUIRED"
    then some recheck_required
    else if str_eq r "UPSTREAM_UNAVAILABLE"
    then some upstream_unavailable
    else if str_eq r "NEEDS_OWNER_INPUT"
    then some needs_owner_input
    else none

-- `!Number.isInteger(expectedGeneration) || expectedGeneration < 1` does not hold; `none` stands
-- for a number that is no integer, or a negative one.
unfoldable pub generation_ok : Option ℕ → Option ℕ
generation_ok none = none
generation_ok (some g) = if leb 1 g then some g else none
