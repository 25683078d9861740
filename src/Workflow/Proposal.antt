-- ===== src/Workflow/Proposal.antt =====
-- `validateProposalStructure` of research-workflow.ts, and the tests that it makes.
use quantpro_collector.Prelude.{
  ℕ, Bool, true, false, not, ◌&&◌, ◌||◌, Option, none, some, List, [], ◌∷◌, String, str_eq, leb,
  length, all, js_length, if◌then◌else◌,
}
use quantpro_collector.Json.{
  Json, null, num, str, arr, record_of, items, get, has, one_of, exact_keys,
}

abbrev required_keys : List String
required_keys =
    "job_id" ∷ "summary" ∷ "findings" ∷ "recommendation_hint" ∷ "sources_consulted" ∷ "completed_at"
    ∷ []

abbrev optional_keys : List String
optional_keys = "tokens_used" ∷ []

abbrev finding_keys : List String
finding_keys = "claim" ∷ "evidence_ids" ∷ "confidence" ∷ "counter_evidence" ∷ []

abbrev hints : List String
hints =
    "NONE" ∷ "THESIS_REVIEW" ∷ "COUNTER_EVIDENCE_FOUND" ∷ "NO_SECOND_SOURCE" ∷ "INSUFFICIENT_DATA"
    ∷ []

abbrev confidences : List String
confidences = "HIGH" ∷ "MEDIUM" ∷ "LOW" ∷ []

-- `boundedText(value, max, allowEmpty)`
unfoldable pub bounded_text : Option Json → ℕ → Bool → Bool
bounded_text (some (str s)) max_chars allow_empty =
    (allow_empty || leb 1 (js_length s)) && leb (js_length s) max_chars
bounded_text _ _ _ = false

-- `typeof id !== "string" || !id` does not hold
abbrev pub nonempty_text : Json → Bool
nonempty_text (str s) = leb 1 (js_length s)
nonempty_text _ = false

abbrev text_in : List String → Option Json → Bool
text_in names (some (str s)) = one_of names s
text_in names _ = false

abbrev is_null : Option Json → Bool
is_null (some null) = true
is_null _ = false

-- `Array.isArray(value) && value.length <= max`, and its entries
abbrev bounded_array : Option Json → ℕ → Option (List Json)
bounded_array (some (arr vs)) most = if leb (length (items vs)) most then some (items vs) else none
bounded_array _ _ = none

abbrev all_texts : Option Json → Bool
all_texts (some (arr vs)) = all nonempty_text (items vs)
all_texts _ = false

-- One round of the loop over the findings.
unfoldable pub finding_error : Json → Option String
unfolding bounded_text
finding_error finding = elim (record_of finding) [
  | none ↦ some "finding_keys"
  | some f ↦
      if not (exact_keys f finding_keys)
      then some "finding_keys"
      else if not (bounded_text (get "claim" f) 2000 true)
      then some "finding_claim"
      else if not (all_texts (get "evidence_ids" f))
      then some "finding_evidence_ids"
      else if not (text_in confidences (get "confidence" f))
      then some "finding_confidence"
      else if not
          (is_null (get "counter_evidence" f) || bounded_text (get "counter_evidence" f) 2000 true)
      then some "finding_counter_evidence"
      else none
]

unfoldable pub findings_error : List Json → Option String
unfolding finding_error
findings_error [] = none
findings_error (f ∷ fs) = elim (finding_error f) [ some e ↦ some e | none ↦ findings_error fs ]

abbrev source_ok : Json → Bool
source_ok s = bounded_text (some s) 500 true

abbrev sources_ok : Option Json → Bool
sources_ok v = elim (bounded_array v 100) [ none ↦ false | some vs ↦ all source_ok vs ]

-- `tokens_used` is missing, or a non-negative integer
abbrev tokens_ok : Option Json → Bool
tokens_ok none = true
tokens_ok (some (num n)) = true
tokens_ok (some _) = false

abbrev keys_ok : List (String × Json) → Bool
keys_ok p =
    all (λ k. has k p) required_keys
    && all (λ e. one_of required_keys e.0 || one_of optional_keys e.0) p

-- `isParseableIso`, over the `Date.parse` of the platform
abbrev parseable_iso : (String → Option ℕ) → Option Json → Bool
parseable_iso date_parse (some (str s)) = elim (date_parse s) [ none ↦ false | some t ↦ true ]
parseable_iso date_parse _ = false

abbrev job_bound : String → Option Json → Bool
job_bound job_id (some (str s)) = str_eq s job_id
job_bound job_id _ = false

-- What is left to test once the findings have passed.
unfoldable pub tail_error : (String → Option ℕ) → List (String × Json) → Option String
unfolding bounded_text
tail_error date_parse p =
    if not (text_in hints (get "recommendation_hint" p))
    then some "recommendation_hint"
    else if not (sources_ok (get "sources_consulted" p))
    then some "sources_consulted"
    else if not (tokens_ok (get "tokens_used" p))
    then some "tokens_used"
    else if not (parseable_iso date_parse (get "completed_at" p))
    then some "completed_at"
    else none

-- `none` when the proposal is well formed, otherwise the tag of the first rule that it breaks.
unfoldable pub validate_proposal_structure : (String → Option ℕ) → Json → String → Option String
unfolding bounded_text findings_error tail_error
validate_proposal_structure date_parse proposal job_id = elim (record_of proposal) [
  | none ↦ some "not_object"
  | some p ↦
      if not (keys_ok p)
      then some "keys"
      else if not (job_bound job_id (get "job_id" p))
      then some "job_binding"
      else if not (bounded_text (get "summary" p) 4000 false)
      then some "summary"
      else elim (bounded_array (get "findings" p) 50) [
        | none ↦ some "findings"
        | some fs ↦ elim (findings_error fs) [ some e ↦ some e | none ↦ tail_error date_parse p ]
      ]
]
