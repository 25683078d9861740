-- ===== src/Workflow/Canonical.antt =====
-- `canonicalJson` and `prepareProposal` of research-workflow.ts, over what the platform and the
-- outbound boundary provide.
use Prim.Native.String
use Prim.Native.String.{len}
use quantpro_collector.Prelude.{
  ℕ, ◌+◌, ◌-◌, ◌/◌, ◌%◌, Bool, true, false, not, Option, some, List, [], ◌∷◌, String, ltb, ◌==◌,
  if◌then◌else◌, codes,
}
use quantpro_collector.Json.{
  Json, null, bool, num, other_num, str, arr, obj, Items, nil, cons, Fields, end, field,
}
use quantpro_collector.Workflow.Proposal.{validate_proposal_structure}

-- `Date.parse`, `JSON.stringify` of a value that is no container, the hex of SHA-256, and
-- `assertOutboundV2PayloadSafe` (false where it throws).
pub record Platform : Type 0 where
  pub date_parse : String → Option ℕ
  pub stringify : Json → String
  pub sha256 : String → String
  pub payload_safe : Json → Bool

infixr 65 ◌⧺◌
abbrev pub ◌⧺◌ : String → String → String
a ⧺ b = String.◌++◌ a b

-- the UTF-16 units of a text, by which `sort()` orders keys
abbrev pub utf16 : List ℕ → List ℕ
utf16 [] = []
utf16 (c ∷ cs) =
    if ltb c 0x10000
    then c ∷ utf16 cs
    else (0xd800 + (c - 0x10000) / 0x400) ∷ (0xdc00 + (c - 0x10000) % 0x400) ∷ utf16 cs

units_le : List ℕ → List ℕ → Bool
units_le [] ys = true
units_le (x ∷ xs) [] = false
units_le (x ∷ xs) (y ∷ ys) = if ltb x y then true else if x == y then units_le xs ys else false

-- An entry of an object is its key and the text that stands for it.
unfoldable pub insert_entry : String × String → List (String × String) → List (String × String)
unfolding units_le
insert_entry e [] = e ∷ []
insert_entry e (f ∷ fs) =
    if units_le (utf16 (codes e.0)) (utf16 (codes f.0)) then e ∷ f ∷ fs else f ∷ insert_entry e fs

abbrev pub join : List String → String
join [] = ""
join (s ∷ []) = s
join (s ∷ t ∷ ts) = s ⧺ "," ⧺ join (t ∷ ts)

abbrev pub texts : List (String × String) → List String
texts [] = []
texts (e ∷ es) = e.1 ∷ texts es

module _ (pf : Platform) where
  unfoldable mutual
    pub canonical_json : Json → String
    canonical_json (arr vs) = "[" ⧺ join (canonical_items vs) ⧺ "]"
    canonical_json (obj fs) = "{" ⧺ join (texts (canonical_fields fs)) ⧺ "}"
    canonical_json null = pf.stringify null
    canonical_json (bool b) = pf.stringify (bool b)
    canonical_json (num n) = pf.stringify (num n)
    canonical_json (other_num t) = pf.stringify (other_num t)
    canonical_json (str s) = pf.stringify (str s)

    pub canonical_items : Items → List String
    canonical_items nil = []
    canonical_items (cons v vs) = canonical_json v ∷ canonical_items vs

    pub canonical_fields : Fields → List (String × String)
    canonical_fields end = []
    canonical_fields (field k v fs) =
        insert_entry (k, pf.stringify (str k) ⧺ ":" ⧺ canonical_json v) (canonical_fields fs)

pub record PreparedProposal : Type 0 where
  pub payload_json : String
  pub payload_sha256 : String
  pub oversize : Bool
  pub structure_error : Option String

module _ (pf : Platform) where
  -- The proposal with its hash; an unsafe or an oversized body is not kept.
  unfoldable pub prepare_proposal : Json → String → PreparedProposal
  unfolding canonical_json validate_proposal_structure
  prepare_proposal proposal job =
      let structure_error = validate_proposal_structure pf.date_parse proposal job in
      let payload = canonical_json pf proposal in
      if not (pf.payload_safe proposal)
      then record {
        payload_json = "{}";
        payload_sha256 = pf.sha256 "{}";
        oversize = false;
        structure_error = some "unsafe_payload";
      }
      else if ltb 65_536 (len payload)
      then record {
        payload_json = "{}";
        payload_sha256 = pf.sha256 "{}";
        oversize = true;
        structure_error = structure_error;
      }
      else record {
        payload_json = payload;
        payload_sha256 = pf.sha256 payload;
        oversize = false;
        structure_error = structure_error;
      }
