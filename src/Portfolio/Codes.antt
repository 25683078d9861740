-- ===== src/Portfolio/Codes.antt =====
-- The validators of portfolio-delta.ts: code identities, hashes, timestamps and states. Each gives
-- `none` where the code throws.
use quantpro_collector.Prelude.{
  ℕ, Bool, true, false, not, ◌&&◌, ◌||◌, Option, none, some, List, [], ◌∷◌, String, str_eq, ltb,
  ◌==◌, any, codes, is_digit, is_lower_hex, strip_prefix, repeats, if◌then◌else◌,
}
use Prim.Native.String
use quantpro_collector.Json.{Json, items, fields, str, arr, obj, text_of, get}

-- `HASH_PATTERN`: sha256: and 64 lower-case hexadecimal digits
unfoldable pub hash_pattern : String → Bool
hash_pattern s = elim (strip_prefix (codes "sha256:") (codes s)) [
  | none ↦ false
  | some rest ↦ repeats is_lower_hex 64 64 rest
]

abbrev digits_behind : String → String → Bool
digits_behind prefix s = elim (strip_prefix (codes prefix) (codes s)) [
  | none ↦ false
  | some rest ↦ repeats is_digit 5 6 rest
]

-- `CODE_PATTERN`: CN: or HK: and five or six digits
unfoldable pub code_pattern : String → Bool
code_pattern s = digits_behind "CN:" s || digits_behind "HK:" s

unfoldable pub assert_hash : Option Json → Option String
assert_hash (some (str s)) = if hash_pattern s then some s else none
assert_hash _ = none

-- The blank test and `Date.parse` are the platform's; an instant is counted from the earliest one
-- that a Date can hold.
pub record Clock : Type 0 where
  pub is_blank : String → Bool
  pub date_parse : String → Option ℕ

-- a timestamp is its text and its instant
unfoldable pub assert_timestamp : Clock → Option Json → Option (String × ℕ)
assert_timestamp clock (some (str s)) =
    if clock.is_blank s
    then none
    else elim (clock.date_parse s) [ none ↦ none | some t ↦ some (s, t) ]
assert_timestamp clock _ = none

pub data PortfolioDeltaState : Type 0 where
  live_complete lkg_valid portfolio_unknown : PortfolioDeltaState

abbrev pub state_of : String → Option PortfolioDeltaState
state_of s =
    if str_eq s "LIVE_COMPLETE"
    then some live_complete
    else if str_eq s "LKG_VALID"
    then some lkg_valid
    else if str_eq s "PORTFOLIO_UNKNOWN"
    then some portfolio_unknown
    else none

unfoldable pub assert_state : Option Json → Option PortfolioDeltaState
assert_state (some (str s)) = state_of s
assert_state _ = none

-- What a template literal makes of a member; `print` does it for what is no text.
abbrev member_text : (Json → String) → Option Json → String
member_text print none = "undefined"
member_text print (some (str s)) = s
member_text print (some v) = print v

-- `canonicalCode`
unfoldable pub canonical_code : (Json → String) → Json → Option String
canonical_code print (str s) = if code_pattern s then some s else none
canonical_code print (obj fs) =
    let candidate =
      String.◌++◌ (member_text print (get "market" (fields fs)))
        (String.◌++◌ ":" (member_text print (get "code" (fields fs)))) in
    if code_pattern candidate then some candidate else none
canonical_code print _ = none

-- `values.map(...)`, where one throw ends it
unfoldable pub map_codes : (Json → String) → List Json → Option (List String)
map_codes print [] = some []
map_codes print (v ∷ vs) = elim (canonical_code print v) [
  | none ↦ none
  | some c ↦ elim (map_codes print vs) [ none ↦ none | some cs ↦ some (c ∷ cs) ]
]

abbrev pub contains : List String → String → Bool
contains cs c = any (λ d. str_eq d c) cs

-- `new Set(result).size === result.length`
unfoldable pub distinct : List String → Bool
distinct [] = true
distinct (c ∷ cs) = not (contains cs c) && distinct cs

-- `localeCompare` on codes: they are capital letters, a colon and digits, which it orders as their
-- code points are.
unfoldable pub codes_le : List ℕ → List ℕ → Bool
codes_le [] ys = true
codes_le (x ∷ xs) [] = false
codes_le (x ∷ xs) (y ∷ ys) = if ltb x y then true else if x == y then codes_le xs ys else false

abbrev pub code_le : String → String → Bool
code_le a b = codes_le (codes a) (codes b)

unfoldable pub insert_code : String → List String → List String
insert_code c [] = c ∷ []
insert_code c (d ∷ ds) = if code_le c d then c ∷ d ∷ ds else d ∷ insert_code c ds

unfoldable pub sort_codes : List String → List String
sort_codes [] = []
sort_codes (c ∷ cs) = insert_code c (sort_codes cs)

-- `canonicalPortfolioCodes`
unfoldable pub canonical_portfolio_codes : (Json → String) → List Json → Option (List String)
canonical_portfolio_codes print values = elim (map_codes print values) [
  | none ↦ none
  | some cs ↦ if distinct cs then some (sort_codes cs) else none
]

abbrev pub same_codes : List String → List String → Bool
same_codes [] ds = true
same_codes (c ∷ cs) [] = false
same_codes (c ∷ cs) (d ∷ ds) = str_eq c d && same_codes cs ds

-- `codes.some((code, index) => code !== value[index])` does not hold
abbrev pub same_texts : List String → List Json → Bool
same_texts [] vs = true
same_texts (c ∷ cs) [] = false
same_texts (c ∷ cs) (v ∷ vs) = elim (text_of v) [
  | none ↦ false
  | some s ↦ str_eq c s && same_texts cs vs
]

-- `assertCanonicalCodes`
unfoldable pub assert_canonical_codes : (Json → String) → Option Json → Option (List String)
assert_canonical_codes print (some (arr vs)) = elim (map_codes print (items vs)) [
  | none ↦ none
  | some cs ↦
      if same_texts cs (items vs) && (distinct cs && same_codes (sort_codes cs) cs)
      then some cs
      else none
]
assert_canonical_codes print _ = none

-- `assertNoOverlap` does not throw
unfoldable pub no_overlap : List String → List String → Bool
no_overlap added removed = not (any (λ c. contains removed c) added)
