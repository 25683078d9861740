-- ===== src/Workflow/Cursor.antt =====
-- The receipt cursors of `src/research-workflow.ts`. A cursor is the list of its code points.
pub mod Trip
use quantpro_collector.Prelude.{
  ℕ, ◌+◌, ◌-◌, ◌*◌, Bool, true, false, not, ◌&&◌, ◌||◌, Option, none, some, List, [], ◌∷◌, ◌++◌,
  String, str_eq, leb, ◌==◌, if◌then◌else◌, codes, strip_prefix, is_digit, repeats,
}
use quantpro_collector.Json.{Json, num, str, obj, end, field, record_of, text_of, get}
use quantpro_collector.Workflow.Receipts.{receipt_order_epoch}

-- `btoa` of `JSON.stringify`, and `JSON.parse` of `atob`, which may throw; and whether `Date.parse`
-- of a text is a number
pub record Codec : Type 0 where
  pub encode_json : Json → List ℕ
  pub decode_json : List ℕ → Option Json
  pub is_time : List ℕ → Bool

-- `MAX_D1_RECEIPT_SEQUENCE`
abbrev pub max_d1_receipt_sequence : ℕ
max_d1_receipt_sequence = 9223372036854775807

abbrev pub decimal_from : ℕ → List ℕ → ℕ
decimal_from n [] = n
decimal_from n (c ∷ cs) = decimal_from (n * 10 + (c - b'0')) cs

-- `^[1-9][0-9]{0,18}$`
abbrev pub is_positive_decimal : List ℕ → Bool
is_positive_decimal [] = false
is_positive_decimal (c ∷ cs) = is_digit c && not (c == b'0') && repeats is_digit 0 18 cs

abbrev is_zero_text : List ℕ → Bool
is_zero_text (c ∷ []) = c == b'0'
is_zero_text _ = false

unfoldable pub is_receipt_sequence : (allow_zero : Bool) → String → Bool
is_receipt_sequence allow_zero s =
    ((allow_zero && is_zero_text (codes s)) || is_positive_decimal (codes s))
    && leb (decimal_from 0 (codes s)) max_d1_receipt_sequence

-- `receiptSequenceText`; `none` is the failure
unfoldable pub receipt_sequence_text : Option Json → (allow_zero : Bool) → Option String
unfolding is_receipt_sequence
receipt_sequence_text none allow_zero = none
receipt_sequence_text (some v) allow_zero = elim (text_of v) [
  | none ↦ none
  | some s ↦ if is_receipt_sequence allow_zero s then some s else none
]

abbrev pub cursor_json : String → Json
cursor_json s =
    obj (field "v" (num 3) (field "e" (str receipt_order_epoch) (field "s" (str s) end)))

-- `encodeReceiptCursor`
unfoldable pub encode_receipt_cursor : Codec → String → List ℕ
encode_receipt_cursor c s = codes "rcpt3." ++ c.encode_json (cursor_json s)

abbrev has_version : ℕ → List (String × Json) → Bool
has_version n m = elim (get "v" m) [ some (num k) ↦ k == n | _ ↦ false ]

abbrev has_epoch : List (String × Json) → Bool
has_epoch m = elim (get "e" m) [ some (str e) ↦ str_eq e receipt_order_epoch | _ ↦ false ]

abbrev pub from_zero : Bool → Option (Option String)
from_zero true = some (some "0")
from_zero false = none

abbrev is_some : {A : Type 0} → Option A → Bool
is_some none = false
is_some (some a) = true

abbrev pub third_version : List (String × Json) → Option (Option String)
third_version m =
    if has_version 3 m && has_epoch m
    then (elim (receipt_sequence_text (get "s" m) true) [ none ↦ none | some s ↦ some (some s) ])
    else none

abbrev pub second_version : List (String × Json) → Option (Option String)
second_version m = from_zero (has_version 2 m && is_some (receipt_sequence_text (get "s" m) false))

abbrev time_of : Codec → Option Json → Bool
time_of c none = false
time_of c (some v) = elim (text_of v) [ none ↦ false | some t ↦ c.is_time (codes t) ]

abbrev pub first_version : Codec → List (String × Json) → Option (Option String)
first_version c m = from_zero (has_version 1 m && time_of c (get "t" m))

abbrev pub parsed :
    Codec → (List (String × Json) → Option (Option String)) → List ℕ → Option (Option String)
parsed c read cs = elim (c.decode_json cs) [
  | none ↦ none
  | some v ↦ elim (record_of v) [ none ↦ none | some m ↦ read m ]
]

-- a cursor that is there
unfoldable pub decode_text : Codec → List ℕ → Option (Option String)
unfolding receipt_sequence_text
decode_text c value = elim (strip_prefix (codes "rcpt3.") value) [
  | some rest ↦ parsed c third_version rest
  | none ↦ elim (strip_prefix (codes "rcpt2.") value) [
    | some rest ↦ parsed c second_version rest
    | none ↦ elim (strip_prefix (codes "rcpt1.") value) [
      | some rest ↦ parsed c (first_version c) rest
      | none ↦ elim (strip_prefix (codes "rcpt") value) [
        | some rest ↦ none
        | none ↦ from_zero (c.is_time value)
      ]
    ]
  ]
]

-- `decodeReceiptCursor`: `none` is a failure, `some none` no cursor
unfoldable pub decode_receipt_cursor : Codec → Option (List ℕ) → Option (Option String)
unfolding decode_text
decode_receipt_cursor c none = some none
decode_receipt_cursor c (some []) = some none
decode_receipt_cursor c (some (x ∷ xs)) = decode_text c (x ∷ xs)
