-- ===== src/Workflow/Tests/Cursor.antt =====
-- A receipt cursor of src/research-workflow.ts: the codec prints a cursor as its sequence number.
use quantpro_collector.Prelude.{
  ◌≡◌, refl, false, ℕ, Bool, ◌||◌, ◌==◌, is_upper, all, if◌then◌else◌, none, some, List, codes,
}
use quantpro_collector.Workflow.Cursor.{
  Codec, cursor_json, encode_receipt_cursor, decode_receipt_cursor, is_receipt_sequence,
}
use quantpro_collector.Workflow.Cursor.Trip.{decode_receipt_cursor-encode_receipt_cursor}

-- the base64 text of one cursor is shortened
abbrev is_base64 : ℕ → Bool
is_base64 c = is_upper c || c == b'='

abbrev codec : Codec
codec = record {
  encode_json = λ v. codes "NDI=";
  decode_json = λ cs. if all is_base64 cs then some (cursor_json "42") else none;
  is_time = λ cs. false;
}

abbrev encoded : List ℕ
encoded = codes "rcpt3.NDI="

decode_receipt_cursor-encode_receipt_cursor_example :
    decode_receipt_cursor codec (some encoded) ≡ some (some "42")
unfolding encode_receipt_cursor is_receipt_sequence
decode_receipt_cursor-encode_receipt_cursor_example =
    decode_receipt_cursor-encode_receipt_cursor codec "42" refl refl
