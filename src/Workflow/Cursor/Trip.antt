-- ===== src/Workflow/Cursor/Trip.antt =====
-- The receipt cursors of src/research-workflow.ts: what is encoded is decoded.
use quantpro_collector.Prelude.{ℕ, ◌≡◌, ap, ◌∙◌, true, Option, none, some, List, String, eq_refl}
use quantpro_collector.Json.{Json, record_of}
use quantpro_collector.Workflow.Receipts.{receipt_order_epoch}
use quantpro_collector.Workflow.Cursor.{
  Codec, cursor_json, is_receipt_sequence, receipt_sequence_text, encode_receipt_cursor,
  decode_text, decode_receipt_cursor, third_version, parsed,
}

parsed_value :
    (c : Codec) (read : List (String × Json) → Option (Option String)) (cs : List ℕ) (v : Json)
    → c.decode_json cs ≡ some v
    → parsed c read cs ≡ elim (record_of v) [ none ↦ none | some m ↦ read m ]
parsed_value c read cs v h =
    ap
      (λ o. elim o as (λ _. Option (Option String)) [
        | none ↦ none
        | some v ↦ elim (record_of v) [ none ↦ none | some m ↦ read m ]
      ])
      h

-- If the text that is printed for a sequence number is read back as the value that was printed, then
-- decoding the encoded cursor gives the number back, for each decimal from 0 to 2 ^ 63 - 1.
pub decode_receipt_cursor-encode_receipt_cursor :
    (c : Codec) (s : String)
    → c.decode_json (c.encode_json (cursor_json s)) ≡ some (cursor_json s)
    → is_receipt_sequence true s ≡ true
    → decode_receipt_cursor c (some (encode_receipt_cursor c s)) ≡ some (some s)
unfolding decode_receipt_cursor decode_text encode_receipt_cursor receipt_sequence_text
decode_receipt_cursor-encode_receipt_cursor c s trip h =
    parsed_value c third_version (c.encode_json (cursor_json s)) (cursor_json s) trip
    ∙ simp (h, eq_refl receipt_order_epoch)
