-- ===== src/Kv/Tests.antt =====
-- Runs of `src/d1-oauth-kv.ts` on a table of three rows.
use quantpro_collector.Prelude.{◌≡◌, refl, true, none, some, [], ◌∷◌, str_eq, any, arith}
use quantpro_collector.Db.Table.{Table, lookup, insert}
use quantpro_collector.Kv.{
  StoredRow, PutOptions, expiration_from_options, is_unexpired, get_text, put_text, delete_key,
  selected, before, prefix_upper_bound, in_range, insert_row, sort_rows, list_keys, list_limit,
  cursor_offset, page_of,
}
use quantpro_collector.Kv.Range.{get_text-put_text, selected-exact}
use quantpro_collector.Kv.Paging.{follow_cursors, list_keys-follow_cursors}

abbrev three : Table StoredRow
three =
    ("run:b", record { value = "B"; expires_at = none })
    ∷ ("run:a", record { value = "A"; expires_at = some 50 })
    ∷ ("other", record { value = "O"; expires_at = none })
    ∷ []

abbrev for_a_minute : PutOptions
for_a_minute = record { expiration = none; expiration_ttl = some 60 }

get_text-put_text_example :
    (get_text 159 "run:c" (put_text 100 "run:c" "C" for_a_minute three) ≡ some "C")
    × (get_text 159 "run:c" (delete_key "run:c" three) ≡ none)
unfolding expiration_from_options
get_text-put_text_example = get_text-put_text 100 159 "run:c" "run:c" "C" for_a_minute three

expired : get_text 160 "run:c" (put_text 100 "run:c" "C" for_a_minute three) ≡ none
unfolding get_text put_text expiration_from_options is_unexpired lookup insert
expired = refl

selected-exact_example : any (λ r. str_eq r.0 "run:a") (selected 49 "run:" three) ≡ true
unfolding is_unexpired
selected-exact_example = selected-exact 49 "run:" "run:a" three

-- a key that goes on with an astral character is not listed
astral : selected 0 "run:" (("run:😀", record { value = "A"; expires_at = none }) ∷ []) ≡ []
unfolding selected before prefix_upper_bound in_range insert_row sort_rows is_unexpired
astral = refl

one_page : (list_keys 49 "run:" (some 1) none three).keys ≡ ("run:a", some 50) ∷ []
unfolding list_keys list_limit cursor_offset page_of selected before prefix_upper_bound in_range
    insert_row sort_rows is_unexpired
one_page = refl

list_keys-follow_cursors_example :
    follow_cursors 2 (λ c. list_keys 49 "run:" (some 1) c three) (some 0)
    ≡ ("run:a", some 50) ∷ ("run:b", none) ∷ []
unfolding selected before prefix_upper_bound in_range insert_row sort_rows is_unexpired
list_keys-follow_cursors_example =
    list_keys-follow_cursors 49 2 0 "run:" (some 1) three (omega arith)
