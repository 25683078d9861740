-- ===== src/Kv.antt =====
-- `src/d1-oauth-kv.ts`: the KV interface on a D1 table. A value is read as text.
pub mod Range
pub mod Paging
pub mod Tests
use quantpro_collector.Prelude.{
  ℕ, zero, suc, ◌+◌, Bool, true, false, not, ◌&&◌, Option, none, some, List, [], ◌∷◌, String, ltb,
  leb, ◌==◌, length, take, filter, min, max, codes, if◌then◌else◌,
}
use quantpro_collector.Db.Table.{Table, lookup, insert, erase}

pub record StoredRow : Type 0 where
  pub value : String
  pub expires_at : Option ℕ

pub record PutOptions : Type 0 where
  pub expiration : Option ℕ
  pub expiration_ttl : Option ℕ

-- `expirationFromOptions`, in whole seconds
unfoldable pub expiration_from_options : ℕ → PutOptions → Option ℕ
expiration_from_options now o = elim o.expiration [
  | some t ↦ some t
  | none ↦ elim o.expiration_ttl [ some ttl ↦ some (now + ttl) | none ↦ none ]
]

-- `expires_at === null || expires_at > now`
unfoldable pub is_unexpired : ℕ → StoredRow → Bool
is_unexpired now row = elim row.expires_at [ none ↦ true | some t ↦ ltb now t ]

-- `get`
unfoldable pub get_text : ℕ → String → Table StoredRow → Option String
unfolding is_unexpired
get_text now key t = elim (lookup key t) [
  | none ↦ none
  | some row ↦ if is_unexpired now row then some row.value else none
]

-- `put`
unfoldable pub put_text : ℕ → (key value : String) → PutOptions → Table StoredRow → Table StoredRow
unfolding expiration_from_options
put_text now key value o t =
    insert key (record { value = value; expires_at = expiration_from_options now o }) t

-- `delete`
unfoldable pub delete_key : String → Table StoredRow → Table StoredRow
delete_key key t = erase key t

-- `cursorOffset` of a cursor that is a number, or not
unfoldable pub cursor_offset : Option ℕ → ℕ
cursor_offset none = 0
cursor_offset (some n) = n

-- `listLimit`
unfoldable pub list_limit : Option ℕ → ℕ
list_limit none = 1000
list_limit (some n) = max 1 (min 1000 n)

-- SQLite orders texts by their bytes, which is the order of their code points.
unfoldable pub before : List ℕ → List ℕ → Bool
before [] [] = false
before [] (y ∷ ys) = true
before (x ∷ xs) [] = false
before (x ∷ xs) (y ∷ ys) = if ltb x y then true else if x == y then before xs ys else false

-- `prefixUpperBound`
unfoldable pub prefix_upper_bound : List ℕ → List ℕ
prefix_upper_bound [] = 0xffff ∷ []
prefix_upper_bound (c ∷ cs) = c ∷ prefix_upper_bound cs

-- `kv_key >= ?1 AND kv_key < ?2`
unfoldable pub in_range : List ℕ → List ℕ → Bool
unfolding before prefix_upper_bound
in_range prefix key = not (before key prefix) && before key (prefix_upper_bound prefix)

unfoldable pub insert_row : String × StoredRow → Table StoredRow → Table StoredRow
insert_row r [] = r ∷ []
insert_row r (q ∷ qs) = if before (codes r.0) (codes q.0) then r ∷ q ∷ qs else q ∷ insert_row r qs

-- ORDER BY kv_key
unfoldable pub sort_rows : Table StoredRow → Table StoredRow
sort_rows [] = []
sort_rows (r ∷ rs) = insert_row r (sort_rows rs)

-- the rows that the query of `list` has before LIMIT and OFFSET
unfoldable pub selected : ℕ → String → Table StoredRow → Table StoredRow
unfolding in_range is_unexpired sort_rows
selected now prefix t =
    sort_rows (filter (λ r. in_range (codes prefix) (codes r.0) && is_unexpired now r.1) t)

abbrev pub drop {ℓ} : {A : Type ℓ} → ℕ → List A → List A
drop zero xs = xs
drop (suc n) [] = []
drop (suc n) (x ∷ xs) = drop n xs

pub record Page (A : Type 0) : Type 0 where
  pub keys : List A
  pub list_complete : Bool
  pub cursor : Option ℕ

-- LIMIT and OFFSET, and the answer that is made of the rows
unfoldable pub page_of : {A : Type 0} → (limit offset : ℕ) → List A → Page A
page_of limit offset rows =
    let results = take (limit + 1) (drop offset rows) in
    let complete = leb (length results) limit in
    record {
      keys = take limit results;
      list_complete = complete;
      cursor = if complete then none else some (offset + limit);
    }

abbrev listed_key : String × StoredRow → String × Option ℕ
listed_key r = (r.0, r.1.expires_at)

abbrev pub listed : Table StoredRow → List (String × Option ℕ)
listed [] = []
listed (r ∷ rs) = listed_key r ∷ listed rs

-- `list`
unfoldable pub list_keys :
    ℕ → String → (limit cursor : Option ℕ) → Table StoredRow → Page (String × Option ℕ)
unfolding selected page_of list_limit cursor_offset
list_keys now prefix limit cursor t =
    page_of (list_limit limit) (cursor_offset cursor) (listed (selected now prefix t))
