-- ===== src/Kv/Range.antt =====
-- `src/d1-oauth-kv.ts`: what get and list see.
use quantpro_collector.Prelude.{
  ℕ, ◌≡◌, refl, Bool, true, false, ◌&&◌, ◌||◌, Option, none, some, List, [], ◌∷◌, String, str_eq,
  eq_iff, ltb, any, filter, codes, strip_prefix, arith, if◌then◌else◌,
}
use quantpro_collector.Db.Table.{Table, lookup-insert, lookup-erase}
use quantpro_collector.Kv.{
  StoredRow, PutOptions, expiration_from_options, is_unexpired, get_text, put_text, delete_key,
  before, prefix_upper_bound, in_range, insert_row, sort_rows, selected,
}

-- A put key reads as its new value until it expires, and a deleted one as missing; other keys keep
-- their values.
pub get_text-put_text :
    (now later : ℕ) (key other value : String) (o : PutOptions) (t : Table StoredRow)
    → (get_text later other (put_text now key value o t) ≡ (
        if str_eq key other
        then (elim (expiration_from_options now o) [
          | none ↦ some value
          | some expiry ↦ if ltb later expiry then some value else none
        ])
        else get_text later other t))
      × (get_text later other (delete_key key t)
          ≡ (if str_eq key other then none else get_text later other t))
unfolding get_text put_text delete_key is_unexpired
get_text-put_text now later key other value o t = (
  ground (
    arith,
    eq_iff key other,
    lookup-insert key other (record { value = value; expires_at = expiration_from_options now o })
        t,
  ),
  ground (arith, eq_iff key other, lookup-erase key other t),
)

-- what may follow the prefix of a listed key
abbrev pub follows : Option (List ℕ) → Bool
follows none = false
follows (some []) = true
follows (some (c ∷ cs)) = ltb c 0xffff

in_range-strip_prefix :
    (prefix key : List ℕ) → in_range prefix key ≡ follows (strip_prefix prefix key)
unfolding in_range before prefix_upper_bound
in_range-strip_prefix [] [] = refl
in_range-strip_prefix [] (c ∷ []) = ground arith
in_range-strip_prefix [] (c ∷ (d ∷ cs)) = ground arith
in_range-strip_prefix (p ∷ ps) [] = refl
in_range-strip_prefix (p ∷ ps) (c ∷ cs) = ground (arith, in_range-strip_prefix ps cs)

abbrev has_key : String → Table StoredRow → Bool
has_key key t = any (λ r. str_eq r.0 key) t

has_key-insert_row :
    (key : String) (r : String × StoredRow) (t : Table StoredRow)
    → has_key key (insert_row r t) ≡ (str_eq r.0 key || has_key key t)
unfolding insert_row
has_key-insert_row key r [] = refl
has_key-insert_row key r (q ∷ qs) = ground (arith, has_key-insert_row key r qs)

has_key-sort_rows : (key : String) (t : Table StoredRow) → has_key key (sort_rows t) ≡ has_key key t
unfolding sort_rows
has_key-sort_rows key [] = refl
has_key-sort_rows key (r ∷ rs) =
    ground (arith, has_key-insert_row key r (sort_rows rs), has_key-sort_rows key rs)

has_key-filter :
    (now : ℕ) (prefix key : String) (t : Table StoredRow)
    → has_key key (filter (λ r. in_range (codes prefix) (codes r.0) && is_unexpired now r.1) t) ≡ (
        follows (strip_prefix (codes prefix) (codes key))
        && any (λ r. str_eq r.0 key && is_unexpired now r.1) t)
has_key-filter now prefix key [] = ground arith
has_key-filter now prefix key (r ∷ rs) = ground (
  arith,
  eq_iff r.0 key,
  in_range-strip_prefix (codes prefix) (codes key),
  has_key-filter now prefix key rs,
)

-- A listing selects a key exactly if an unexpired row has it, it starts with the prefix, and what
-- follows the prefix starts below U+FFFF: a key that goes on with a character outside the basic
-- plane is left out.
pub selected-exact :
    (now : ℕ) (prefix key : String) (t : Table StoredRow)
    → any (λ r. str_eq r.0 key) (selected now prefix t) ≡ (
        follows (strip_prefix (codes prefix) (codes key))
        && any (λ r. str_eq r.0 key && is_unexpired now r.1) t)
unfolding selected
selected-exact now prefix key t = ground (
  arith,
  has_key-sort_rows key
      (filter (λ r. in_range (codes prefix) (codes r.0) && is_unexpired now r.1) t),
  has_key-filter now prefix key t,
)
