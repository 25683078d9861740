-- ===== src/Portfolio/Delta/Canonical.antt =====
-- Code lists in the canonical form of `src/portfolio-delta.ts`: well-formed, distinct and sorted.
use quantpro_collector.Prelude.{
  ℕ, ◌≡◌, refl, Bool, true, false, not, ◌&&◌, ◌||◌, Option, none, some, List, [], ◌∷◌, String,
  str_eq, eq_iff, eq_refl, all, filter, arith, codes,
}
use quantpro_collector.Json.{Json, str, arr, items}
use quantpro_collector.Portfolio.Codes.{
  code_pattern, canonical_code, map_codes, contains, distinct, codes_le, code_le, insert_code,
  sort_codes, same_codes, same_texts, assert_canonical_codes,
}
use quantpro_collector.Portfolio.Delta.{text_items}

codes_le_total : (xs ys : List ℕ) → codes_le xs ys ≡ false → codes_le ys xs ≡ true
unfolding codes_le
codes_le_total [] ys h = ground arith
codes_le_total (x ∷ xs) [] h = refl
codes_le_total (x ∷ xs) (y ∷ ys) h = ground (arith, codes_le_total xs ys)

codes_le_trans :
    (xs ys zs : List ℕ) → codes_le xs ys ≡ true → codes_le ys zs ≡ true → codes_le xs zs ≡ true
unfolding codes_le
codes_le_trans [] ys zs h k = refl
codes_le_trans (x ∷ xs) [] zs h k = ground arith
codes_le_trans (x ∷ xs) (y ∷ ys) [] h k = ground arith
codes_le_trans (x ∷ xs) (y ∷ ys) (z ∷ zs) h k = ground (arith, codes_le_trans xs ys zs)

unfoldable pub sorted : List String → Bool
sorted [] = true
sorted (c ∷ cs) = all (code_le c) cs && sorted cs

all_le_trans :
    (c d : String) (cs : List String)
    → code_le c d ≡ true
    → all (code_le d) cs ≡ true
    → all (code_le c) cs ≡ true
all_le_trans c d [] h k = refl
all_le_trans c d (e ∷ cs) h k =
    ground (arith, all_le_trans c d cs h, codes_le_trans (codes c) (codes d) (codes e))

all-insert_code :
    (p : String → Bool) (c : String) (cs : List String)
    → all p (insert_code c cs) ≡ (p c && all p cs)
unfolding insert_code
all-insert_code p c [] = refl
all-insert_code p c (d ∷ cs) = ground (arith, all-insert_code p c cs)

sorted-insert_code :
    (c : String) (cs : List String) → sorted cs ≡ true → sorted (insert_code c cs) ≡ true
unfolding insert_code sorted
sorted-insert_code c [] h = refl
sorted-insert_code c (d ∷ cs) h = ground (
  arith,
  all-insert_code (code_le d) c cs,
  sorted-insert_code c cs,
  all_le_trans c d cs,
  codes_le_total (codes c) (codes d),
)

pub sorted-sort_codes : (cs : List String) → sorted (sort_codes cs) ≡ true
unfolding sort_codes sorted
sorted-sort_codes [] = refl
sorted-sort_codes (c ∷ cs) = sorted-insert_code c (sort_codes cs) (sorted-sort_codes cs)

insert_code-least :
    (c : String) (cs : List String) → all (code_le c) cs ≡ true → insert_code c cs ≡ c ∷ cs
unfolding insert_code
insert_code-least c [] h = refl
insert_code-least c (d ∷ cs) h = ground arith

pub sort_codes-sorted : (cs : List String) → sorted cs ≡ true → sort_codes cs ≡ cs
unfolding sort_codes sorted
sort_codes-sorted [] h = refl
sort_codes-sorted (c ∷ cs) h = ground (arith, sort_codes-sorted cs, insert_code-least c cs)

pub all-filter :
    (p q : String → Bool) (cs : List String) → all p cs ≡ true → all p (filter q cs) ≡ true
all-filter p q [] h = refl
all-filter p q (c ∷ cs) h = ground (arith, all-filter p q cs)

pub sorted-filter :
    (q : String → Bool) (cs : List String) → sorted cs ≡ true → sorted (filter q cs) ≡ true
unfolding sorted
sorted-filter q [] h = refl
sorted-filter q (c ∷ cs) h = ground (arith, sorted-filter q cs, all-filter (code_le c) q cs)

pub contains-filter :
    (q : String → Bool) (cs : List String) (c : String)
    → contains (filter q cs) c ≡ (contains cs c && q c)
contains-filter q [] c = refl
contains-filter q (d ∷ cs) c = ground (arith, eq_iff d c, contains-filter q cs c)

pub distinct-filter :
    (q : String → Bool) (cs : List String) → distinct cs ≡ true → distinct (filter q cs) ≡ true
unfolding distinct
distinct-filter q [] h = refl
distinct-filter q (c ∷ cs) h = ground (arith, distinct-filter q cs, contains-filter q cs c)

-- what `assertCanonicalCodes` demands
unfoldable pub canonical : List String → Bool
canonical cs = all code_pattern cs && (distinct cs && sorted cs)

pub canonical-filter :
    (q : String → Bool) (cs : List String) → canonical cs ≡ true → canonical (filter q cs) ≡ true
unfolding canonical
canonical-filter q cs h =
    ground (arith, all-filter code_pattern q cs, distinct-filter q cs, sorted-filter q cs)

abbrev pub if_some {ℓ} : {A : Type ℓ} → (A → Bool) → Option A → Bool
if_some p none = true
if_some p (some a) = p a

module _ (print : Json → String) where
  canonical_code-pattern : (v : Json) → if_some code_pattern (canonical_code print v) ≡ true
  unfolding canonical_code
  canonical_code-pattern Json.null = refl
  canonical_code-pattern (Json.bool b) = refl
  canonical_code-pattern (Json.num n) = refl
  canonical_code-pattern (Json.other_num n) = refl
  canonical_code-pattern (str s) = ground arith
  canonical_code-pattern (arr vs) = refl
  canonical_code-pattern (Json.obj fs) = ground arith

  map_codes-text_items :
      (cs : List String)
      → all code_pattern cs ≡ true
      → map_codes print (items (text_items cs)) ≡ some cs
  unfolding map_codes canonical_code
  map_codes-text_items [] h = refl
  map_codes-text_items (c ∷ cs) h = ground (arith, map_codes-text_items cs)

  pub map_codes-pattern :
      (vs : List Json) → if_some (λ cs. all code_pattern cs) (map_codes print vs) ≡ true
  unfolding map_codes
  map_codes-pattern [] = refl
  map_codes-pattern (v ∷ vs) = ground (arith, map_codes-pattern vs, canonical_code-pattern v)

same_codes_refl : (cs : List String) → same_codes cs cs ≡ true
same_codes_refl [] = refl
same_codes_refl (c ∷ cs) = ground (arith, eq_refl c, same_codes_refl cs)

same_texts_refl : (cs : List String) → same_texts cs (items (text_items cs)) ≡ true
same_texts_refl [] = refl
same_texts_refl (c ∷ cs) = ground (arith, eq_refl c, same_texts_refl cs)

module _ (print : Json → String) where
  -- a canonical list passes, as it is
  pub assert_canonical_codes-text_items :
      (cs : List String)
      → canonical cs ≡ true
      → assert_canonical_codes print (some (arr (text_items cs))) ≡ some cs
  unfolding assert_canonical_codes canonical
  assert_canonical_codes-text_items cs h = ground (
    arith,
    map_codes-text_items print cs,
    same_texts_refl cs,
    same_codes_refl cs,
    sort_codes-sorted cs,
  )

contains-insert_code :
    (c d : String) (cs : List String)
    → contains (insert_code c cs) d ≡ (str_eq c d || contains cs d)
unfolding insert_code
contains-insert_code c d [] = refl
contains-insert_code c d (e ∷ cs) = ground (arith, contains-insert_code c d cs)

contains-sort_codes : (d : String) (cs : List String) → contains (sort_codes cs) d ≡ contains cs d
unfolding sort_codes
contains-sort_codes d [] = refl
contains-sort_codes d (c ∷ cs) =
    ground (arith, contains-insert_code c d (sort_codes cs), contains-sort_codes d cs)

distinct-insert_code :
    (c : String) (cs : List String)
    → distinct (insert_code c cs) ≡ (not (contains cs c) && distinct cs)
unfolding insert_code distinct
distinct-insert_code c [] = refl
distinct-insert_code c (d ∷ cs) =
    ground (arith, eq_iff c d, eq_iff d c, distinct-insert_code c cs, contains-insert_code c d cs)

pub canonical-sort_codes :
    (cs : List String)
    → all code_pattern cs ≡ true
    → distinct cs ≡ true
    → canonical (sort_codes cs) ≡ true
unfolding sort_codes canonical distinct sorted
canonical-sort_codes [] h k = refl
canonical-sort_codes (c ∷ cs) h k = ground (
  arith,
  canonical-sort_codes cs,
  all-insert_code code_pattern c (sort_codes cs),
  distinct-insert_code c (sort_codes cs),
  contains-sort_codes c cs,
  sorted-insert_code c (sort_codes cs),
)
