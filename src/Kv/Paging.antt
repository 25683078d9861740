-- ===== src/Kv/Paging.antt =====
-- `list` of `src/d1-oauth-kv.ts`: following the cursors to the end gives every key once.
use quantpro_collector.Prelude.{
  ℕ, zero, suc, ◌+◌, ◌-◌, ◌≤◌, ◌≡◌, refl, sym, ◌∙◌, ap, Bool, true, false, Option, none, some, List,
  [], ◌∷◌, ◌++◌, leb, length, take, arith, if◌then◌else◌, String, Bool-cases, inl, inr,
}
use quantpro_collector.Kv.{
  Page, page_of, drop, cursor_offset, list_limit, list_keys, listed, selected, StoredRow,
}
use quantpro_collector.Db.Table.{Table}

zero_plus : (n : ℕ) → 0 + n ≡ n
zero_plus n = omega arith

suc_plus : (m n : ℕ) → suc m + n ≡ suc (m + n)
suc_plus m n = omega arith

plus_one : (n : ℕ) → n + 1 ≡ suc n
plus_one n = omega arith

module _ {A : Type 0} where
  abbrev of_page : (ℕ → List A) → Page A → List A
  of_page rest page = elim page.cursor [ none ↦ page.keys | some n ↦ page.keys ++ rest n ]

  of_page-last :
      (rest : ℕ → List A) (keys : List A) (n : ℕ) (b : Bool)
      → b ≡ true
      → of_page rest
          (record { keys = keys; list_complete = b; cursor = if b then none else some n })
        ≡ keys
  of_page-last rest keys n true e = refl
  of_page-last rest keys n false e = ground arith

  of_page-more :
      (rest : ℕ → List A) (keys : List A) (n : ℕ) (b : Bool)
      → b ≡ false
      → of_page rest
          (record { keys = keys; list_complete = b; cursor = if b then none else some n })
        ≡ keys ++ rest n
  of_page-more rest keys n true e = ground arith
  of_page-more rest keys n false e = refl

  -- a client that asks for page after page, for at most so many pages
  unfoldable pub follow_cursors : ℕ → (Option ℕ → Page A) → Option ℕ → List A
  follow_cursors zero ask cursor = []
  follow_cursors (suc fuel) ask cursor =
      of_page (λ n. follow_cursors fuel ask (some n)) (ask cursor)

  take-take : (n : ℕ) (xs : List A) → take n (take (suc n) xs) ≡ take n xs
  take-take zero xs = refl
  take-take (suc n) [] = refl
  take-take (suc n) (x ∷ xs) = ap (λ ys. x ∷ ys) (take-take n xs)

  take-drop : (n : ℕ) (xs : List A) → take n xs ++ drop n xs ≡ xs
  take-drop zero xs = refl
  take-drop (suc n) [] = refl
  take-drop (suc n) (x ∷ xs) = ap (λ ys. x ∷ ys) (take-drop n xs)

  drop-nil : (n : ℕ) → drop {A = A} n [] ≡ []
  drop-nil zero = refl
  drop-nil (suc n) = refl

  drop-drop : (m n : ℕ) (xs : List A) → drop n (drop m xs) ≡ drop (m + n) xs
  drop-drop zero n xs = ap (λ k. drop k xs) (sym (zero_plus n))
  drop-drop (suc m) n [] = drop-nil n ∙ sym (drop-nil (suc m + n))
  drop-drop (suc m) n (x ∷ xs) = drop-drop m n xs ∙ ap (λ k. drop k (x ∷ xs)) (sym (suc_plus m n))

  length-drop : (n : ℕ) (xs : List A) → length (drop n xs) ≡ length xs - n
  length-drop zero xs = omega arith
  length-drop (suc n) [] = omega arith
  length-drop (suc n) (x ∷ xs) = omega (arith, length-drop n xs)

  take_short : (n : ℕ) (xs : List A) → leb (length (take (suc n) xs)) n ≡ true → take n xs ≡ xs
  take_short zero [] h = refl
  take_short zero (x ∷ xs) h = ground arith
  take_short (suc n) [] h = refl
  take_short (suc n) (x ∷ xs) h = ground (arith, take_short n xs)

  -- one page, with its test for more written out
  page_of-unfolded :
      (limit offset : ℕ) (rows : List A)
      → page_of limit offset rows ≡ (
          let complete = leb (length (take (suc limit) (drop offset rows))) limit in
          record {
            keys = take limit (drop offset rows);
            list_complete = complete;
            cursor = if complete then none else some (offset + limit);
          })
  unfolding page_of
  page_of-unfolded limit offset rows =
      rw (plus_one limit) (rw (take-take limit (drop offset rows)) refl)

  none_left : (xs : List A) → length xs ≤ 0 → [] ≡ xs
  none_left [] h = refl
  none_left (x ∷ xs) h = ground arith

  fewer_left :
      (fuel limit offset : ℕ) (rows : List A)
      → 1 ≤ limit
      → length (drop offset rows) ≤ suc fuel
      → length (drop (offset + limit) rows) ≤ fuel
  fewer_left fuel limit offset rows p h =
      omega (arith, length-drop offset rows, length-drop (offset + limit) rows)

  follow_cursors-drop :
      (fuel limit offset : ℕ) (rows : List A)
      → 1 ≤ limit
      → length (drop offset rows) ≤ fuel
      → follow_cursors fuel (λ c. page_of limit (cursor_offset c) rows) (some offset)
        ≡ drop offset rows
  unfolding follow_cursors cursor_offset
  follow_cursors-drop zero limit offset rows p h = none_left (drop offset rows) h
  follow_cursors-drop (suc fuel) limit offset rows p h =
      let ys = drop offset rows in
      let complete = leb (length (take (suc limit) ys)) limit in
      let rest : ℕ → List A =
        λ n. follow_cursors fuel (λ c. page_of limit (cursor_offset c) rows) (some n) in
      let step = ap (of_page rest) (page_of-unfolded limit offset rows) in
      let keys = take limit ys in
      elim (Bool-cases complete) [
        | inl e ↦ step ∙ of_page-last rest keys (offset + limit) complete e ∙ take_short limit ys e
        | inr e ↦
            step
            ∙ of_page-more rest keys (offset + limit) complete e
            ∙ ap (λ zs. keys ++ zs)
                (follow_cursors-drop fuel limit (offset + limit) rows p
                    (fewer_left fuel limit offset rows p h)
                  ∙ sym (drop-drop offset limit rows))
            ∙ take-drop limit ys
      ]

list_limit-positive : (limit : Option ℕ) → 1 ≤ list_limit limit
unfolding list_limit
list_limit-positive none = omega arith
list_limit-positive (some n) = ground arith

-- A client that follows the cursors of a list call from any cursor, for as many pages as rows
-- are left, is given every selected key from there on exactly once and in their order, whatever
-- the page size it asks for.
pub list_keys-follow_cursors :
    (now fuel offset : ℕ) (prefix : String) (limit : Option ℕ) (t : Table StoredRow)
    → length (drop offset (listed (selected now prefix t))) ≤ fuel
    → follow_cursors fuel (λ c. list_keys now prefix limit c t) (some offset)
      ≡ drop offset (listed (selected now prefix t))
unfolding list_keys
list_keys-follow_cursors now fuel offset prefix limit t h =
    follow_cursors-drop fuel (list_limit limit) offset (listed (selected now prefix t))
      (list_limit-positive limit) h
