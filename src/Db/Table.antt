-- ===== src/Db/Table.antt =====
-- A SQL table with a text primary key, as an association list: SELECT by key, INSERT ... ON
-- CONFLICT DO UPDATE, and DELETE by key.
use quantpro_collector.Prelude.{
  ◌≡◌, refl, Bool, Option, none, some, List, [], ◌∷◌, String, str_eq, eq_iff, arith, if◌then◌else◌,
}

abbrev pub Table {ℓ} : Type ℓ → Type ℓ
Table V = List (String × V)

module _ {ℓ} {V : Type ℓ} where
  unfoldable pub lookup : String → Table V → Option V
  lookup wanted [] = none
  lookup wanted ((key, row) ∷ rows) = if str_eq key wanted then some row else lookup wanted rows

  unfoldable pub insert : String → V → Table V → Table V
  insert new value [] = (new, value) ∷ []
  insert new value ((key, row) ∷ rows) =
      if str_eq key new then (new, value) ∷ rows else (key, row) ∷ insert new value rows

  unfoldable pub erase : String → Table V → Table V
  erase gone [] = []
  erase gone ((key, row) ∷ rows) =
      if str_eq key gone then erase gone rows else (key, row) ∷ erase gone rows

  -- the first row that passes a test on another column
  unfoldable pub find_value : (V → Bool) → Table V → Option V
  find_value test [] = none
  find_value test ((key, row) ∷ rows) = if test row then some row else find_value test rows

  pub lookup-insert :
      (new wanted : String) (value : V) (rows : Table V)
      → lookup wanted (insert new value rows)
        ≡ (if str_eq new wanted then some value else lookup wanted rows)
  unfolding insert lookup
  lookup-insert new wanted value [] = refl
  lookup-insert new wanted value ((key, row) ∷ rows) = ground (
    arith,
    lookup-insert new wanted value rows,
    eq_iff key new,
    eq_iff key wanted,
    eq_iff new wanted,
  )

  pub lookup-erase :
      (gone wanted : String) (rows : Table V)
      → lookup wanted (erase gone rows) ≡ (if str_eq gone wanted then none else lookup wanted rows)
  unfolding erase lookup
  lookup-erase gone wanted [] = ground arith
  lookup-erase gone wanted ((key, row) ∷ rows) =
      ground (
        arith,
        lookup-erase gone wanted rows,
        eq_iff key gone,
        eq_iff key wanted,
        eq_iff gone wanted,
      )
