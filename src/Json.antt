-- ===== src/Json.antt =====
-- JSON values as JavaScript parses them. A number is a non-negative integer, or any other number
-- by its text. The keys of an object are distinct, as those of a JavaScript object are.
use quantpro_collector.Prelude.{
  ℕ, Bool, true, false, Option, none, some, List, [], ◌∷◌, String, str_eq, leb, length, any, all,
  ◌&&◌,
}

mutual
  pub data Json : Type 0 where
    null : Json
    bool : Bool → Json
    num : ℕ → Json
    other_num : String → Json
    str : String → Json
    arr : Items → Json
    obj : Fields → Json

  pub data Items : Type 0 where
    nil : Items
    cons : Json → Items → Items

  pub data Fields : Type 0 where
    end : Fields
    field : String → Json → Fields → Fields

abbrev pub items : Items → List Json
items nil = []
items (cons v vs) = v ∷ items vs

abbrev pub fields : Fields → List (String × Json)
fields end = []
fields (field k v fs) = (k, v) ∷ fields fs

-- `isRecord`
abbrev pub record_of : Json → Option (List (String × Json))
record_of (obj fs) = some (fields fs)
record_of _ = none

-- `Array.isArray`
abbrev pub array_of : Json → Option (List Json)
array_of (arr vs) = some (items vs)
array_of _ = none

abbrev pub text_of : Json → Option String
text_of (str s) = some s
text_of _ = none

-- `record[key]`; a missing key reads as `undefined`, here `none`
abbrev pub get : String → List (String × Json) → Option Json
get k [] = none
get k ((j, v) ∷ m) = elim (str_eq j k) [ true ↦ some v | false ↦ get k m ]

-- `key in record`
abbrev pub has : String → List (String × Json) → Bool
has k m = any (λ e. str_eq e.0 k) m

abbrev pub one_of : List String → String → Bool
one_of names s = any (λ n. str_eq n s) names

-- `Object.keys(record)` in sorted order are exactly the expected keys: keys are distinct, so
-- equal numbers and inclusion say it.
abbrev pub exact_keys : List (String × Json) → List String → Bool
exact_keys m expected =
    leb (length m) (length expected)
    && (leb (length expected) (length m) && all (λ k. has k m) expected)
