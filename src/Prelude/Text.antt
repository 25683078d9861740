-- ===== src/Prelude/Text.antt =====
-- Texts as JavaScript reads them: the code points of a text, its `length` in UTF-16 units, and
-- the character classes of the anchored patterns that the collector tests ids with.
use Prim.Native.Nat.{ℕ, ◌+◌}
use Prim.Native.Char.{code}
use Prim.Native.String.{String}
use mathlib.Core.Bool.{Bool, ◌&&◌, ◌||◌}
use mathlib.Core.List.{List, [], ◌∷◌}
use mathlib.Core.Option.{Option, none, some}
use quantpro_collector.Prelude.Tests.{ltb, leb, ◌==◌, if◌then◌else◌}
use quantpro_collector.Prelude.Lists.{all, length}

abbrev pub codes : String → List ℕ
codes String.[] = []
codes (String.◌∷◌ c s) = code c ∷ codes s

-- the UTF-16 units of one code point
abbrev pub units : ℕ → ℕ
units c = if ltb c 0x10000 then 1 else 2

abbrev pub units_of : List ℕ → ℕ
units_of [] = 0
units_of (c ∷ cs) = units c + units_of cs

-- `text.length`
abbrev pub js_length : String → ℕ
js_length s = units_of (codes s)

abbrev pub is_digit : ℕ → Bool
is_digit c = leb b'0' c && leb c b'9'

abbrev pub is_lower : ℕ → Bool
is_lower c = leb b'a' c && leb c b'z'

abbrev pub is_upper : ℕ → Bool
is_upper c = leb b'A' c && leb c b'Z'

-- `[a-f0-9]`
abbrev pub is_lower_hex : ℕ → Bool
is_lower_hex c = is_digit c || (leb b'a' c && leb c b'f')

-- what is left of a text behind a prefix
abbrev pub strip_prefix : List ℕ → List ℕ → Option (List ℕ)
strip_prefix [] cs = some cs
strip_prefix (p ∷ ps) [] = none
strip_prefix (p ∷ ps) (c ∷ cs) = if p == c then strip_prefix ps cs else none

-- `^[class]{lo,hi}$` on code points
abbrev pub repeats : (ℕ → Bool) → ℕ → ℕ → List ℕ → Bool
repeats cls lo hi cs = leb lo (length cs) && leb (length cs) hi && all cls cs
