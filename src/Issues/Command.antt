-- ===== src/Issues/Command.antt =====
-- `ISSUE_BOOKKEEPING_INPUT_SCHEMA` and `parseTargets` of `src/issue-bookkeeping.ts`.
use quantpro_collector.Prelude.{
  is_lower, is_upper, is_digit, js_length, repeats, ℕ, Bool, true, false, ◌&&◌, ◌||◌, Option, none,
  some, List, [], ◌∷◌, String, str_eq, leb, ◌==◌, length, all, if◌then◌else◌, codes,
}
use quantpro_collector.Json.{Json, num, record_of, array_of, text_of, get, one_of}
use quantpro_collector.Runs.Envelope.{automation_registry_keys}

infixl 5 ◌>>=◌
abbrev ◌>>=◌ : {A B : Type 0} → Option A → (A → Option B) → Option B
none >>= f = none
some a >>= f = f a

pub data Operation : Type 0 where
  comment close : Operation

-- a command that the schema accepts
pub record Command : Type 0 where
  pub source_task : String
  pub target_key : String
  pub operation : Operation
  pub dedupe_key : String
  pub body : Option String
  pub evidence_refs : Option (List String)

abbrev pub is_key_char : ℕ → Bool
is_key_char c = is_lower c || is_digit c || c == b'_' || c == b'-'

-- `^[a-z0-9_-]{1,64}$`
unfoldable pub is_target_key : String → Bool
is_target_key s = repeats is_key_char 1 64 (codes s)

abbrev is_dedupe_char : ℕ → Bool
is_dedupe_char c =
    is_upper c || is_lower c || is_digit c || c == b':' || c == b'.' || c == b'_' || c == b'-'

-- `^[A-Za-z0-9:._-]{8,128}$`
unfoldable pub is_dedupe_key : String → Bool
is_dedupe_key s = repeats is_dedupe_char 8 128 (codes s)

-- `z.string().min(lo).max(hi)`
abbrev pub sized : ℕ → ℕ → String → Bool
sized lo hi s = leb lo (js_length s) && leb (js_length s) hi

abbrev pub checked : (String → Bool) → Option Json → Option String
checked test none = none
checked test (some v) = elim (text_of v) [ none ↦ none | some s ↦ if test s then some s else none ]

abbrev operation_of : Option Json → Option Operation
operation_of none = none
operation_of (some v) = elim (text_of v) [
  | none ↦ none
  | some s ↦
      if str_eq s "COMMENT" then some comment else if str_eq s "CLOSE" then some close else none
]

-- an optional field: `some none` where it is absent, `none` where it is refused
abbrev optional_text : (String → Bool) → Option Json → Option (Option String)
optional_text test none = some none
optional_text test (some v) = elim (checked test (some v)) [ none ↦ none | some s ↦ some (some s) ]

abbrev texts : (String → Bool) → List Json → Option (List String)
texts test [] = some []
texts test (v ∷ vs) = elim (checked test (some v)) [
  | none ↦ none
  | some s ↦ elim (texts test vs) [ none ↦ none | some ss ↦ some (s ∷ ss) ]
]

abbrev optional_texts : Option Json → Option (Option (List String))
optional_texts none = some none
optional_texts (some v) = elim (array_of v) [
  | none ↦ none
  | some vs ↦
      if leb (length vs) 16
      then (elim (texts (sized 1 128) vs) [ none ↦ none | some ss ↦ some (some ss) ])
      else none
]

abbrev command_fields : List String
command_fields =
    "source_task" ∷ "target_key" ∷ "operation" ∷ "dedupe_key" ∷ "body" ∷ "evidence_refs" ∷ []

abbrev is_source_task : String → Bool
is_source_task s = one_of automation_registry_keys s || str_eq s "production-observer"

-- the schema; it is strict, so other fields are refused
unfoldable pub parse_command : Json → Option Command
unfolding is_target_key is_dedupe_key
parse_command v = do
  m ← record_of v
  _ ← if all (λ e. one_of command_fields e.0) m then some true else none
  task ← checked is_source_task (get "source_task" m)
  target ← checked is_target_key (get "target_key" m)
  operation ← operation_of (get "operation" m)
  key ← checked is_dedupe_key (get "dedupe_key" m)
  body ← optional_text (sized 1 8000) (get "body" m)
  refs ← optional_texts (get "evidence_refs" m)
  some (record {
    source_task = task;
    target_key = target;
    operation = operation;
    dedupe_key = key;
    body = body;
    evidence_refs = refs;
  })

-- what a target names; a part that is missing is `undefined`
pub record BookkeepingTarget : Type 0 where
  pub repo : Option String
  pub issue : Option ℕ

abbrev is_repo_char : ℕ → Bool
is_repo_char c = is_upper c || is_lower c || is_digit c || c == b'_' || c == b'.' || c == b'-'

abbrev split_slash : List ℕ → Option (List ℕ × List ℕ)
split_slash [] = none
split_slash (c ∷ cs) = elim (c == b'/') [
  | true ↦ some ([], cs)
  | false ↦ elim (split_slash cs) [ none ↦ none | some (a, b) ↦ some (c ∷ a, b) ]
]

abbrev some_chars : List ℕ → Bool
some_chars cs = leb 1 (length cs) && all is_repo_char cs

-- `^[A-Za-z0-9_.-]+\/[A-Za-z0-9_.-]+$`
unfoldable pub is_repo : String → Bool
is_repo s = elim (split_slash (codes s)) [
  | none ↦ false
  | some (owner, name) ↦ some_chars owner && some_chars name
]

abbrev issue_of : Option Json → Option ℕ
issue_of (some (num n)) = if leb 1 n then some n else none
issue_of _ = none

unfoldable pub parse_entry : Json → Option BookkeepingTarget
unfolding is_repo
parse_entry v = do
  m ← record_of v
  repo ← checked is_repo (get "repo" m)
  issue ← issue_of (get "issue" m)
  some (record { repo = some repo; issue = some issue })

unfoldable pub parse_entries : List (String × Json) → Option (List (String × BookkeepingTarget))
unfolding is_target_key parse_entry
parse_entries [] = some []
parse_entries ((key, v) ∷ es) = do
  _ ← if is_target_key key then some true else none
  target ← parse_entry v
  rest ← parse_entries es
  some ((key, target) ∷ rest)

-- `parseTargets` of what `JSON.parse` makes of the text; an absent or unreadable text is `none`
unfoldable pub parse_targets : Option Json → Option (List (String × BookkeepingTarget))
unfolding parse_entries
parse_targets none = none
parse_targets (some v) = elim (record_of v) [ none ↦ none | some m ↦ parse_entries m ]

abbrev pub find_target : String → List (String × BookkeepingTarget) → Option BookkeepingTarget
find_target key [] = none
find_target key ((k, t) ∷ ts) = elim (str_eq k key) [ true ↦ some t | false ↦ find_target key ts ]

-- the properties that every object inherits and that the pattern of a key allows
abbrev pub is_inherited : String → Bool
is_inherited key = one_of ("constructor" ∷ "__proto__" ∷ []) key

-- `targets[target_key]`: an inherited property is no target, but it is not missing either
unfoldable pub target_at : String → List (String × BookkeepingTarget) → Option BookkeepingTarget
target_at key ts = elim (find_target key ts) [
  | some t ↦ some t
  | none ↦ if is_inherited key then some (record { repo = none; issue = none }) else none
]
