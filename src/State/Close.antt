-- ===== src/State/Close.antt =====
-- `validateCloseDependencies` of `src/state-gateway.ts`: which CLOSE events need which earlier
-- states. What the ledgers answer is read from the store by a parameter.
use quantpro_collector.Prelude.{
  ℕ, zero, suc, ◌-◌, Bool, true, false, not, ◌&&◌, ◌||◌, Option, none, some, List, [], ◌∷◌, ◌++◌,
  String, str_eq, ◌==◌, length, filter, any, if◌then◌else◌, codes, strip_prefix, is_lower, repeats,
  is_digit,
}
use quantpro_collector.Json.{Json, bool, record_of, text_of, get}
use quantpro_collector.Db.Prog.{Prog, done, select_catch, case_option, when◌then◌else◌, ◌>>=◌}
use quantpro_collector.State.Errors.{DomainError, gateway, refusal, state_chain_mismatch}
use quantpro_collector.State.Receipts.{Store}

pub record CloseEvent : Type 0 where
  pub symbol : String
  pub effective_r_state : String
  pub r4_candidate : Bool

abbrev pub same_codes : List ℕ → List ℕ → Bool
same_codes [] [] = true
same_codes (x ∷ xs) (y ∷ ys) = x == y && same_codes xs ys
same_codes _ _ = false

abbrev digits_after : String → ℕ → List ℕ → Bool
digits_after prefix n cs = elim (strip_prefix (codes prefix) cs) [
  | none ↦ false
  | some ds ↦ repeats is_digit n n ds
]

-- `^(?:CN:\d{6}|HK:\d{5})$`
unfoldable pub is_symbol : List ℕ → Bool
is_symbol cs = digits_after "CN:" 6 cs || digits_after "HK:" 5 cs

-- the texts before and behind the first full stop
abbrev split_stop : List ℕ → Option (List ℕ × List ℕ)
split_stop [] = none
split_stop (c ∷ cs) = elim (c == b'.') [
  | true ↦ some ([], cs)
  | false ↦ elim (split_stop cs) [ none ↦ none | some (a, b) ↦ some (c ∷ a, b) ]
]

abbrev upper : ℕ → ℕ
upper c = if is_lower c then c - 32 else c

abbrev uppers : List ℕ → List ℕ
uppers [] = []
uppers (c ∷ cs) = upper c ∷ uppers cs

-- `padStart(5, "0")`
abbrev pad_start : ℕ → List ℕ → List ℕ
pad_start zero cs = cs
pad_start (suc n) cs = b'0' ∷ pad_start n cs

-- `000001.SZ` or `700.HK`
unfoldable pub exchange_symbol : List ℕ → Option (List ℕ)
exchange_symbol raw = elim (split_stop raw) [
  | none ↦ none
  | some (ds, exchange) ↦
      let e = uppers exchange in
      if repeats is_digit 6 6 ds && (same_codes e (codes "SZ") || same_codes e (codes "SH"))
      then some (codes "CN:" ++ ds)
      else if repeats is_digit 1 5 ds && same_codes e (codes "HK")
      then some (codes "HK:" ++ pad_start (5 - length ds) ds)
      else none
]

abbrev text_field : String → List (String × Json) → Option String
text_field key m = elim (get key m) [ none ↦ none | some v ↦ text_of v ]

abbrev raw_key : List (String × Json) → Option String
raw_key m = elim (text_field "subject_key" m) [
  | some s ↦ some s
  | none ↦ text_field "instrument_key" m
]

abbrev other_symbol : Option String → Option (List ℕ)
other_symbol none = none
other_symbol (some s) =
    if str_eq s ""
    then none
    else if is_symbol (codes s)
    then some (codes s)
    else exchange_symbol (codes s)

-- `marketRecordCanonicalSymbol`, as code points
unfoldable pub market_record_canonical_symbol : List (String × Json) → Option (List ℕ)
unfolding is_symbol exchange_symbol
market_record_canonical_symbol m = elim (text_field "symbol" m) [
  | none ↦ other_symbol (raw_key m)
  | some s ↦ if is_symbol (codes s) then some (codes s) else other_symbol (raw_key m)
]

abbrev is_confirmed : Option Json → Bool
is_confirmed none = false
is_confirmed (some v) = elim (record_of v) [
  | none ↦ false
  | some m ↦ elim (text_field "status" m) [ none ↦ false | some s ↦ str_eq s "CONFIRMED" ]
]

abbrev is_true : Option Json → Bool
is_true (some (bool b)) = b
is_true _ = false

-- `marketRecordHasSustainedConfirmation`
unfoldable pub market_record_has_sustained_confirmation : List (String × Json) → Bool
market_record_has_sustained_confirmation m =
    is_confirmed (get "continuous_market_structure" m) || is_true (get "r4_candidate" m)

abbrev names_symbol : String → Option (List ℕ) → Bool
names_symbol symbol none = false
names_symbol symbol (some cs) = same_codes cs (codes symbol)

-- `checkpointHasConfirmedSymbol`
unfoldable pub checkpoint_has_confirmed_symbol : List (List (String × Json)) → String → Bool
unfolding market_record_canonical_symbol market_record_has_sustained_confirmation
checkpoint_has_confirmed_symbol records symbol =
    any
      (λ m.
        names_symbol symbol (market_record_canonical_symbol m)
        && market_record_has_sustained_confirmation m)
      records

-- what `getMarketCheckpoints` answers: the records of the slot, if it is a close, and of the
-- previous close
pub record Checkpoints : Type 0 where
  pub current_close : Option (List (List (String × Json)))
  pub previous_close : Option (List (List (String × Json)))

pub data Answer (A : Type 0) : Type 0 where
  answer : A → Answer A
  thrown : DomainError → Answer A

-- the reads of the ledgers: the proposal of each symbol, and the checkpoints of a day
pub record LedgerReads (R : Type 0) : Type 0 where
  pub industry_proposals : List String → R → Answer (String → Option String)
  pub company_proposals : List String → R → Answer (String → Option String)
  pub market_checkpoints : String → R → Answer Checkpoints

abbrev pub needs_industry : CloseEvent → Bool
needs_industry e = str_eq e.effective_r_state "R1"

abbrev pub needs_market : CloseEvent → Bool
needs_market e = str_eq e.effective_r_state "R4" || e.r4_candidate

abbrev pub needs_company : CloseEvent → Bool
needs_company e =
    str_eq e.effective_r_state "R2" || str_eq e.effective_r_state "R3" || needs_market e

-- The new `Set` of the symbols keeps the first of equal ones.
abbrev new_symbols : List String → List CloseEvent → List String
new_symbols seen [] = []
new_symbols seen (e ∷ es) =
    let known = any (λ s. str_eq s e.symbol) seen in
    let rest = new_symbols (if known then seen else e.symbol ∷ seen) es in
    if known then rest else e.symbol ∷ rest

abbrev pub symbols_of : List CloseEvent → List String
symbols_of es = new_symbols [] es

abbrev pub proposed : String → Option String → Bool
proposed state none = false
proposed state (some p) = str_eq p state

abbrev pub chain_mismatch : Option DomainError
chain_mismatch = some (gateway (refusal state_chain_mismatch))

-- the loops over the events; `none` is a pass
unfoldable pub check_proposals :
    String → (String → Option String) → List CloseEvent → Option DomainError
check_proposals state latest [] = none
check_proposals state latest (e ∷ es) =
    let rest = check_proposals state latest es in
    if proposed state (latest e.symbol) then rest else chain_mismatch

abbrev pub confirmed_in : Option (List (List (String × Json))) → String → Bool
confirmed_in none symbol = false
confirmed_in (some records) symbol = checkpoint_has_confirmed_symbol records symbol

unfoldable pub check_closes : Checkpoints → List CloseEvent → Option DomainError
check_closes c [] = none
check_closes c (e ∷ es) =
    let rest = check_closes c es in
    if not (confirmed_in c.current_close e.symbol)
    then chain_mismatch
    else if not (str_eq e.effective_r_state "R4")
    then rest
    else if confirmed_in c.previous_close e.symbol
    then rest
    else chain_mismatch

abbrev is_some_close : Option (List (List (String × Json))) → Bool
is_some_close none = false
is_some_close (some records) = true

unfoldable pub check_market : Checkpoints → List CloseEvent → Option DomainError
unfolding check_closes
check_market c es = if is_some_close c.current_close then check_closes c es else chain_mismatch

abbrev pub some_event : List CloseEvent → Bool
some_event [] = false
some_event (e ∷ es) = true

abbrev pub judge : {A : Type 0} → (A → Option DomainError) → Answer A → Option DomainError
judge f (answer a) = f a
judge f (thrown e) = some e

-- one read, for the events that need it
unfoldable pub ask :
    {R A : Type 0}
    → Bool
    → (R → Answer A)
    → (A → Option DomainError)
    → Prog (Store R) (Option DomainError)
ask any_event ask_for check = when not any_event then done none else do
  a ← select_catch (λ s. ask_for s.ledgers) (thrown DomainError.unexpected)
  done (judge check a)

module _ {R : Type 0} (ledgers : LedgerReads R) where
  -- `validateCloseDependencies`; `none` is a pass
  unfoldable pub validate_close_dependencies :
      (trading_date : String) → List CloseEvent → Prog (Store R) (Option DomainError)
  validate_close_dependencies trading_date events =
      let industry = filter needs_industry events in
      let company = filter needs_company events in
      let market = filter needs_market events in
      do
        i ←
            ask (some_event industry) (ledgers.industry_proposals (symbols_of industry))
              (λ latest. check_proposals "R1" latest industry)
        case_option i
            (do
              c ←
                  ask (some_event company) (ledgers.company_proposals (symbols_of company))
                    (λ latest. check_proposals "R2" latest company)
              case_option c
                  (ask (some_event market) (ledgers.market_checkpoints trading_date)
                    (λ checkpoints. check_market checkpoints market))
                  (λ e. done (some e)))
            (λ e. done (some e))
