-- ===== src/Db/Prog.antt =====
-- A request handler as a sequence of accesses to a shared database: between two accesses other
-- requests may run, and any access may fail. A batch is one transaction.
pub mod Keeps
pub mod Alone
pub mod Ensures
pub mod Bind
pub mod Yields
use quantpro_collector.Prelude.{
  ℕ, suc, ◌+◌, ◌≡◌, refl, Bool, true, false, Option, none, some, arith, if◌then◌else◌,
}

-- The error codes that `fail` throws; the last one stands for a plain `Error`.
pub data Failure : Type 0 where
  filtered store_unavailable integrity_failed invalid_value : Failure

pub data Prog (S A : Type 0) : Type 0 where
  done : A → Prog S A
  fail : Failure → Prog S A
  -- a SELECT whose failure escapes, and one with a handler
  read : (S → Prog S A) → Prog S A
  read_catch : (S → Prog S A) → Prog S A → Prog S A
  -- a statement or batch whose failure escapes, and one with a handler; `none` is a violated
  -- constraint, after which nothing is written; the row counts of a batch are read off the store
  -- that it ran on
  write : (S → S) → Prog S A → Prog S A
  attempt : (S → Option S) → (S → Prog S A) → Prog S A → Prog S A

-- How a call ends: it returns, throws one of its own errors, or lets a database error through.
pub data Reply (A : Type 0) : Type 0 where
  ok : A → Reply A
  err : Failure → Reply A
  outage : Reply A

-- What the environment does at the n-th access.
pub record World (S : Type 0) : Type 0 where
  pub others : ℕ → S → S
  pub down : ℕ → Bool

module _ {S A : Type 0} where
  unfoldable pub select : (S → A) → Prog S A
  select f = read (λ s. done (f s))

module _ {S : Type 0} where
  unfoldable pub exec : (S → S) → Prog S (Unit {0})
  exec f = write f (done tt)

  -- true when the batch committed
  unfoldable pub try_batch : (S → Option S) → Prog S Bool
  try_batch f = attempt f (λ s. done true) (done false)

module _ {S R : Type 0} where
  -- the result of the batch, `none` when it threw
  unfoldable pub batch_result : (S → Option S) → (S → R) → Prog S (Option R)
  batch_result f r = attempt f (λ s. done (some (r s))) (done none)

module _ {S A : Type 0} where
  -- a SELECT with `.catch(() => ...)`
  unfoldable pub select_catch : (S → A) → A → Prog S A
  select_catch f a = read_catch (λ s. done (f s)) (done a)

module _ {S A B : Type 0} where
  infixl 5 ◌>>=◌ ◌>>◌
  unfoldable pub ◌>>=◌ : Prog S A → (A → Prog S B) → Prog S B
  unfolding select exec try_batch batch_result select_catch
  done a >>= f = f a
  fail e >>= f = fail e
  read k >>= f = read (λ s. k s >>= f)
  read_catch k h >>= f = read_catch (λ s. k s >>= f) (h >>= f)
  write u k >>= f = write u (k >>= f)
  attempt u k h >>= f = attempt u (λ s. k s >>= f) (h >>= f)

  abbrev pub ◌>>◌ : Prog S A → Prog S B → Prog S B
  m >> k = m >>= λ _. k

-- A branch, and a branch on a value that may be missing. They are shut, so that the rules for
-- programs see them.
infix 1 when◌then◌else◌
unfoldable pub when◌then◌else◌ : {S A : Type 0} → Bool → Prog S A → Prog S A → Prog S A
when true then m else m' = m
when false then m else m' = m'

unfoldable pub case_option : {S A B : Type 0} → Option B → Prog S A → (B → Prog S A) → Prog S A
case_option none m f = m
case_option (some b) m f = f b

module _ {S A : Type 0} where
  -- One call, from its n-th access on.
  unfoldable pub run : World S → ℕ → Prog S A → S → Reply A × S
  run w n (done a) s = (ok a, s)
  run w n (fail e) s = (err e, s)
  run w n (read k) s =
      let s' = w.others n s in
      elim (w.down n) [ true ↦ (outage, s') | false ↦ run w (suc n) (k s') s' ]
  run w n (read_catch k h) s =
      let s' = w.others n s in
      elim (w.down n) [ true ↦ run w (suc n) h s' | false ↦ run w (suc n) (k s') s' ]
  run w n (write u k) s =
      let s' = w.others n s in
      elim (w.down n) [ true ↦ (outage, s') | false ↦ run w (suc n) k (u s') ]
  run w n (attempt u k h) s =
      let s' = w.others n s in
      elim (if w.down n then none else u s') [
        | none ↦ run w (suc n) h s'
        | some s'' ↦ run w (suc n) (k s') s''
      ]

-- Nobody else runs and nothing fails.
abbrev pub alone : {S : Type 0} → World S
alone = record { others = λ n s. s; down = λ n. false }
