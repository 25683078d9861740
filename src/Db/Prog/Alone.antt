-- ===== src/Db/Prog/Alone.antt =====
-- A call with nothing in between: equations that run it access by access.
use quantpro_collector.Prelude.{
  ℕ, suc, ◌≡◌, refl, Bool, true, false, Option, none, some, if◌then◌else◌,
}
use quantpro_collector.Db.Prog.{
  Failure, Prog, done, fail, ok, err, World, alone, select, exec, try_batch, batch_result,
  select_catch, ◌>>=◌, when◌then◌else◌, case_option, run,
}

module _ {S A : Type 0} where
  pub run-done : (w : World S) (n : ℕ) (a : A) (s : S) → run w n (done a) s ≡ (ok a, s)
  unfolding run
  run-done w n a s = refl

  pub run-fail :
      (w : World S) (n : ℕ) (e : Failure) (s : S)
      → run w n (let m : Prog S A = fail e in m) s ≡ (err e, s)
  unfolding run
  run-fail w n e s = refl

  pub run-when :
      (w : World S) (n : ℕ) (b : Bool) (m m' : Prog S A) (s : S)
      → run w n (when b then m else m') s ≡ (if b then run w n m s else run w n m' s)
  unfolding when◌then◌else◌
  run-when w n true m m' s = refl
  run-when w n false m m' s = refl

  pub run-case_option :
      {B : Type 0} (w : World S) (n : ℕ) (o : Option B) (m : Prog S A) (f : B → Prog S A) (s : S)
      → run w n (case_option o m f) s ≡ elim o [ none ↦ run w n m s | some b ↦ run w n (f b) s ]
  unfolding case_option
  run-case_option w n none m f s = refl
  run-case_option w n (some b) m f s = refl

module _ {S A B : Type 0} where
  pub run-select :
      (n : ℕ) (f : S → A) (k : A → Prog S B) (s : S)
      → run alone n (select f >>= k) s ≡ run alone (suc n) (k (f s)) s
  unfolding run ◌>>=◌
  run-select n f k s = refl

  pub run-select_catch :
      (n : ℕ) (f : S → A) (a : A) (k : A → Prog S B) (s : S)
      → run alone n (select_catch f a >>= k) s ≡ run alone (suc n) (k (f s)) s
  unfolding run ◌>>=◌
  run-select_catch n f a k s = refl

  pub done-bind : (a : A) (k : A → Prog S B) → (done a >>= k) ≡ k a
  unfolding ◌>>=◌
  done-bind a k = refl

module _ {S A : Type 0} where
  pub run-exec :
      (n : ℕ) (u : S → S) (k : Unit {0} → Prog S A) (s : S)
      → run alone n (exec u >>= k) s ≡ run alone (suc n) (k tt) (u s)
  unfolding run ◌>>=◌
  run-exec n u k s = refl

  pub run-try_batch :
      (n : ℕ) (u : S → Option S) (k : Bool → Prog S A) (s : S)
      → run alone n (try_batch u >>= k) s ≡ elim (u s) [
        | none ↦ run alone (suc n) (k false) s
        | some t ↦ run alone (suc n) (k true) t
      ]
  unfolding run ◌>>=◌
  run-try_batch n u k s = refl

  pub run-batch_result :
      {R : Type 0} (n : ℕ) (u : S → Option S) (r : S → R) (k : Option R → Prog S A) (s : S)
      → run alone n (batch_result u r >>= k) s ≡ elim (u s) [
        | none ↦ run alone (suc n) (k none) s
        | some t ↦ run alone (suc n) (k (some (r s))) t
      ]
  unfolding run ◌>>=◌
  run-batch_result n u r k s = refl

pub ruleset run_alone = (
  run-done, run-fail, run-when, run-case_option, run-select, run-select_catch, run-exec,
  run-try_batch, run-batch_result, done-bind,
)
