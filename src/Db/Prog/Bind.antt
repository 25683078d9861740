-- ===== src/Db/Prog/Bind.antt =====
-- A call with nothing in between, in two parts.
use quantpro_collector.Prelude.{ℕ, suc, ◌≡◌, refl, Option, none, some}
use quantpro_collector.Db.Prog.{
  Prog, done, fail, read, read_catch, write, attempt, Reply, ok, err, outage, alone, run, ◌>>=◌,
}

module _ {S A : Type 0} where
  after_attempt :
      (o : Option S) (x y : Reply A × S) (f g : S → Reply A × S)
      → x ≡ y
      → ((t : S) → f t ≡ g t)
      → elim o as (λ _. Reply A × S) [ none ↦ x | some t ↦ f t ]
        ≡ elim o as (λ _. Reply A × S) [ none ↦ y | some t ↦ g t ]
  after_attempt none x y f g e h = e
  after_attempt (some t) x y f g e h = h t

  -- The number of the first access does not matter.
  pub run-alone_from : (m n : ℕ) (p : Prog S A) (s : S) → run alone m p s ≡ run alone n p s
  unfolding run
  run-alone_from m n (done a) s = refl
  run-alone_from m n (fail e) s = refl
  run-alone_from m n (read k) s = run-alone_from (suc m) (suc n) (k s) s
  run-alone_from m n (read_catch k h) s = run-alone_from (suc m) (suc n) (k s) s
  run-alone_from m n (write u k) s = run-alone_from (suc m) (suc n) k (u s)
  run-alone_from m n (attempt u k h) s =
      after_attempt (u s) _ _ _ _ (run-alone_from (suc m) (suc n) h s)
        (λ t. run-alone_from (suc m) (suc n) (k s) t)

module _ {S A B : Type 0} where
  unfoldable pub continue_with : (A → Prog S B) → Reply A × S → Reply B × S
  continue_with k (ok a, s) = run alone 0 (k a) s
  continue_with k (err e, s) = (err e, s)
  continue_with k (outage, s) = (outage, s)

  after_continue :
      (k : A → Prog S B) (o : Option S) (x : Reply B × S) (y : Reply A × S) (f : S → Reply B × S)
      (g : S → Reply A × S)
      → x ≡ continue_with k y
      → ((t : S) → f t ≡ continue_with k (g t))
      → elim o as (λ _. Reply B × S) [ none ↦ x | some t ↦ f t ]
        ≡ continue_with k (elim o as (λ _. Reply A × S) [ none ↦ y | some t ↦ g t ])
  after_continue k none x y f g e h = e
  after_continue k (some t) x y f g e h = h t

  pub run-bind :
      (n : ℕ) (m : Prog S A) (k : A → Prog S B) (s : S)
      → run alone n (m >>= k) s ≡ continue_with k (run alone n m s)
  unfolding run ◌>>=◌ continue_with
  run-bind n (done a) k s = run-alone_from n 0 (k a) s
  run-bind n (fail e) k s = refl
  run-bind n (read f) k s = run-bind (suc n) (f s) k s
  run-bind n (read_catch f h) k s = run-bind (suc n) (f s) k s
  run-bind n (write u p) k s = run-bind (suc n) p k (u s)
  run-bind n (attempt u f h) k s =
      after_continue k (u s) _ _ _ _ (run-bind (suc n) h k s) (λ t. run-bind (suc n) (f s) k t)

  pub continue-ok :
      (k : A → Prog S B) (a : A) (s : S) → continue_with k (ok a, s) ≡ run alone 0 (k a) s
  unfolding continue_with
  continue-ok k a s = refl
