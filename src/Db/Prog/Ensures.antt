-- ===== src/Db/Prog/Ensures.antt =====
-- What holds of a call's return value and of the tables at that moment, whatever other calls do in
-- between and whichever accesses fail.
use quantpro_collector.Prelude.{
  ℕ, suc, ◌≡◌, refl, Bool, true, false, Option, none, some, if◌then◌else◌,
}
use quantpro_collector.Db.Prog.{
  Prog, done, fail, read, read_catch, write, attempt, Reply, ok, err, outage, World, run, ◌>>=◌,
  when◌then◌else◌, case_option,
}

module _ {S A : Type 0} where
  abbrev pub Ensures : (A → S → Type 0) → Prog S A → S → Type 0
  Ensures Q (done a) s = Q a s
  Ensures Q (fail e) s = Unit
  Ensures Q (read k) s = (t : S) → Ensures Q (k t) t
  Ensures Q (read_catch k h) s = ((t : S) → Ensures Q (k t) t) × ((t : S) → Ensures Q h t)
  Ensures Q (write u k) s = (t : S) → Ensures Q k (u t)
  Ensures Q (attempt u k h) s =
      ((t t' : S) → u t ≡ some t' → Ensures Q (k t) t') × ((t : S) → Ensures Q h t)

  abbrev pub Holds : (A → S → Type 0) → Reply A × S → Type 0
  Holds Q (ok a, s) = Q a s
  Holds Q (err e, s) = Unit
  Holds Q (outage, s) = Unit

  either_down :
      (P : Reply A × S → Type 0) (b : Bool) (x y : Reply A × S)
      → P x
      → P y
      → P (elim b [ true ↦ x | false ↦ y ])
  either_down P true x y p q = p
  either_down P false x y p q = q

  either_commit :
      (P : Reply A × S → Type 0) (b : Bool) (o : Option S) (x : Reply A × S) (f : S → Reply A × S)
      → P x
      → ((t : S) → o ≡ some t → P (f t))
      → P (elim (if b then none else o) [ none ↦ x | some t ↦ f t ])
  either_commit P true o x f p q = p
  either_commit P false none x f p q = p
  either_commit P false (some t) x f p q = q t refl

  pub run-Ensures :
      (Q : A → S → Type 0) (w : World S) (n : ℕ) (m : Prog S A) (s : S)
      → Ensures Q m s
      → Holds Q (run w n m s)
  unfolding run
  run-Ensures Q w n (done a) s h = h
  run-Ensures Q w n (fail e) s h = tt
  run-Ensures Q w n (read k) s h =
      let t = w.others n s in
      either_down (Holds Q) (w.down n) _ _ tt (run-Ensures Q w (suc n) (k t) t (h t))
  run-Ensures Q w n (read_catch k g) s h =
      let t = w.others n s in
      either_down (Holds Q) (w.down n) _ _ (run-Ensures Q w (suc n) g t (h.1 t))
        (run-Ensures Q w (suc n) (k t) t (h.0 t))
  run-Ensures Q w n (write u k) s h =
      let t = w.others n s in
      either_down (Holds Q) (w.down n) _ _ tt (run-Ensures Q w (suc n) k (u t) (h t))
  run-Ensures Q w n (attempt u k g) s h =
      let t = w.others n s in
      either_commit (Holds Q) (w.down n) (u t) _ _ (run-Ensures Q w (suc n) g t (h.1 t))
        (λ t' e. run-Ensures Q w (suc n) (k t) t' (h.0 t t' e))

  pub Ensures-when :
      (Q : A → S → Type 0) (b : Bool) (m m' : Prog S A) (s : S)
      → (b ≡ true → Ensures Q m s)
      → (b ≡ false → Ensures Q m' s)
      → Ensures Q (when b then m else m') s
  unfolding when◌then◌else◌
  Ensures-when Q true m m' s h h' = h refl
  Ensures-when Q false m m' s h h' = h' refl

module _ {S A B : Type 0} where
  pub Ensures-option :
      (Q : A → S → Type 0) (o : Option B) (m : Prog S A) (f : B → Prog S A) (s : S)
      → (o ≡ none → Ensures Q m s)
      → ((b : B) → o ≡ some b → Ensures Q (f b) s)
      → Ensures Q (case_option o m f) s
  unfolding case_option
  Ensures-option Q none m f s h k = h refl
  Ensures-option Q (some b) m f s h k = k b refl

  pub Ensures-bind :
      (Q : B → S → Type 0) (m : Prog S A) (f : A → Prog S B) (s : S)
      → Ensures (λ a t. Ensures Q (f a) t) m s
      → Ensures Q (m >>= f) s
  unfolding ◌>>=◌
  Ensures-bind Q (done a) f s h = h
  Ensures-bind Q (fail e) f s h = tt
  Ensures-bind Q (read k) f s h = λ t. Ensures-bind Q (k t) f t (h t)
  Ensures-bind Q (read_catch k g) f s h =
      (λ t. Ensures-bind Q (k t) f t (h.0 t), λ t. Ensures-bind Q g f t (h.1 t))
  Ensures-bind Q (write u k) f s h = λ t. Ensures-bind Q k f (u t) (h t)
  Ensures-bind Q (attempt u k g) f s h =
      (λ t t' e. Ensures-bind Q (k t) f t' (h.0 t t' e), λ t. Ensures-bind Q g f t (h.1 t))
