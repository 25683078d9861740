-- ===== src/Db/Prog/Keeps.antt =====
-- Invariants of the store over a whole call, whatever runs between its accesses. One rule for
-- each way to build a program.
use quantpro_collector.Prelude.{
  ℕ, suc, ◌≡◌, refl, Bool, true, false, Option, none, some, if◌then◌else◌, Bool-cases, Option-cases,
  inl, inr,
}
use quantpro_collector.Db.Prog.{
  Failure, Prog, done, fail, read, read_catch, write, attempt, World, ◌>>=◌, select, exec,
  try_batch, batch_result, select_catch, case_option, when◌then◌else◌, run,
}

module _ {S : Type 0} (P : S → Type 0) where
  -- Every write of the program keeps `P`.
  abbrev pub Walks : {A : Type 0} → Prog S A → Type 0
  Walks (done a) = Unit
  Walks (fail e) = Unit
  Walks (read k) = (s : S) → P s → Walks (k s)
  Walks (read_catch k h) = ((s : S) → P s → Walks (k s)) × Walks h
  Walks (write u k) = ((s : S) → P s → P (u s)) × Walks k
  Walks (attempt u k h) =
      ((s s' : S) → P s → u s ≡ some s' → P s') × ((s : S) → P s → Walks (k s)) × Walks h

  pub record Keeps {A : Type 0} (m : Prog S A) : Type 0 where
    pub at : Walks m

  -- The other requests keep `P` too.
  abbrev pub Respects : World S → Type 0
  Respects w = (n : ℕ) (s : S) → P s → P (w.others n s)

Walks-bind :
    {S : Type 0} (P : S → Type 0) {A B : Type 0} (m : Prog S A) (f : A → Prog S B)
    → Walks P m
    → ((a : A) → Walks P (f a))
    → Walks P (m >>= f)
unfolding ◌>>=◌
Walks-bind P (done a) f h g = g a
Walks-bind P (fail e) f h g = tt
Walks-bind P (read k) f h g = λ s p. Walks-bind P (k s) f (h s p) g
Walks-bind P (read_catch k c) f (h, h') g =
    (λ s p. Walks-bind P (k s) f (h s p) g, Walks-bind P c f h' g)
Walks-bind P (write u k) f (h, h') g = (h, Walks-bind P k f h' g)
Walks-bind P (attempt u k c) f (h, h', h'') g =
    (h, (λ s p. Walks-bind P (k s) f (h' s p) g), Walks-bind P c f h'' g)

module _ {S : Type 0} {P : S → Type 0} where
  run-Walks :
      {A : Type 0} (w : World S) (n : ℕ) (m : Prog S A) (s : S)
      → Respects P w
      → Walks P m
      → P s
      → P (run w n m s).1
  unfolding run
  run-Walks w n (done a) s r h p = p
  run-Walks w n (fail e) s r h p = p
  run-Walks w n (read k) s r h p = elim (Bool-cases (w.down n)) [
    | inl e ↦ rw (e, run) (r n s p)
    | inr e ↦
        rw (e, run)
          (run-Walks w (suc n) (k (w.others n s)) (w.others n s) r (h (w.others n s) (r n s p))
            (r n s p))
  ]
  run-Walks w n (read_catch k c) s r (h, g) p = elim (Bool-cases (w.down n)) [
    | inl e ↦ rw (e, run) (run-Walks w (suc n) c (w.others n s) r g (r n s p))
    | inr e ↦
        rw (e, run)
          (run-Walks w (suc n) (k (w.others n s)) (w.others n s) r (h (w.others n s) (r n s p))
            (r n s p))
  ]
  run-Walks w n (write u k) s r (h, g) p = elim (Bool-cases (w.down n)) [
    | inl e ↦ rw (e, run) (r n s p)
    | inr e ↦
        rw (e, run) (run-Walks w (suc n) k (u (w.others n s)) r g (h (w.others n s) (r n s p)))
  ]
  run-Walks w n (attempt u k c) s r (h, g, g') p = elim (Bool-cases (w.down n)) [
    | inl e ↦ rw (e, run) (run-Walks w (suc n) c (w.others n s) r g' (r n s p))
    | inr e ↦
        rw (e, run)
          (elim (Option-cases (u (w.others n s))) [
            | inl e' ↦ rw (e', run) (run-Walks w (suc n) c (w.others n s) r g' (r n s p))
            | inr (s', e') ↦
                rw (e', run)
                  (run-Walks w (suc n) (k (w.others n s)) s' r (g (w.others n s) (r n s p))
                    (h (w.others n s) s' (r n s p) e'))
          ])
  ]

  -- A call keeps what all its writes keep.
  pub run-Keeps :
      {A : Type 0} (w : World S) (n : ℕ) (m : Prog S A) (s : S)
      → Respects P w
      → Keeps P m
      → P s
      → P (run w n m s).1
  run-Keeps w n m s r k p = run-Walks w n m s r k.at p

  pub Keeps-done : {A : Type 0} (a : A) → Keeps P (done a)
  Keeps-done a = record { at = tt }

  pub Keeps-fail : {A : Type 0} (e : Failure) → Keeps P (let m : Prog S A = fail e in m)
  Keeps-fail e = record { at = tt }

  pub Keeps-select : {A : Type 0} (f : S → A) → Keeps P (select f)
  unfolding select
  Keeps-select f = record { at = λ s p. tt }

  pub Keeps-exec : (f : S → S) → ((s : S) → P s → P (f s)) → Keeps P (exec f)
  unfolding exec
  Keeps-exec f h = record { at = (h, tt) }

  pub Keeps-try_batch :
      (f : S → Option S) → ((s s' : S) → P s → f s ≡ some s' → P s') → Keeps P (try_batch f)
  unfolding try_batch
  Keeps-try_batch f h = record { at = (h, (λ s p. tt), tt) }

  pub Keeps-batch_result :
      {R : Type 0} (f : S → Option S) (g : S → R)
      → ((s s' : S) → P s → f s ≡ some s' → P s')
      → Keeps P (batch_result f g)
  unfolding batch_result
  Keeps-batch_result f g h = record { at = (h, (λ s p. tt), tt) }

  pub Keeps-select_catch : {A : Type 0} (f : S → A) (a : A) → Keeps P (select_catch f a)
  unfolding select_catch
  Keeps-select_catch f a = record { at = ((λ s p. tt), tt) }

  pub Keeps-option :
      {A B : Type 0} (o : Option B) (m : Prog S A) (f : B → Prog S A)
      → Keeps P m
      → ((b : B) → Keeps P (f b))
      → Keeps P (case_option o m f)
  unfolding case_option
  Keeps-option none m f h g = h
  Keeps-option (some b) m f h g = g b

  pub Keeps-bind :
      {A B : Type 0} (first : Prog S A) (rest : A → Prog S B)
      → Keeps P first
      → ((answer : A) → Keeps P (rest answer))
      → Keeps P (first >>= rest)
  Keeps-bind first rest h g = record { at = Walks-bind P first rest h.at (λ answer. (g answer).at) }

  pub Keeps-when :
      {A : Type 0} (b : Bool) (m m' : Prog S A)
      → (b ≡ true → Keeps P m)
      → (b ≡ false → Keeps P m')
      → Keeps P (when b then m else m')
  unfolding when◌then◌else◌
  Keeps-when true m m' h h' = h refl
  Keeps-when false m m' h h' = h' refl

pub ruleset keeps_rules =
    (Keeps-done, Keeps-fail, Keeps-select, Keeps-select_catch, Keeps-bind, Keeps-when, Keeps-option)
