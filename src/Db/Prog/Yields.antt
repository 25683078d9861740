-- ===== src/Db/Prog/Yields.antt =====
-- What the value of a program has when an invariant of the store holds at each of its reads.
use quantpro_collector.Db.Prog.{Prog, done, fail, read, read_catch, write, attempt, ◌>>=◌, select}
use quantpro_collector.Db.Prog.Keeps.{Walks, Keeps}

abbrev pub Yields : {S A : Type 0} → (S → Type 0) → (A → Type 0) → Prog S A → Type 0
Yields P Q (done a) = Q a
Yields P Q (fail e) = Unit
Yields P Q (read k) = (s : _) → P s → Yields P Q (k s)
Yields P Q (read_catch k h) = ((s : _) → P s → Yields P Q (k s)) × Yields P Q h
Yields P Q (write u k) = Yields P Q k
Yields P Q (attempt u k h) = ((s : _) → P s → Yields P Q (k s)) × Yields P Q h

module _ {S : Type 0} (P : S → Type 0) where
  pub Yields-any : {A : Type 0} (Q : A → Type 0) → ((a : A) → Q a) → (m : Prog S A) → Yields P Q m
  Yields-any Q q (done a) = q a
  Yields-any Q q (fail e) = tt
  Yields-any Q q (read k) = λ s p. Yields-any Q q (k s)
  Yields-any Q q (read_catch k h) = (λ s p. Yields-any Q q (k s), Yields-any Q q h)
  Yields-any Q q (write u k) = Yields-any Q q k
  Yields-any Q q (attempt u k h) = (λ s p. Yields-any Q q (k s), Yields-any Q q h)

  pub Yields-select :
      {A : Type 0} (Q : A → Type 0) (f : S → A) → ((s : S) → P s → Q (f s)) → Yields P Q (select f)
  unfolding select
  Yields-select Q f h = h

  module _ {A B : Type 0} (Q : A → Type 0) where
    pub Yields-bind :
        (R : B → Type 0) (m : Prog S A) (f : A → Prog S B)
        → Yields P Q m
        → ((a : A) → Q a → Yields P R (f a))
        → Yields P R (m >>= f)
    unfolding ◌>>=◌
    Yields-bind R (done a) f h g = g a h
    Yields-bind R (fail e) f h g = tt
    Yields-bind R (read k) f h g = λ s p. Yields-bind R (k s) f (h s p) g
    Yields-bind R (read_catch k c) f (h, h') g =
        (λ s p. Yields-bind R (k s) f (h s p) g, Yields-bind R c f h' g)
    Yields-bind R (write u k) f h g = Yields-bind R k f h g
    Yields-bind R (attempt u k c) f (h, h') g =
        (λ s p. Yields-bind R (k s) f (h s p) g, Yields-bind R c f h' g)

    Walks-on :
        (m : Prog S A) (f : A → Prog S B)
        → Walks P m
        → Yields P Q m
        → ((a : A) → Q a → Walks P (f a))
        → Walks P (m >>= f)
    unfolding ◌>>=◌
    Walks-on (done a) f w h g = g a h
    Walks-on (fail e) f w h g = tt
    Walks-on (read k) f w h g = λ s p. Walks-on (k s) f (w s p) (h s p) g
    Walks-on (read_catch k c) f (w, w') (h, h') g =
        (λ s p. Walks-on (k s) f (w s p) (h s p) g, Walks-on c f w' h' g)
    Walks-on (write u k) f (w, w') h g = (w, Walks-on k f w' h g)
    Walks-on (attempt u k c) f (w, w', w'') (h, h') g =
        (w, (λ s p. Walks-on (k s) f (w' s p) (h s p) g), Walks-on c f w'' h' g)

    -- the rest is only asked to keep the invariant for the values that there can be
    pub Keeps-bind-Yields :
        (m : Prog S A) (f : A → Prog S B)
        → Keeps P m
        → Yields P Q m
        → ((a : A) → Q a → Keeps P (f a))
        → Keeps P (m >>= f)
    Keeps-bind-Yields m f k h g = record { at = Walks-on m f k.at h (λ a q. (g a q).at) }
