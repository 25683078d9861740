-- ===== src/Retention/Shared.antt =====
-- `purgeExpiredDocument` (src/research-retention.ts): which contents a purge deletes.
use quantpro_collector.Prelude.{
  ℕ, suc, ◌+◌, ◌≡◌, refl, sym, ap, ◌∙◌, Bool, true, not, ◌&&◌, ◌||◌, List, [], ◌∷◌, ◌++◌, String,
  str_eq, length, filter, any, ltb, arith, Bool-cases, inl, inr,
}
use quantpro_collector.Db.Prog.{Prog, ok, alone, run, ◌>>=◌}
use quantpro_collector.Db.Prog.Alone.{run_alone}
use quantpro_collector.Db.Prog.Bind.{run-alone_from, run-bind, continue_with, continue-ok}
use quantpro_collector.Retention.Rows.{RetentionPurgeDetail, Store, slices}
use quantpro_collector.Retention.Purge.{
  object_key, is_foreign, without, foreign_refs, count_references, delete_object, delete_contents,
}

module _ {A : Type 0} where
  some_counted : (p : A → Bool) (xs : List A) → ltb 0 (length (filter p xs)) ≡ any p xs
  some_counted p [] = refl
  some_counted p (x ∷ xs) = ground (arith, some_counted p xs)

  filter_twice :
      (p q : A → Bool) (xs : List A) → filter p (filter q xs) ≡ filter (λ x. q x && p x) xs
  filter_twice p q [] = refl
  filter_twice p q (x ∷ xs) = ground (arith, filter_twice p q xs)

  append_assoc : (xs ys zs : List A) → (xs ++ ys) ++ zs ≡ xs ++ (ys ++ zs)
  append_assoc [] ys zs = refl
  append_assoc (x ∷ xs) ys zs = ap (λ l. x ∷ l) (append_assoc xs ys zs)

  append_nil : (xs : List A) → xs ++ [] ≡ xs
  append_nil [] = refl
  append_nil (x ∷ xs) = ap (λ l. x ∷ l) (append_nil xs)

  filter_ext : (p q : A → Bool) → ((x : A) → p x ≡ q x) → (xs : List A) → filter p xs ≡ filter q xs
  filter_ext p q e [] = refl
  filter_ext p q e (x ∷ xs) = ground (arith, e x, filter_ext p q e xs)

  filter_all : (xs : List A) → filter (λ x. true) xs ≡ xs
  filter_all [] = refl
  filter_all (x ∷ xs) = ap (λ ys. x ∷ ys) (filter_all xs)

module _ {G : Type 0} where
  abbrev total_refs : String → List (List String) → Store G → ℕ
  total_refs c [] s = 0
  total_refs c (v ∷ vs) s = foreign_refs c v s + total_refs c vs s

  -- some slice of the versions is without some version that refers to the content
  abbrev pub is_kept : (versions : List String) → Store G → String → Bool
  is_kept versions s c = any (λ v. any (is_foreign c v) s.links) (slices versions)

  pub some_refs :
      (c : String) (vs : List (List String)) (s : Store G)
      → ltb 0 (total_refs c vs s) ≡ any (λ v. any (is_foreign c v) s.links) vs
  some_refs c [] s = refl
  some_refs c (v ∷ vs) s = ground (arith, some_counted (is_foreign c v) s.links, some_refs c vs s)

  count_references-alone :
      (n : ℕ) (c : String) (vs : List (List String)) (s : Store G)
      → run alone n (count_references c vs) s ≡ (ok (total_refs c vs s), s)
  unfolding count_references
  count_references-alone n c [] s = simp run_alone
  count_references-alone n c (v ∷ vs) s =
      simp (run_alone, run-bind, count_references-alone (suc n) c vs s, continue-ok)

  pub counted :
      {B : Type 0} (c : String) (vs : List (List String)) (k : ℕ → Prog (Store G) B) (s : Store G)
      → run alone 0 (count_references c vs >>= k) s ≡ run alone 0 (k (total_refs c vs s)) s
  counted c vs k s =
      run-bind 0 (count_references c vs) k s
      ∙ ap (continue_with k) (count_references-alone 0 c vs s)
      ∙ continue-ok k (total_refs c vs s) s

  abbrev pub kept_with :
      (List String) → (List String) → RetentionPurgeDetail → Store G → RetentionPurgeDetail
  kept_with versions cs d s = record d {
    objects_kept_shared_hashes = d.objects_kept_shared_hashes ++ filter (is_kept versions s) cs;
    objects_deleted = d.objects_deleted ++ filter (λ c. not (is_kept versions s c)) cs;
  }

  -- the object of one of the contents that are not kept
  abbrev pub is_gone : (versions contents : List String) → Store G → String → Bool
  is_gone versions cs s key = any (λ c. not (is_kept versions s c) && str_eq key (object_key c)) cs

  -- one content more is deleted
  step_keys :
      (versions : List String) (c : String) (cs : List String) (s : Store G) (keys : List String)
      → filter (λ k. not (is_gone versions cs s k)) (without (object_key c) keys)
        ≡ filter (λ k. not (str_eq k (object_key c) || is_gone versions cs s k)) keys
  step_keys versions c cs s keys =
      filter_twice (λ k. not (is_gone versions cs s k)) (λ k. not (str_eq k (object_key c))) keys
      ∙ filter_ext _ _ (λ k. ground arith) keys

  nothing_gone :
      (versions : List String) (d : RetentionPurgeDetail) (s : Store G)
      → (record s { r2 = filter (λ k. not (is_gone versions [] s k)) s.r2 } ≡ s)
        × (kept_with versions [] d s ≡ d)
  nothing_gone versions d s = (
    ap (λ l. record s { r2 = l }) (filter_all s.r2),
    ap (λ l. record d { objects_kept_shared_hashes = l; objects_deleted = d.objects_deleted ++ [] })
          (append_nil d.objects_kept_shared_hashes)
        ∙ ap (λ l. record d { objects_deleted = l }) (append_nil d.objects_deleted),
  )

  -- With nothing else running and no access failing, the first step of a purge deletes from the
  -- bucket exactly the objects of those contents that no record refers to whose key is missing from
  -- some slice of fifty of the document's versions, and reports just these.
  pub delete_contents-exact :
      (versions cs : List String) (d : RetentionPurgeDetail) (s : Store G)
      → run alone 0 (delete_contents versions cs d) s ≡ (
        ok (kept_with versions cs d s),
        record s { r2 = filter (λ k. not (is_gone versions cs s k)) s.r2 },
      )
  unfolding delete_contents
  delete_contents-exact versions [] d s = simp run_alone (
      sym (
        ap (λ x. (ok x, record s { r2 = filter (λ k. not (is_gone versions [] s k)) s.r2 }))
          (nothing_gone versions d s).1
        ∙ ap (λ t. (ok d, t)) (nothing_gone versions d s).0))
  delete_contents-exact versions (c ∷ cs) d s =
      let some = some_refs c (slices versions) s in
      elim (Bool-cases (is_kept versions s c)) [
        | inl h ↦
            simp (counted, run_alone, some, h)
              (delete_contents-exact versions cs
                  (record d { objects_kept_shared_hashes = d.objects_kept_shared_hashes ++ c ∷ [] })
                  s
                ∙ ap
                    (λ l. (
                      ok (record d {
                        objects_kept_shared_hashes = l;
                        objects_deleted =
                            d.objects_deleted ++ filter (λ x. not (is_kept versions s x)) cs;
                      }),
                      record s { r2 = filter (λ k. not (is_gone versions cs s k)) s.r2 },
                    ))
                    (append_assoc d.objects_kept_shared_hashes (c ∷ [])
                      (filter (is_kept versions s) cs)))
        | inr h ↦
            simp (counted, run_alone, some, h, run-alone_from 1 0)
              (delete_contents-exact versions cs
                  (record d { objects_deleted = d.objects_deleted ++ c ∷ [] })
                  (delete_object (object_key c) s)
                ∙ ap
                    (λ l. (
                      ok (record d {
                        objects_kept_shared_hashes =
                            d.objects_kept_shared_hashes ++ filter (is_kept versions s) cs;
                        objects_deleted = l;
                      }),
                      record s {
                        r2 =
                            filter (λ k. not (is_gone versions cs s k))
                              (without (object_key c) s.r2);
                      },
                    ))
                    (append_assoc d.objects_deleted (c ∷ [])
                      (filter (λ x. not (is_kept versions s x)) cs))
                ∙ ap
                    (λ l. (
                      ok (record d {
                        objects_kept_shared_hashes =
                            d.objects_kept_shared_hashes ++ filter (is_kept versions s) cs;
                        objects_deleted =
                            d.objects_deleted ++ c ∷ filter (λ x. not (is_kept versions s x)) cs;
                      }),
                      record s { r2 = l },
                    ))
                    (step_keys versions c cs s s.r2))
      ]
