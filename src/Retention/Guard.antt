-- ===== src/Retention/Guard.antt =====
-- `purgeExpiredDocument` (src/research-retention.ts): the guard of contents that other records
-- refer to.
use text.Mathlib.TextLemmas.{append_cancel_left}
use quantpro_collector.Prelude.{
  ℕ, zero, suc, ◌≡◌, refl, sym, ap, ◌∙◌, Bool, true, false, not, List, [], ◌∷◌, ◌++◌, String,
  str_eq, eq_iff, take, filter, any, arith, subst, ◌≤◌, length, Bool-cases, inl, inr,
}
use quantpro_collector.Db.Prog.{ok, alone, run, World, select}
use quantpro_collector.Db.Prog.Alone.{run_alone}
use quantpro_collector.Db.Prog.Keeps.{
  Keeps, Respects, run-Keeps, Keeps-done, Keeps-exec, Keeps-select, Keeps-bind, Keeps-when,
}
use quantpro_collector.Db.Prog.Yields.{
  Yields, Yields-any, Yields-select, Yields-bind, Keeps-bind-Yields,
}
use quantpro_collector.Retention.Rows.{
  RetentionPurgeDetail, Store, is_in, slices, slices_from, param_chunk,
}
use quantpro_collector.Retention.Purge.{
  object_key, is_foreign, delete_contents, count_references, foreign_refs, delete_object, without,
}
use quantpro_collector.Retention.Shared.{counted, some_refs, is_kept}

object_key_eq : (a b : String) → str_eq (object_key a) (object_key b) ≡ true → a ≡ b
object_key_eq a b h =
    append_cancel_left "research-objects/sha256/" a b
      (ground (arith, h, eq_iff (object_key a) (object_key b)))

is_in-take :
    (n : ℕ) (keys : List String) (key : String)
    → is_in keys key ≡ false
    → is_in (take n keys) key ≡ false
is_in-take zero keys key h = refl
is_in-take (suc n) [] key h = refl
is_in-take (suc n) (k ∷ ks) key h = ground (arith, is_in-take n ks key)

any_mono :
    {A : Type 0} (p q : A → Bool)
    → ((x : A) → p x ≡ true → q x ≡ true)
    → (xs : List A) → any p xs ≡ true
    → any q xs ≡ true
any_mono p q e [] h = h
any_mono p q e (x ∷ xs) h = ground (arith, e x, any_mono p q e xs)

keys_apart : (c x : String) → str_eq x c ≡ false → str_eq (object_key c) (object_key x) ≡ false
keys_apart c x n = elim (Bool-cases (str_eq (object_key c) (object_key x))) [
  | inl e ↦ absurd (ground (arith, n, object_key_eq c x e, eq_iff x c))
  | inr e ↦ e
]

is_in-filter :
    (gone : String → Bool) (key : String)
    → gone key ≡ false
    → (keys : List String) → is_in (filter (λ k. not (gone k)) keys) key ≡ is_in keys key
is_in-filter gone key h [] = refl
is_in-filter gone key h (k ∷ ks) = elim (Bool-cases (str_eq k key)) [
  | inl e ↦
      let same : k ≡ key = ground (arith, e, eq_iff k key) in
      ground (arith, e, ap gone same ∙ h, is_in-filter gone key h ks)
  | inr e ↦ ground (arith, e, is_in-filter gone key h ks)
]

any-count : {A : Type 0} (p : A → Bool) (xs : List A) → any p xs ≡ true → 1 ≤ length (filter p xs)
any-count p [] h = absurd (ground arith)
any-count p (x ∷ xs) h = ground (arith, h, any-count p xs)

is_in-without :
    (c x : String)
    → str_eq x c ≡ false
    → (keys : List String)
    → is_in (without (object_key x) keys) (object_key c) ≡ is_in keys (object_key c)
is_in-without c x n keys =
    is_in-filter (λ k. str_eq k (object_key x)) (object_key c) (keys_apart c x n) keys

module _ {G : Type 0} where
  first_slice :
      (v : String) (vs : List String) (s : Store G) (c : String)
      → any (is_foreign c (take param_chunk (v ∷ vs))) s.links ≡ true
      → is_kept (v ∷ vs) s c ≡ true
  unfolding slices slices_from
  first_slice v vs s c h = ground (arith, h)

  -- a content that a record outside of the versions refers to, and whose object is in the bucket
  abbrev pub IsShared : (versions : List String) → String → Store G → Type 0
  IsShared versions c s =
      (any (is_foreign c versions) s.links ≡ true) × (is_in s.r2 (object_key c) ≡ true)

  module _ (v : String) (vs : List String) (c : String) where
    abbrev Shared : Store G → Type 0
    Shared = IsShared (v ∷ vs) c

    first_count : (s : Store G) → Shared s → 1 ≤ foreign_refs c (take param_chunk (v ∷ vs)) s
    first_count s h = any-count (is_foreign c (take param_chunk (v ∷ vs))) s.links (
        any_mono (is_foreign c (v ∷ vs)) (is_foreign c (take param_chunk (v ∷ vs)))
          (λ l f. ground (arith, f, is_in-take param_chunk (v ∷ vs) l.record_key)) s.links h.0)

    counts_from :
        (first : List String) (ks : List (List String))
        → ((s : Store G) → Shared s → 1 ≤ foreign_refs c first s)
        → Yields Shared (λ n. 1 ≤ n) (count_references c (first ∷ ks))
    unfolding count_references
    counts_from first ks h =
        Yields-bind Shared (λ n. 1 ≤ n) (λ n. 1 ≤ n) (select (foreign_refs c first)) _
          (Yields-select Shared (λ n. 1 ≤ n) (foreign_refs c first) h)
          λ here k.
            Yields-bind Shared {A = ℕ} (λ n. Unit {0}) (λ n. 1 ≤ n) (count_references c ks) _
              (Yields-any Shared (λ n. Unit) (λ n. tt) (count_references c ks))
              (λ rest u. omega (arith, k))

    counts-Shared :
        ((s : Store G) → Shared s → 1 ≤ foreign_refs c (take param_chunk (v ∷ vs)) s)
        → Yields Shared (λ n. 1 ≤ n) (count_references c (slices (v ∷ vs)))
    unfolding slices slices_from
    counts-Shared h = counts_from (take param_chunk (v ∷ vs)) _ h

    Keeps-count : (x : String) (ss : List (List String)) → Keeps Shared (count_references x ss)
    unfolding count_references
    Keeps-count x [] = Keeps-done _
    Keeps-count x (k ∷ ks) =
        Keeps-bind _ _ (Keeps-select _)
          λ here. Keeps-bind _ _ (Keeps-count x ks) (λ rest. Keeps-done _)

    other_object :
        (x : String)
        → str_eq x c ≡ false
        → (s : Store G) → Shared s
        → Shared (delete_object (object_key x) s)
    other_object x n s h = (h.0, is_in-without c x n s.r2 ∙ h.1)

    Keeps-Shared :
        (cs : List String) (d : RetentionPurgeDetail) → Keeps Shared (delete_contents (v ∷ vs) cs d)
    unfolding delete_contents
    Keeps-Shared [] d = Keeps-done _
    Keeps-Shared (x ∷ xs) d = elim (Bool-cases (str_eq x c)) [
      | inl e ↦
          let same : c ≡ x = sym (ground (arith, e, eq_iff x c)) in
          Keeps-bind-Yields Shared (λ n. 1 ≤ n) _ _ (Keeps-count x (slices (v ∷ vs)))
            (subst (λ y. Yields Shared (λ n. 1 ≤ n) (count_references y (slices (v ∷ vs)))) same
              (counts-Shared first_count))
            λ n h. Keeps-when _ _ _ (λ k. Keeps-Shared xs _) (λ k. absurd (ground (arith, h, k)))
      | inr e ↦ Keeps-bind _ _ (Keeps-count x (slices (v ∷ vs))) λ n.
          Keeps-when _ _ _ (λ k. Keeps-Shared xs _)
            λ k. Keeps-bind _ _ (Keeps-exec _ (other_object x e)) (λ u. Keeps-Shared xs _)
    ]

  -- Whichever accesses fail, the first step of a purge of a document that has a version leaves the
  -- object of a content in the bucket, if it was there and some record refers to the content that
  -- is not one of the versions, and other calls in between leave it so.
  pub delete_contents_shared :
      (v : String) (vs cs : List String) (d : RetentionPurgeDetail) (c : String)
      (w : World (Store G)) (s : Store G)
      → Respects (IsShared (v ∷ vs) c) w
      → IsShared (v ∷ vs) c s
      → is_in (run w 0 (delete_contents (v ∷ vs) cs d) s).1.r2 (object_key c) ≡ true
  delete_contents_shared v vs cs d c w s others h =
      (run-Keeps w 0 (delete_contents (v ∷ vs) cs d) s others (Keeps-Shared v vs c cs d) h).1

  -- If a document has more than fifty versions, and a version after the first fifty refers to a
  -- content, then the content is reported as shared and its object stays in the bucket, although no
  -- record outside of the document refers to it.
  pub delete_contents_unshared :
      (v : String) (vs : List String) (d : RetentionPurgeDetail) (s : Store G) (c : String)
      → any (is_foreign c (v ∷ vs)) s.links ≡ false
      → any (is_foreign c (take param_chunk (v ∷ vs))) s.links ≡ true
      → run alone 0 (delete_contents (v ∷ vs) (c ∷ []) d) s
        ≡ (ok (record d { objects_kept_shared_hashes = d.objects_kept_shared_hashes ++ c ∷ [] }), s)
  unfolding delete_contents
  delete_contents_unshared v vs d s c own h =
      simp (counted, run_alone, some_refs c (slices (v ∷ vs)) s, first_slice v vs s c h)
