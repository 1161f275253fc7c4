-- ===== src/Storage/Tables.antt =====
-- What holds of the rows of a table after its rows were added, changed or deleted.
use tekrion.Prelude.{
  ◌≡◌, refl, ap, subst, inl, inr, Bool, Bool-cases, true, false, ◌||◌, List, [], ◌∷◌, ◌++◌, arith,
  if◌then◌else◌, any, keep, All, none, some, find,
}
use tekrion.Storage.{update_where}

module _ {A : Type 0} where
  pub All-imp : (P Q : A → Type 0) → ((a : A) → P a → Q a) → (xs : List A) → All P xs → All Q xs
  All-imp P Q h [] p = tt
  All-imp P Q h (x ∷ xs) p = (h x p.0, All-imp P Q h xs p.1)

  pub All-keep : (P : A → Type 0) (q : A → Bool) (xs : List A) → All P xs → All P (keep q xs)
  All-keep P q [] p = tt
  All-keep P q (x ∷ xs) p = elim (Bool-cases (q x)) [
    | inl e ↦ rw e (p.0, All-keep P q xs p.1)
    | inr e ↦ rw e (All-keep P q xs p.1)
  ]

  -- Rows that are kept satisfy the test.
  pub All-keep_test : (q : A → Bool) (xs : List A) → All (λ x. q x ≡ true) (keep q xs)
  All-keep_test q [] = tt
  All-keep_test q (x ∷ xs) = elim (Bool-cases (q x)) [
    | inl e ↦ rw (e, keep) (e, All-keep_test q xs)
    | inr e ↦ rw (e, keep) (All-keep_test q xs)
  ]

  pub All-both : (P Q : A → Type 0) (xs : List A) → All P xs → All Q xs → All (λ x. P x × Q x) xs
  All-both P Q [] p q = tt
  All-both P Q (x ∷ xs) p q = ((p.0, q.0), All-both P Q xs p.1 q.1)

  pub All-update :
      (P Q : A → Type 0) (q : A → Bool) (f : A → A)
      → ((a : A) → q a ≡ true → P a → Q (f a))
      → ((a : A) → q a ≡ false → P a → Q a)
      → (xs : List A) → All P xs
      → All Q (update_where q f xs)
  All-update P Q q f here there [] p = tt
  All-update P Q q f here there (x ∷ xs) p = elim (Bool-cases (q x)) [
    | inl e ↦ rw e (here x e p.0, All-update P Q q f here there xs p.1)
    | inr e ↦ rw e (there x e p.0, All-update P Q q f here there xs p.1)
  ]

  pub any-append : (p : A → Bool) (xs ys : List A) → any p (xs ++ ys) ≡ (any p xs || any p ys)
  any-append p [] ys = refl
  any-append p (x ∷ xs) ys = ground (arith, any-append p xs ys)

  -- A change that a test does not see.
  pub any-update :
      (p q : A → Bool) (f : A → A)
      → ((a : A) → p (f a) ≡ p a)
      → (xs : List A) → any p (update_where q f xs) ≡ any p xs
  any-update p q f h [] = refl
  any-update p q f h (x ∷ xs) = ground (arith, h x, any-update p q f h xs)

  pub any-keep :
      (p q : A → Bool)
      → ((a : A) → p a ≡ true → q a ≡ true)
      → (xs : List A) → any p (keep q xs) ≡ any p xs
  any-keep p q h [] = refl
  any-keep p q h (x ∷ xs) = ground (arith, h x, any-keep p q h xs)

  pub keep-append : (p : A → Bool) (xs ys : List A) → keep p (xs ++ ys) ≡ keep p xs ++ keep p ys
  keep-append p [] ys = refl
  keep-append p (x ∷ xs) ys = elim (Bool-cases (p x)) [
    | inl e ↦ rw e (ap (λ zs. x ∷ zs) (keep-append p xs ys))
    | inr e ↦ rw e (keep-append p xs ys)
  ]

  -- What is found stays found where rows are added at the end.
  pub find-append :
      (p : A → Bool) (xs ys : List A) (a : A) → find p xs ≡ some a → find p (xs ++ ys) ≡ some a
  find-append p [] ys a e = ground arith
  find-append p (x ∷ xs) ys a e = ground (arith, find-append p xs ys a)

  pub find-append_new :
      (p : A → Bool) (xs : List A) (a : A)
      → find p xs ≡ none
      → p a ≡ true
      → find p (xs ++ a ∷ []) ≡ some a
  find-append_new p [] a e h = rw h refl
  find-append_new p (x ∷ xs) a e h = ground (arith, find-append_new p xs a)

  pub find-none : (p : A → Bool) (xs : List A) → any p xs ≡ false → find p xs ≡ none
  find-none p [] e = refl
  find-none p (x ∷ xs) e = ground (arith, find-none p xs)

  pub find-test : (p : A → Bool) (xs : List A) (a : A) → find p xs ≡ some a → p a ≡ true
  find-test p [] a e = ground arith
  find-test p (x ∷ xs) a e = ground (arith, find-test p xs a)

  pub All-always : (P : A → Type 0) → ((a : A) → P a) → (xs : List A) → All P xs
  All-always P h [] = tt
  All-always P h (x ∷ xs) = (h x, All-always P h xs)

  pub All-find :
      (P : A → Type 0) (p : A → Bool) (xs : List A) (a : A) → All P xs → find p xs ≡ some a → P a
  All-find P p [] a h e = ground arith
  All-find P p (x ∷ xs) a h e = elim (Bool-cases (p x)) [
    | inl t ↦ let same : x ≡ a = ground arith in subst P same h.0
    | inr f ↦ All-find P p xs a h.1 (ground arith)
  ]

  pub find-update :
      (p q : A → Bool) (f : A → A)
      → ((a : A) → q a ≡ true → p (f a) ≡ p a)
      → (xs : List A) (a : A) → find p xs ≡ some a
      → find p (update_where q f xs) ≡ some (if q a then f a else a)
  find-update p q f h [] a e = ground arith
  find-update p q f h (x ∷ xs) a e = ground (arith, h x, find-update p q f h xs a)

  pub find-keep :
      (p q : A → Bool)
      → ((a : A) → p a ≡ true → q a ≡ true)
      → (xs : List A) (a : A) → find p xs ≡ some a
      → find p (keep q xs) ≡ some a
  find-keep p q h [] a e = ground arith
  find-keep p q h (x ∷ xs) a e = ground (arith, h x, find-keep p q h xs a)
