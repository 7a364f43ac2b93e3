-- ===== src/Sort.antt =====
-- Rust's stable `sort_by`, by insertion: `leq a b` says that the comparison of `a` with `b` is not
-- `Greater`. An element goes before the later ones that it equals.
use mathlib.Core.List.Perm
use agmem.Prelude.{
  ◌≡◌, refl, Bool, true, false, List, [], ◌∷◌, Perm, arith, All, All-map, any, ◌||◌, keep_if,
  if◌then◌else◌, Bool-cases, inl, inr,
}

module _ {ℓ} {A : Type ℓ} (leq : A → A → Bool) where
  unfoldable pub insert : A → List A → List A
  insert x [] = x ∷ []
  insert x (y ∷ ys) = if leq x y then x ∷ y ∷ ys else y ∷ insert x ys

  unfoldable pub sort_by : List A → List A
  sort_by [] = []
  sort_by (x ∷ xs) = insert x (sort_by xs)

  -- Each element is ordered with all that stand behind it.
  abbrev pub IsSorted : List A → Type 0
  IsSorted [] = Unit
  IsSorted (x ∷ xs) = All (λ y. leq x y ≡ true) xs × IsSorted xs

  insert-perm : (x : A) (xs : List A) → Perm (insert x xs) (x ∷ xs)
  unfolding insert
  insert-perm x [] = Perm.refl (x ∷ [])
  insert-perm x (y ∷ ys) = elim (Bool-cases (leq x y)) [
    | inl e ↦ rw e (Perm.refl _)
    | inr e ↦ rw e (Perm.trans (Perm.cons y (insert-perm x ys)) (Perm.swap x y ys))
  ]

  pub sort_by-perm : (xs : List A) → Perm (sort_by xs) xs
  unfolding sort_by
  sort_by-perm [] = Perm.nil
  sort_by-perm (x ∷ xs) = Perm.trans (insert-perm x (sort_by xs)) (Perm.cons x (sort_by-perm xs))

  All-insert {κ} : (P : A → Type κ) (x : A) (xs : List A) → P x → All P xs → All P (insert x xs)
  unfolding insert
  All-insert P x [] h k = (h, tt)
  All-insert P x (y ∷ ys) h k = elim (Bool-cases (leq x y)) [
    | inl e ↦ rw e (h, k)
    | inr e ↦ rw e (k.0, All-insert P x ys h k.1)
  ]

  pub All-sort_by {κ} : (P : A → Type κ) (xs : List A) → All P xs → All P (sort_by xs)
  unfolding sort_by
  All-sort_by P [] h = tt
  All-sort_by P (x ∷ xs) h = All-insert P x (sort_by xs) h.0 (All-sort_by P xs h.1)

  any-insert : (p : A → Bool) (x : A) (xs : List A) → any p (insert x xs) ≡ (p x || any p xs)
  unfolding insert
  any-insert p x [] = refl
  any-insert p x (y ∷ ys) = ground (arith, any-insert p x ys)

  pub any-sort_by : (p : A → Bool) (xs : List A) → any p (sort_by xs) ≡ any p xs
  unfolding sort_by
  any-sort_by p [] = refl
  any-sort_by p (x ∷ xs) = ground (arith, any-insert p x (sort_by xs), any-sort_by p xs)

  module _ (total : (a b : A) → leq a b ≡ false → leq b a ≡ true)
      (trans : (a b c : A) → leq a b ≡ true → leq b c ≡ true → leq a c ≡ true) where
    insert-IsSorted : (x : A) (xs : List A) → IsSorted xs → IsSorted (insert x xs)
    unfolding insert
    insert-IsSorted x [] s = (tt, tt)
    insert-IsSorted x (y ∷ ys) s = elim (Bool-cases (leq x y)) [
      | inl e ↦ rw e (
        (e, All-map (λ z. leq y z ≡ true) (λ z. leq x z ≡ true) ys (λ z h. trans x y z e h) s.0),
        s,
      )
      | inr e ↦
          rw e (All-insert (λ z. leq y z ≡ true) x ys (total x y e) s.0, insert-IsSorted x ys s.1)
    ]

    pub sort_by-IsSorted : (xs : List A) → IsSorted (sort_by xs)
    unfolding sort_by
    sort_by-IsSorted [] = tt
    sort_by-IsSorted (x ∷ xs) = insert-IsSorted x (sort_by xs) (sort_by-IsSorted xs)

  -- Elements of a class that the order does not tell apart stay in their order.
  module _ (p : A → Bool) (equal : (a b : A) → p a ≡ true → p b ≡ true → leq a b ≡ true) where
    keep_if-insert : (x : A) (xs : List A) → keep_if p (insert x xs) ≡ keep_if p (x ∷ xs)
    unfolding insert
    keep_if-insert x [] = refl
    keep_if-insert x (y ∷ ys) = ground (arith, keep_if-insert x ys, equal x y)

    pub sort_by-stable : (xs : List A) → keep_if p (sort_by xs) ≡ keep_if p xs
    unfolding sort_by
    sort_by-stable [] = refl
    sort_by-stable (x ∷ xs) = ground (arith, keep_if-insert x (sort_by xs), sort_by-stable xs)
