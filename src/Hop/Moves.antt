-- ===== src/Hop/Moves.antt =====
-- Laws of `Vec::remove`, `Vec::insert` and `position`, as `reserve_tail` of tools/hop.rs uses them.
use mathlib.Core.List.{perm_middle}
use mathlib.Core.List.Perm
use native.Mathlib.Nat.{suc-add}
use agmem.Prelude.{
  ℕ, zero, suc, ◌+◌, ◌≤◌, ◌<◌, ◌≡◌, refl, sym, ap, subst, ◌∙◌, Bool, true, false, none, some, List,
  [], ◌∷◌, ◌++◌, arith, length, take, drop, any, position, get_elem?, Perm, take-append-drop,
  Bool-cases, Option-cases, inl, inr,
}
use agmem.Hop.{remove_at, insert_at}

module _ {ℓ} {T : Type ℓ} where
  pub insert_at-perm : (i : ℕ) (row : T) (rows : List T) → Perm (insert_at i row rows) (row ∷ rows)
  unfolding insert_at
  insert_at-perm i row rows =
      subst (λ all. Perm (take i rows ++ row ∷ drop i rows) (row ∷ all)) (take-append-drop i rows)
        (perm_middle (take i rows) (drop i rows))

  pub remove_at-perm :
      (i : ℕ) (rows : List T) (row : T)
      → get_elem? rows i ≡ some row
      → Perm (row ∷ remove_at i rows) rows
  unfolding remove_at
  remove_at-perm i [] row h = cc
  remove_at-perm zero (x ∷ rows) row h = let e : x ≡ row = cc in rw e (Perm.refl _)
  remove_at-perm (suc i) (x ∷ rows) row h =
      Perm.trans (Perm.swap x row _) (Perm.cons x (remove_at-perm i rows row h))

  pub take-remove_at : (j i : ℕ) (rows : List T) → j ≤ i → take j (remove_at i rows) ≡ take j rows
  unfolding remove_at
  take-remove_at zero i rows h = refl
  take-remove_at (suc j) zero rows h = absurd (omega arith)
  take-remove_at (suc j) (suc i) [] h = refl
  take-remove_at (suc j) (suc i) (x ∷ rows) h = ap (◌∷◌ x) (take-remove_at j i rows (omega arith))

  pub take-insert_at :
      (j : ℕ) (row : T) (rows : List T)
      → j ≤ length rows
      → take (suc j) (insert_at j row rows) ≡ take j rows ++ row ∷ []
  unfolding insert_at
  take-insert_at zero row rows h = refl
  take-insert_at (suc j) row [] h = absurd (omega arith)
  take-insert_at (suc j) row (x ∷ rows) h = ap (◌∷◌ x) (take-insert_at j row rows (omega arith))

  pub length-remove_at :
      (i : ℕ) (rows : List T) → i < length rows → length (remove_at i rows) + 1 ≡ length rows
  unfolding remove_at
  length-remove_at i [] h = absurd (omega arith)
  length-remove_at zero (x ∷ rows) h = omega arith
  length-remove_at (suc i) (x ∷ rows) h = omega (arith, length-remove_at i rows)

  pub position-some :
      (p : T → Bool) (rows : List T) (i : ℕ)
      → position p rows ≡ some i
      → (row : T) × (get_elem? rows i ≡ some row) × (p row ≡ true)
  position-some p [] i h = cc
  position-some p (x ∷ rows) zero h = (
    x,
    refl,
    elim (Bool-cases (p x)) [
      | inl e ↦ e
      | inr e ↦ absurd (elim (Option-cases (position p rows)) [
        | inl n ↦ ground arith
        | inr (j, n) ↦ ground arith
      ])
    ],
  )
  position-some p (x ∷ rows) (suc i) h = elim (Bool-cases (p x)) [
    | inl e ↦ absurd (ground arith)
    | inr e ↦ elim (Option-cases (position p rows)) [
      | inl n ↦ absurd (ground arith)
      | inr (j, n) ↦ let same : j ≡ i = ground arith in position-some p rows i (n ∙ ap some same)
    ]
  ]

  pub position-none : (p : T → Bool) (rows : List T) → position p rows ≡ none → any p rows ≡ false
  position-none p [] h = refl
  position-none p (x ∷ rows) h = ground (arith, position-none p rows)

  pub get_elem?-drop :
      (k i : ℕ) (rows : List T) → get_elem? (drop k rows) i ≡ get_elem? rows (k + i)
  get_elem?-drop zero i rows = ap (get_elem? rows) (omega arith)
  get_elem?-drop (suc k) i [] = refl
  get_elem?-drop (suc k) i (x ∷ rows) =
      get_elem?-drop k i rows ∙ ap (get_elem? (x ∷ rows)) (sym (suc-add k i))

  pub any-append-true :
      (p : T → Bool) (xs : List T) (row : T) → p row ≡ true → any p (xs ++ row ∷ []) ≡ true
  any-append-true p [] row h = rw h
  any-append-true p (x ∷ xs) row h = ground (arith, any-append-true p xs row h)
