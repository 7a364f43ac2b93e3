-- ===== src/Consolidate/Table.antt =====
-- The table of groups in `compare` of tools/consolidate.rs: each index under its class.
use agmem.Prelude.{
  ℕ, ◌<◌, ◌≡◌, refl, sym, ap, subst, ◌∙◌, Bool, true, false, ◌||◌, inl, inr, some, List, [], ◌∷◌,
  ◌++◌, map, length, arith, All, ◌==◌, ==_iff, keep_if, Bool-cases, among, Distinct, append_assoc,
  append-nil,
}
use agmem.Union.Classes.{Forest, class_of, root_exact}
use agmem.Consolidate.{Groups, push, collect}

abbrev pub keys : Groups → List ℕ
keys groups = map (λ (e : ℕ × List ℕ). e.0) groups

pub keep_if-append :
    (p : ℕ → Bool) (xs ys : List ℕ) → keep_if p (xs ++ ys) ≡ keep_if p xs ++ keep_if p ys
keep_if-append p [] ys = refl
keep_if-append p (x ∷ xs) ys = elim (Bool-cases (p x)) [
  | inl e ↦ rw e (ap (◌∷◌ x) (keep_if-append p xs ys))
  | inr e ↦ rw e (keep_if-append p xs ys)
]

module _ (c : ℕ → ℕ) where
  -- The indices of one class.
  abbrev pub of_class : ℕ → List ℕ → List ℕ
  of_class key seen = keep_if (λ j. c j == key) seen

  abbrev pub Exact : List ℕ → ℕ × List ℕ → Type 0
  Exact seen (key, group) = group ≡ of_class key seen

  -- The indices seen so far, each under its class and in order.
  pub record Table (seen : List ℕ) (groups : Groups) : Type 0 where
    pub distinct : Distinct (keys groups)
    pub exact : All (Exact seen) groups
    pub full : (x : ℕ) → among (keys groups) x ≡ false → of_class x seen ≡ []

  one_more :
      (seen : List ℕ) (i x : ℕ) → (c i == x) ≡ false → of_class x (seen ++ i ∷ []) ≡ of_class x seen
  one_more seen i x h =
      keep_if-append (λ j. c j == x) seen (i ∷ []) ∙ rw h (append-nil (of_class x seen))

  one_here :
      (seen : List ℕ) (i x : ℕ)
      → (c i == x) ≡ true
      → of_class x (seen ++ i ∷ []) ≡ of_class x seen ++ i ∷ []
  one_here seen i x h = keep_if-append (λ j. c j == x) seen (i ∷ []) ∙ rw h refl

  among-push :
      (groups : Groups) (key i x : ℕ)
      → among (keys (push groups key i)) x ≡ (among (keys groups) x || key == x)
  unfolding push
  among-push [] key i x = ground arith
  among-push ((k, group) ∷ groups) key i x = elim (Bool-cases (k == key)) [
    | inl e ↦ rw e (ground (arith, (==_iff k key).0 e))
    | inr e ↦ rw e (ground (arith, among-push groups key i x))
  ]

  push-Distinct :
      (groups : Groups) (key i : ℕ) → Distinct (keys groups) → Distinct (keys (push groups key i))
  unfolding push
  push-Distinct [] key i h = (refl, tt)
  push-Distinct ((k, group) ∷ groups) key i h = elim (Bool-cases (k == key)) [
    | inl e ↦ rw e h
    | inr e ↦
        rw e (among-push groups key i k ∙ ground (arith, h.0, e), push-Distinct groups key i h.1)
  ]

  others-Exact :
      (seen : List ℕ) (i : ℕ) (groups : Groups)
      → among (keys groups) (c i) ≡ false
      → All (Exact seen) groups
      → All (Exact (seen ++ i ∷ [])) groups
  others-Exact seen i [] h e = tt
  others-Exact seen i ((k, group) ∷ groups) h e = (
    e.0 ∙ sym (one_more seen i k (ground (arith, h))),
    others-Exact seen i groups (ground (arith, h)) e.1,
  )

  push-Exact :
      (seen : List ℕ) (i : ℕ) (groups : Groups)
      → Distinct (keys groups)
      → All (Exact seen) groups
      → (among (keys groups) (c i) ≡ false → of_class (c i) seen ≡ [])
      → All (Exact (seen ++ i ∷ [])) (push groups (c i) i)
  unfolding push
  push-Exact seen i [] d e f =
      (sym (one_here seen i (c i) (ground arith) ∙ ap (λ xs. xs ++ i ∷ []) (f refl)), tt)
  push-Exact seen i ((k, group) ∷ groups) d e f = elim (Bool-cases (k == c i)) [
    | inl q ↦
        let same : k ≡ c i = (==_iff k (c i)).0 q in
        rw q (
          ap (λ xs. xs ++ i ∷ []) e.0 ∙ sym (one_here seen i k (ground (arith, q))),
          others-Exact seen i groups (ground (arith, d.0, same)) e.1,
        )
    | inr q ↦ rw q (
      e.0 ∙ sym (one_more seen i k (ground (arith, q))),
      push-Exact seen i groups d.1 e.1 (λ out. f (ground (arith, out, q))),
    )
  ]

  push-Table :
      (seen : List ℕ) (i : ℕ) (groups : Groups)
      → Table seen groups
      → Table (seen ++ i ∷ []) (push groups (c i) i)
  push-Table seen i groups t = record {
    distinct = push-Distinct groups (c i) i t.distinct;
    exact = push-Exact seen i groups t.distinct t.exact (t.full (c i));
    full = λ x out.
        let both : (among (keys groups) x || c i == x) ≡ false =
          sym (among-push groups (c i) i x) ∙ out in
        one_more seen i x (ground (arith, both)) ∙ t.full x (ground (arith, both));
  }

  -- The loop over the indices ends, with each of them under its class.
  pub collect-Table :
      (n : ℕ) (is : List ℕ) (parents seen : List ℕ) (groups : Groups)
      → Forest parents
      → length parents ≡ n
      → ((j : ℕ) → class_of parents j ≡ c j)
      → All (λ i. i < n) is
      → Table seen groups
      → (all : Groups) × (collect is parents groups ≡ some all) × Table (seen ++ is) all
  unfolding collect
  collect-Table n [] parents seen groups f l same h t =
      (groups, refl, subst (λ xs. Table xs groups) (sym (append-nil seen)) t)
  collect-Table n (i ∷ is) parents seen groups f l same h t =
      let here = h.0 in
      let (halved, runs, kept) = root_exact parents i f (omega (arith, l, here)) in
      let pushed : Table (seen ++ i ∷ []) (push groups (class_of parents i) i) =
        subst (λ k. Table (seen ++ i ∷ []) (push groups k i)) (sym (same i))
          (push-Table seen i groups t) in
      let (all, collects, table) =
        collect-Table n is halved (seen ++ i ∷ []) (push groups (class_of parents i) i) kept.forest
          (kept.size ∙ l) (λ j. kept.classes j ∙ same j) h.1 pushed in
      (all, rw runs collects, subst (λ xs. Table xs all) (append_assoc seen (i ∷ []) is) table)
