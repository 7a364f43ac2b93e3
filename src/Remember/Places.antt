-- ===== src/Remember/Places.antt =====
-- The places of the claims of a write: those that are kept and what is reported of them.
use agmem.Prelude.{
  among, Distinct, range, ℕ, zero, suc, ◌+◌, ◌<◌, ◌≡◌, refl, sym, ap, subst, Bool, true, false, not,
  List, [], ◌∷◌, length, arith, All, Bool-cases, inl, inr, ◌==◌, ==_iff, keep_if,
}
use agmem.Store.{NewMemory}
use agmem.Remember.{Duplicate, Related}
use agmem.Remember.Request.{is_blocked, covered, still_related, unblocked}

among-range : (i k n : ℕ) → i < k → among (range k n) i ≡ false
among-range i k zero h = refl
among-range i k (suc n) h = ground (arith, among-range i (suc k) n (omega arith), ==_iff k i)

among-keep_if :
    (p : ℕ → Bool) (xs : List ℕ) (i : ℕ) → among xs i ≡ false → among (keep_if p xs) i ≡ false
among-keep_if p [] i h = refl
among-keep_if p (x ∷ xs) i h = ground (arith, among-keep_if p xs i (ground (arith, h)), h)

pub keep-Distinct : (p : ℕ → Bool) (xs : List ℕ) → Distinct xs → Distinct (keep_if p xs)
keep-Distinct p [] h = tt
keep-Distinct p (x ∷ xs) h = elim (Bool-cases (p x)) [
  | inl e ↦ rw e (among-keep_if p xs x h.0, keep-Distinct p xs h.1)
  | inr e ↦ rw e (keep-Distinct p xs h.1)
]

pub range-Distinct : (k n : ℕ) → Distinct (range k n)
range-Distinct k zero = tt
range-Distinct k (suc n) = (among-range k (suc k) n (omega arith), range-Distinct (suc k) n)

pub among-kept : (p : ℕ → Bool) (xs : List ℕ) (i : ℕ) → p i ≡ false → among (keep_if p xs) i ≡ false
among-kept p [] i h = refl
among-kept p (x ∷ xs) i h = elim (Bool-cases (x == i)) [
  | inl e ↦
      let same : x ≡ i = (==_iff x i).0 e in
      ground (arith, among-kept p xs i h, subst (λ y. p y ≡ false) (sym same) h)
  | inr e ↦ ground (arith, among-kept p xs i h, e)
]

pub keep_keep :
    (p q : ℕ → Bool) (xs : List ℕ)
    → ((i : ℕ) → p i ≡ false → q i ≡ false)
    → keep_if q (keep_if p xs) ≡ keep_if q xs
keep_keep p q [] h = refl
keep_keep p q (x ∷ xs) h = elim (Bool-cases (p x)) [
  | inl e ↦ elim (Bool-cases (q x)) [
    | inl f ↦ rw (e, f) (ap (◌∷◌ x) (keep_keep p q xs h))
    | inr f ↦ rw (e, f) (keep_keep p q xs h)
  ]
  | inr e ↦ let f : q x ≡ false = h x e in rw (e, f) (keep_keep p q xs h)
]

pub kept-All : (p : ℕ → Bool) (xs : List ℕ) → All (λ i. p i ≡ true) (keep_if p xs)
kept-All p [] = tt
kept-All p (x ∷ xs) = elim (Bool-cases (p x)) [
  | inl e ↦ rw e (e, kept-All p xs)
  | inr e ↦ rw e (kept-All p xs)
]

-- What is not marked is what is sent, from the place `k` on.
pub length-unblocked :
    {F Time : Type 0} (all : List Bool) (k : ℕ) (ms : List (NewMemory F Time)) (bs : List Bool)
    → length bs ≡ length ms
    → ((i : ℕ) → is_blocked all (k + i) ≡ is_blocked bs i)
    → length (unblocked ms bs)
      ≡ length (keep_if (λ i. not (is_blocked all i)) (range k (length ms)))
length-unblocked all k [] bs l at = refl
length-unblocked all k (m ∷ ms) [] l at = absurd (omega arith)
length-unblocked all k (m ∷ ms) (b ∷ bs) l at =
    let here : is_blocked all k ≡ b = subst (λ n. is_blocked all n ≡ b) (omega arith) (at 0) in
    let rest =
      length-unblocked all (suc k) ms bs (omega (arith, l))
        (λ i. subst (λ n. is_blocked all n ≡ is_blocked bs i) (omega arith) (at (suc i))) in
    elim (Bool-cases b) [ inl e ↦ rw (here, e) rest | inr e ↦ rw (here, e) (ap suc rest) ]

pub keep_ext : (p q : ℕ → Bool) (xs : List ℕ) → ((i : ℕ) → p i ≡ q i) → keep_if p xs ≡ keep_if q xs
keep_ext p q [] h = refl
keep_ext p q (x ∷ xs) h = rw (h x, keep_ext p q xs h)

pub kept_related :
    {F : Type 0} (ds : List (Duplicate F)) (rs : List (Related F))
    → All (λ (r : Related F). covered ds r.of ≡ false) (still_related ds rs)
kept_related ds [] = tt
kept_related ds (r ∷ rs) = elim (Bool-cases (covered ds r.of)) [
  | inl e ↦ rw e (kept_related ds rs)
  | inr e ↦ rw e (e, kept_related ds rs)
]
