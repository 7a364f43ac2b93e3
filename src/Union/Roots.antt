-- ===== src/Union/Roots.antt =====
-- The roots of a forest whose parents are never above their children, without the loop of `root` in
-- tools/consolidate.rs.
use agmem.Prelude.{ℕ, zero, suc, ◌≤◌, ◌≡◌, refl, sym, ap, ◌∙◌, arith, ◌==◌, Bool-cases, inl, inr}

-- A parent is never above its child.
abbrev pub Descends : (ℕ → ℕ) → Type 0
Descends p = (i : ℕ) → p i ≤ i

-- The parents' parents, `n` steps up.
unfoldable pub climb : ℕ → (ℕ → ℕ) → ℕ → ℕ
climb zero p i = i
climb (suc n) p i = climb n p (p i)

-- As many steps as the index says are enough.
unfoldable pub root_of : (ℕ → ℕ) → ℕ → ℕ
root_of p i = climb i p i

-- `r` gives each index the root above it.
pub record IsRoots (p r : ℕ → ℕ) : Type 0 where
  pub steps : (i : ℕ) → r (p i) ≡ r i
  pub stops : (i : ℕ) → p i ≡ i → r i ≡ i

climb_still : (n : ℕ) (p : ℕ → ℕ) (i : ℕ) → p i ≡ i → climb n p i ≡ i
unfolding climb
climb_still zero p i h = refl
climb_still (suc n) p i h = ap (climb n p) h ∙ climb_still n p i h

climb_stops : (n : ℕ) (p : ℕ → ℕ) (i : ℕ) → Descends p → i ≤ n → p (climb n p i) ≡ climb n p i
unfolding climb
climb_stops zero p i d h = let low = d i in omega arith
climb_stops (suc n) p i d h = elim (Bool-cases (p i == i)) [
  | inl e ↦
      let same : p i ≡ i = ground arith in
      let still : climb n p (p i) ≡ i = ap (climb n p) same ∙ climb_still n p i same in
      ap p still ∙ same ∙ sym still
  | inr e ↦ climb_stops n p (p i) d (let low = d i in ground arith)
]

climb_keeps : (n : ℕ) (p r : ℕ → ℕ) (i : ℕ) → ((j : ℕ) → r (p j) ≡ r j) → r (climb n p i) ≡ r i
unfolding climb
climb_keeps zero p r i s = refl
climb_keeps (suc n) p r i s = climb_keeps n p r (p i) s ∙ s i

pub root_of-fixed : (p : ℕ → ℕ) (i : ℕ) → Descends p → p (root_of p i) ≡ root_of p i
unfolding root_of
root_of-fixed p i d = climb_stops i p i d (omega arith)

-- There is just one function that gives the roots.
pub roots_unique : (p r : ℕ → ℕ) (i : ℕ) → Descends p → IsRoots p r → root_of p i ≡ r i
unfolding root_of
roots_unique p r i d h =
    sym (h.stops (climb i p i) (climb_stops i p i d (omega arith))) ∙ climb_keeps i p r i h.steps

climb_low : (n : ℕ) (p : ℕ → ℕ) (i : ℕ) → Descends p → climb n p i ≤ i
unfolding climb
climb_low zero p i d = omega arith
climb_low (suc n) p i d = let low = d i in let rest = climb_low n p (p i) d in omega arith

pub root_of-low : (p : ℕ → ℕ) (i : ℕ) → Descends p → root_of p i ≤ i
unfolding root_of
root_of-low p i d = climb_low i p i d

climb_enough :
    (m n : ℕ) (p : ℕ → ℕ) (i : ℕ) → Descends p → i ≤ m → i ≤ n → climb m p i ≡ climb n p i
unfolding climb
climb_enough zero n p i d h k = sym (climb_still n p i (let low = d i in omega arith))
climb_enough (suc m) zero p i d h k = climb_still (suc m) p i (let low = d i in omega arith)
climb_enough (suc m) (suc n) p i d h k = elim (Bool-cases (p i == i)) [
  | inl e ↦
      let same : p i ≡ i = ground arith in
      climb_still (suc m) p i same ∙ sym (climb_still (suc n) p i same)
  | inr e ↦
      climb_enough m n p (p i) d (let low = d i in ground arith) (let low = d i in ground arith)
]

pub root_of-IsRoots : (p : ℕ → ℕ) → Descends p → IsRoots p (root_of p)
unfolding root_of climb
root_of-IsRoots p d = record {
  steps = λ i.
      let low = d i in
      climb_enough (p i) i p (p i) d (omega arith) (omega arith)
      ∙ climb_enough (suc i) i p i d (omega arith) (omega arith);
  stops = λ i h. climb_still i p i h;
}
