-- ===== src/Union/Classes.antt =====
-- What `Union` of tools/consolidate.rs does to the classes: `root` none, `join` merges two.
use agmem.Prelude.{
  ℕ, zero, suc, ◌+◌, ◌≤◌, ◌<◌, ◌≡◌, ◌≢◌, refl, sym, ap, subst, ◌∙◌, Option, none, some, List, [],
  ◌∷◌, arith, ◌==◌, min, max, if◌then◌else◌, Bool-cases, inl, inr, length, get_elem?, set,
  length-set, get_elem?-set_self, get_elem?-set_ne,
}
use agmem.Union.{indices, new, root_from, root, link, join}
use agmem.Union.Roots.{Descends, root_of, roots_unique, root_of-IsRoots, root_of-fixed, root_of-low}

abbrev or_else : ℕ → Option ℕ → ℕ
or_else i none = i
or_else i (some p) = p

-- The parent that stands at an index; an index past the end is its own.
unfoldable pub parent_of : List ℕ → ℕ → ℕ
parent_of parents i = or_else i (get_elem? parents i)

-- No parent is above its child, so the loop of `root` ends.
abbrev pub Forest : List ℕ → Type 0
Forest parents = Descends (parent_of parents)

-- The root of an index's class.
abbrev pub class_of : List ℕ → ℕ → ℕ
class_of parents i = root_of (parent_of parents) i

in_range : (ps : List ℕ) (i : ℕ) → i < length ps → get_elem? ps i ≡ some (parent_of ps i)
unfolding parent_of
in_range ps i h = reads ps i h
  where
    reads :
        (qs : List ℕ) (j : ℕ) → j < length qs → get_elem? qs j ≡ some (or_else i (get_elem? qs j))
    reads [] j k = elim k [ ]
    reads (q ∷ qs) zero k = refl
    reads (q ∷ qs) (suc j) k = reads qs j (omega (arith, k))

pub parent_of-set :
    (ps : List ℕ) (i v j : ℕ)
    → i < length ps
    → parent_of (set ps i v) j ≡ (if i == j then v else parent_of ps j)
unfolding parent_of
parent_of-set ps i v j h = elim (Bool-cases (i == j)) [
  | inl e ↦
      let same : i ≡ j = ground arith in
      rw e (ap (or_else j) (ap (get_elem? (set ps i v)) (sym same) ∙ get_elem?-set_self ps i v h))
  | inr e ↦
      let other : i ≢ j = λ q. absurd (ground (arith, q)) in
      rw e (ap (or_else j) (get_elem?-set_ne ps i j v other))
]

-- A write at `i` that leaves it below its place, and the classes that `r` tells after it.
written :
    (ps : List ℕ) (i v : ℕ) (r : ℕ → ℕ)
    → Forest ps
    → i < length ps
    → v ≤ i
    → r v ≡ r i
    → (v ≡ i → r i ≡ i)
    → ((j : ℕ) → i ≢ j → r (parent_of ps j) ≡ r j)
    → ((j : ℕ) → i ≢ j → parent_of ps j ≡ j → r j ≡ j)
    → Forest (set ps i v) × ((j : ℕ) → class_of (set ps i v) j ≡ r j)
written ps i v r f h low step stop steps stops =
    let forest : Forest (set ps i v) =
      λ j. let below = f j in ground (arith, parent_of-set ps i v j h, below, low) in
    (
      forest,
      λ j. roots_unique (parent_of (set ps i v)) r j forest (record {
        steps = λ k. elim (Bool-cases (i == k)) [
          | inl e ↦
              let same : i ≡ k = ground arith in
              ap r (parent_of-set ps i v k h ∙ ground arith) ∙ step ∙ ap r same
          | inr e ↦
              ap r (parent_of-set ps i v k h ∙ ground arith)
              ∙ steps k (λ q. absurd (ground (arith, q)))
        ];
        stops = λ k at. elim (Bool-cases (i == k)) [
          | inl e ↦
              let same : i ≡ k = ground arith in
              ap r (sym same) ∙ stop (ground (arith, parent_of-set ps i v k h, at)) ∙ same
          | inr e ↦
              stops k (λ q. absurd (ground (arith, q)))
                (ground (arith, parent_of-set ps i v k h, at))
        ];
      }),
    )

-- Path halving: the write of the grandparent keeps the forest and every class.
pub record Keeps (ps qs : List ℕ) : Type 0 where
  pub forest : Forest qs
  pub size : length qs ≡ length ps
  pub classes : (j : ℕ) → class_of qs j ≡ class_of ps j

halve-Keeps :
    (ps : List ℕ) (i : ℕ)
    → Forest ps
    → i < length ps
    → Keeps ps (set ps i (parent_of ps (parent_of ps i)))
halve-Keeps ps i f h =
    let p = parent_of ps in
    let r = root_of-IsRoots p f in
    let low = f i in
    let lower = f (p i) in
    let (forest, classes) =
      written ps i (p (p i)) (root_of p) f h (omega arith) (r.steps (p i) ∙ r.steps i)
        (λ e. r.stops i (omega (arith, e))) (λ j other. r.steps j) (λ j other. r.stops j) in
    record { forest = forest; size = length-set ps i (p (p i)); classes = classes }

root_from_lem :
    (fuel : ℕ) (ps : List ℕ) (i : ℕ)
    → Forest ps
    → i < length ps
    → i < fuel
    → (qs : List ℕ) × (root_from fuel ps i ≡ some (qs, class_of ps i)) × Keeps ps qs
unfolding root_from
root_from_lem zero ps i f h k = absurd (omega (arith, k))
root_from_lem (suc fuel) ps i f h k =
    let p = parent_of ps in
    let low = f i in
    let lower = f (p i) in
    let r = root_of-IsRoots p f in
    elim (Bool-cases (p i == i)) [
      | inl e ↦
          let same : p i ≡ i = ground arith in
          (
            ps,
            rw (root_from, in_range ps i h, e) (ap (λ c. some (ps, c)) (sym (r.stops i same))),
            record { forest = f; size = refl; classes = λ j. refl },
          )
      | inr e ↦
          let kept = halve-Keeps ps i f h in
          let (qs, runs, keeps) =
            root_from_lem fuel (set ps i (p (p i))) (p (p i)) kept.forest (omega (arith, kept.size))
              (ground arith) in
          let inside : p i < length ps = omega arith in
          (
            qs,
            rw (root_from, in_range ps i h, e, in_range ps (p i) inside)
                (runs
                  ∙ ap (λ c. some (qs, c)) (kept.classes (p (p i)) ∙ r.steps (p i) ∙ r.steps i)),
            record {
              forest = keeps.forest;
              size = keeps.size ∙ kept.size;
              classes = λ j. keeps.classes j ∙ kept.classes j;
            },
          )
    ]

-- In a forest, `root` of an index in range ends and answers the root of the index's class, and the
-- forest it leaves has the same length and the same root for every index.
pub root_exact :
    (ps : List ℕ) (i : ℕ)
    → Forest ps
    → i < length ps
    → (qs : List ℕ) × (root ps i ≡ some (qs, class_of ps i)) × Keeps ps qs
unfolding root
root_exact ps i f h = root_from_lem (suc i) ps i f h (omega arith)

-- The root of `j` once the classes of the roots `a` and `b` are one.
abbrev pub merged : ℕ → ℕ → ℕ → ℕ
merged a b c = if c == max a b then min a b else c

class_of-class_of : (ps : List ℕ) (i : ℕ) → Forest ps → class_of ps (class_of ps i) ≡ class_of ps i
class_of-class_of ps i f =
    let r = root_of-IsRoots (parent_of ps) f in
    r.stops (class_of ps i) (root_of-fixed (parent_of ps) i f)

length-link : (ps : List ℕ) (a b : ℕ) → length (link ps a b) ≡ length ps
length-link ps a b = elim (Bool-cases (a == b)) [
  | inl e ↦ rw e refl
  | inr e ↦ rw e (length-set ps (max a b) (min a b))
]

link_merges :
    (ps : List ℕ) (a b : ℕ)
    → Forest ps
    → a < length ps
    → b < length ps
    → class_of ps a ≡ a
    → class_of ps b ≡ b
    → Forest (link ps a b) × ((j : ℕ) → class_of (link ps a b) j ≡ merged a b (class_of ps j))
link_merges ps a b f ha hb ra rb = elim (Bool-cases (a == b)) [
  | inl e ↦ rw e (f, λ j. ground arith)
  | inr e ↦
      let r = root_of-IsRoots (parent_of ps) f in
      let c = class_of ps in
      let hi = max a b in
      let lo = min a b in
      let top : c hi ≡ hi = ground (arith, ra, rb) in
      let bottom : c lo ≡ lo = ground (arith, ra, rb) in
      rw e (
        written ps hi lo (λ j. merged a b (c j)) f (ground arith) (ground arith)
          (ground (arith, top, bottom)) (λ q. absurd (ground (arith, q)))
          (λ j other. ap (merged a b) (r.steps j))
          (λ j other at. ground (arith, r.stops j at, other)))
]

-- In a forest, `join` of two indices in range ends. It leaves a forest of the same length, in which
-- the indices whose root was the higher of the two roots have the lower one, and all others the
-- root they had.
pub join_merges :
    (ps : List ℕ) (left right : ℕ)
    → Forest ps
    → left < length ps
    → right < length ps
    → (qs : List ℕ) × (join ps left right ≡ some qs)
      × (length qs ≡ length ps)
      × Forest qs
      × ((j : ℕ) → class_of qs j ≡ merged (class_of ps left) (class_of ps right) (class_of ps j))
unfolding join
join_merges ps left right f hl hr =
    let (ps1, runs1, k1) = root_exact ps left f hl in
    let (ps2, runs2, k2) = root_exact ps1 right k1.forest (omega (arith, k1.size)) in
    let a = class_of ps left in
    let b = class_of ps right in
    let same : (j : ℕ) → class_of ps2 j ≡ class_of ps j = λ j. k2.classes j ∙ k1.classes j in
    let low_a = root_of-low (parent_of ps) left f in
    let low_b = root_of-low (parent_of ps) right f in
    let (forest, classes) =
      link_merges ps2 a b k2.forest (omega (arith, k1.size, k2.size, low_a))
        (omega (arith, k1.size, k2.size, low_b)) (same a ∙ class_of-class_of ps left f)
        (same b ∙ class_of-class_of ps right f) in
    (
      link ps2 a b,
      rw (runs1, runs2) (ap (λ c. some (link ps2 a c)) (k1.classes right)),
      length-link ps2 a b ∙ k2.size ∙ k1.size,
      forest,
      λ j. classes j ∙ ap (merged a b) (same j),
    )

parent_of-indices :
    (first size i : ℕ) → or_else (first + i) (get_elem? (indices first size) i) ≡ first + i
unfolding indices
parent_of-indices first zero i = refl
parent_of-indices first (suc size) zero = omega arith
parent_of-indices first (suc size) (suc i) =
    let there : suc first + i ≡ first + suc i = omega arith in
    ap (λ n. or_else n (get_elem? (indices (suc first) size) i)) (sym there)
    ∙ parent_of-indices (suc first) size i
    ∙ there

-- At the start each index is its own root.
pub new_lem : (size : ℕ) → Forest (new size) × ((j : ℕ) → class_of (new size) j ≡ j)
unfolding parent_of
new_lem size =
    let own : (i : ℕ) → parent_of (new size) i ≡ i = λ i.
      let z : 0 + i ≡ i = omega arith in
      subst (λ n. or_else n (get_elem? (indices 0 size) i) ≡ n) z (parent_of-indices 0 size i) in
    let forest : Forest (new size) = λ i. let e = own i in omega arith in
    (
      forest,
      λ j.
          roots_unique (parent_of (new size)) (λ i. i) j forest
            (record { steps = own; stops = λ i e. refl }),
    )
