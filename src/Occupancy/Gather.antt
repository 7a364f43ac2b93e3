-- ===== src/Occupancy/Gather.antt =====
-- Moving rows out of a vector by an order of indices: the end of `apply` in
-- crates/agmem-server/src/tools/occupancy.rs, and what it gives on a list of distinct indices.
use agmem.Prelude.{
  ℕ, ◌≡◌, ◌≢◌, refl, sym, ap₂, ◌∙◌, Option, none, some, List, [], ◌∷◌, ◌++◌, map, get_elem?, set,
  All, get_elem?-set_ne, get_elem?-map,
}

module _ {ℓ} {T : Type ℓ} where
  abbrev consed : T → Option (List T) → Option (List T)
  consed row none = none
  consed row (some rest) = some (row ∷ rest)

  -- `order.map(|index| slots[index].take().expect(…))`: `none` is a panic, by an index out of range
  -- or a slot that was taken before.
  unfoldable pub gather : List (Option T) → List ℕ → Option (List T)
  gather slots [] = some []
  gather slots (index ∷ order) = elim (get_elem? slots index) [
    | some (some row) ↦ consed row (gather (set slots index none) order)
    | _ ↦ none
  ]

  -- The rows that stand at the indices, one for each, in their order.
  abbrev pub Reads : List T → List ℕ → List T → Type ℓ
  Reads rows is rs = map (get_elem? rows) is ≡ map some rs

-- No index stands twice.
abbrev pub Distinct : List ℕ → Type 0
Distinct [] = Unit
Distinct (i ∷ is) = All (λ j. i ≢ j) is × Distinct is

pub Distinct-middle :
    (i : ℕ) (is js : List ℕ)
    → All (λ j. i ≢ j) (is ++ js)
    → Distinct (is ++ js)
    → Distinct (is ++ i ∷ js)
Distinct-middle i [] js h d = (h, d)
Distinct-middle i (j ∷ is) js h d =
    (All-middle is js (λ e. h.0 (sym e)) d.0, Distinct-middle i is js h.1 d.1)
  where
    All-middle :
        (xs ys : List ℕ) → j ≢ i → All (λ x. j ≢ x) (xs ++ ys) → All (λ x. j ≢ x) (xs ++ i ∷ ys)
    All-middle [] ys n a = (n, a)
    All-middle (x ∷ xs) ys n a = (a.0, All-middle xs ys n a.1)

module _ {ℓ} {T : Type ℓ} where
  -- A write at one index does not show at the others.
  map-get_elem?-set :
      (slots : List T) (i : ℕ) (v : T) (is : List ℕ)
      → All (λ j. i ≢ j) is
      → map (get_elem? (set slots i v)) is ≡ map (get_elem? slots) is
  map-get_elem?-set slots i v [] h = refl
  map-get_elem?-set slots i v (j ∷ is) h =
      ap₂ ◌∷◌ (get_elem?-set_ne slots i j v h.0) (map-get_elem?-set slots i v is h.1)

module _ {ℓ} {T : Type ℓ} where
  gather-slots :
      (slots : List (Option T)) (is : List ℕ) (rs : List T)
      → Distinct is
      → map (get_elem? slots) is ≡ map (λ r. some (some r)) rs
      → gather slots is ≡ some rs
  unfolding gather
  gather-slots slots [] [] d h = refl
  gather-slots slots [] (r ∷ rs) d h = cc
  gather-slots slots (i ∷ is) [] d h = cc
  gather-slots slots (i ∷ is) (r ∷ rs) d h =
      let tail : map (get_elem? slots) is ≡ map (λ r. some (some r)) rs = cc in
      let head : get_elem? slots i ≡ some (some r) = cc in
      let rest : gather (set slots i none) is ≡ some rs =
        gather-slots (set slots i none) is rs d.1 (map-get_elem?-set slots i none is d.0 ∙ tail) in
      rw (head, gather) (rw rest)

  map-get_elem?-some :
      (rows : List T) (is : List ℕ) (rs : List T)
      → Reads rows is rs
      → map (get_elem? (map some rows)) is ≡ map (λ r. some (some r)) rs
  map-get_elem?-some rows [] [] h = refl
  map-get_elem?-some rows [] (r ∷ rs) h = cc
  map-get_elem?-some rows (i ∷ is) [] h = cc
  map-get_elem?-some rows (i ∷ is) (r ∷ rs) h =
      ap₂ ◌∷◌ (get_elem?-map some rows i (cc)) (map-get_elem?-some rows is rs (cc))

  -- At distinct indices nothing panics, and the rows come out in the order of the indices.
  pub gather-Reads :
      (rows : List T) (is : List ℕ) (rs : List T)
      → Distinct is
      → Reads rows is rs
      → gather (map some rows) is ≡ some rs
  gather-Reads rows is rs d h =
      gather-slots (map some rows) is rs d (map-get_elem?-some rows is rs h)
