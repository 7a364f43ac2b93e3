-- ===== src/Consolidate/Links.antt =====
-- Chains of close pairs: what the classes of `Union` in tools/consolidate.rs stand for.
use agmem.Prelude.{
  ℕ, ◌≡◌, ◌⊎◌, ◌↔◌, refl, sym, ap, ◌∙◌, inl, inr, List, [], ◌∷◌, ◌++◌, arith, Some, Some-append,
  Some-left, Some-right,
}
use agmem.Union.Classes.{merged}

abbrev pub Among : List (ℕ × ℕ) → ℕ → ℕ → Type 0
Among links l r = Some (λ e. e ≡ (l, r)) links

-- A chain of links from one index to another.
pub data Linked (links : List (ℕ × ℕ)) : ℕ → ℕ → Type 0 where
  same : (i : ℕ) → Linked links i i
  forth : (i l r : ℕ) → Linked links i l → Among links l r → Linked links i r
  back : (i l r : ℕ) → Linked links i r → Among links l r → Linked links i l

module _ (links : List (ℕ × ℕ)) where
  Linked-trans : (i j k : ℕ) → Linked links i j → Linked links j k → Linked links i k
  Linked-trans i j k p (same n) = p
  Linked-trans i j k p (forth m l r q a) = forth i l r (Linked-trans i m l p q) a
  Linked-trans i j k p (back m l r q a) = back i l r (Linked-trans i m r p q) a

  Linked-sym : (i j : ℕ) → Linked links i j → Linked links j i
  Linked-sym i j (same n) = same n
  Linked-sym i j (forth m l r q a) = Linked-trans r l m (back r l r (same r) a) (Linked-sym m l q)
  Linked-sym i j (back m l r q a) = Linked-trans l r m (forth l l r (same l) a) (Linked-sym m r q)

  -- What each link keeps, a chain keeps.
  pub Linked-keeps :
      (c : ℕ → ℕ) (i j : ℕ)
      → ((l r : ℕ) → Among links l r → c l ≡ c r)
      → Linked links i j
      → c i ≡ c j
  Linked-keeps c i j h (same n) = refl
  Linked-keeps c i j h (forth m l r q a) = Linked-keeps c m l h q ∙ h l r a
  Linked-keeps c i j h (back m l r q a) = Linked-keeps c m r h q ∙ sym (h l r a)

  Linked-grow : (more : List (ℕ × ℕ)) (i j : ℕ) → Linked links i j → Linked (links ++ more) i j
  Linked-grow more i j (same n) = same n
  Linked-grow more i j (forth m l r q a) =
      forth m l r (Linked-grow more m l q) (Some-left _ links more a)
  Linked-grow more i j (back m l r q a) =
      back m l r (Linked-grow more m r q) (Some-left _ links more a)

  -- Two indices have one class when a chain of the links joins them.
  abbrev pub Represents : (ℕ → ℕ) → Type 0
  Represents c = (i j : ℕ) → (c i ≡ c j) ↔ Linked links i j

Some-one : (l r a b : ℕ) → Among ((l, r) ∷ []) a b → (l ≡ a) × (r ≡ b)
Some-one l r a b (inl e) = (ap (λ p. p.0) e, ap (λ p. p.1) e)
Some-one l r a b (inr h) = elim h [ ]

merged_ends : (a b : ℕ) → merged a b a ≡ merged a b b
merged_ends a b = ground arith

merged_apart :
    (a b x y : ℕ)
    → merged a b x ≡ merged a b y
    → (x ≡ y) ⊎ (((x ≡ a) × (y ≡ b)) ⊎ ((x ≡ b) × (y ≡ a)))
merged_apart a b x y h = ground arith

-- The classes of the two ends of a new link become one.
pub Represents-link :
    (links : List (ℕ × ℕ)) (l r : ℕ) (c d : ℕ → ℕ)
    → Represents links c
    → ((j : ℕ) → d j ≡ merged (c l) (c r) (c j))
    → Represents (links ++ (l, r) ∷ []) d
Represents-link links l r c d rep is_d i j = (to, from)
  where
    all : List (ℕ × ℕ)
    all = links ++ (l, r) ∷ []

    old : (x y : ℕ) → c x ≡ c y → Linked all x y
    old x y e = Linked-grow links ((l, r) ∷ []) x y ((rep x y).0 e)

    link : Among all l r
    link = Some-right _ links ((l, r) ∷ []) (inl refl)

    to : d i ≡ d j → Linked all i j
    to e = elim (merged_apart (c l) (c r) (c i) (c j) (sym (is_d i) ∙ e ∙ is_d j)) [
      | inl one ↦ old i j one
      | inr (inl (at_l, at_r)) ↦
          Linked-trans all i r j (forth i l r (old i l at_l) link) (old r j (sym at_r))
      | inr (inr (at_r, at_l)) ↦
          Linked-trans all i l j (back i l r (old i r at_r) link) (old l j (sym at_l))
    ]

    ends : (x y : ℕ) → Among all x y → d x ≡ d y
    ends x y a = elim (Some-append _ links ((l, r) ∷ []) a) [
      | inl h ↦
          is_d x ∙ ap (merged (c l) (c r)) ((rep x y).1 (forth x x y (same x) h)) ∙ sym (is_d y)
      | inr h ↦
          let (at_x, at_y) = Some-one l r x y h in
          ap d (sym at_x) ∙ is_d l ∙ merged_ends (c l) (c r) ∙ sym (is_d r) ∙ ap d at_y
    ]

    from : Linked all i j → d i ≡ d j
    from p = Linked-keeps all d i j ends p
