-- ===== src/Float.antt =====
-- What the program uses of `f64`, as an interface: the numbers that are not NaN, with the two signs
-- of zero not told apart, so that `total_cmp`, `partial_cmp` and `<` agree.
use agmem.Prelude.{ℕ, ◌≡◌, Bool, true, false, not, if◌then◌else◌, Bool-cases, inl, inr}

pub record Float : Type 1 where
  pub F : Type 0
  pub le : F → F → Bool
  pub add : F → F → F
  pub sub : F → F → F
  pub mul : F → F → F
  pub div : F → F → F
  -- `n / d`: the literals of the source, and `n as f64` at `d` 1
  pub ratio : ℕ → ℕ → F
  pub infinity : F
  pub neg_infinity : F
  -- at most 2^1000 in size, so that the difference of two such numbers does not overflow
  pub finite : F → Bool
  pub exp : F → F
  pub ln : F → F
  pub le_total : (a b : F) → le a b ≡ false → le b a ≡ true
  pub le_trans : (a b c : F) → le a b ≡ true → le b c ≡ true → le a c ≡ true
  pub le_infinity : (a : F) → le a infinity ≡ true
  pub neg_infinity_le : (a : F) → le neg_infinity a ≡ true

module _ (fl : Float) where
  open fl use {F, le, sub, ratio}

  abbrev pub lt : F → F → Bool
  lt a b = not (le b a)

  abbrev pub zero_f : F
  zero_f = ratio 0 1

  abbrev pub one_f : F
  one_f = ratio 1 1

  abbrev pub neg : F → F
  neg a = sub zero_f a

  abbrev pub min_f : F → F → F
  min_f a b = if le a b then a else b

  abbrev pub max_f : F → F → F
  max_f a b = if le a b then b else a

  abbrev pub clamp : F → F → F → F
  clamp a lo hi = if lt a lo then lo else if lt hi a then hi else a

  pub le_refl : (a : F) → le a a ≡ true
  le_refl a = elim (Bool-cases (le a a)) [ inl e ↦ e | inr e ↦ fl.le_total a a e ]

  -- What lies below `b` lies strictly below what `b` does not reach.
  pub not_le_trans : (g x b : F) → le x b ≡ true → le g b ≡ false → le g x ≡ false
  not_le_trans g x b h e = elim (Bool-cases (le g x)) [
    | inl t ↦ absurd (cc (fl.le_trans g x b t h))
    | inr f ↦ f
  ]
