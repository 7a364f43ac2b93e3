-- ===== src/Tests/Coarse.antt =====
-- An arithmetic of signs and infinities, in which every law of Scoring/Laws is decided by trying all
-- values: it shows that the laws hold together.
use agmem.Prelude.{
  ℕ, zero, suc, ◌*◌, ◌<◌, ◌≤◌, ◌≡◌, refl, Bool, true, false, not, ◌&&◌, arith, if◌then◌else◌, leb,
  ltb,
}
use agmem.Float.{Float}
use agmem.Scoring.{Clock}
use agmem.Scoring.Laws.{FloatLaws}

pub data Coarse : Type 0 where
  below_all : Coarse
  minus : Coarse
  nothing : Coarse
  plus : Coarse
  above_all : Coarse

abbrev level : Coarse → ℕ
level below_all = 0
level minus = 1
level nothing = 2
level plus = 3
level above_all = 4

abbrev le : Coarse → Coarse → Bool
le a b = leb (level a) (level b)

abbrev flip : Coarse → Coarse
flip below_all = above_all
flip minus = plus
flip nothing = nothing
flip plus = minus
flip above_all = below_all

abbrev add : Coarse → Coarse → Coarse
add below_all b = below_all
add above_all b = above_all
add nothing b = b
add a nothing = a
add a below_all = below_all
add a above_all = above_all
add minus minus = minus
add minus plus = nothing
add plus minus = nothing
add plus plus = plus

abbrev mul : Coarse → Coarse → Coarse
mul nothing b = nothing
mul a nothing = nothing
mul plus b = b
mul minus b = flip b
mul above_all plus = above_all
mul above_all minus = below_all
mul above_all above_all = above_all
mul above_all below_all = below_all
mul below_all plus = below_all
mul below_all minus = above_all
mul below_all above_all = below_all
mul below_all below_all = above_all

abbrev inverse : Coarse → Coarse
inverse above_all = nothing
inverse below_all = nothing
inverse a = a

abbrev ratio : ℕ → ℕ → Coarse
ratio zero d = nothing
ratio (suc n) d = plus

abbrev finite : Coarse → Bool
finite below_all = false
finite above_all = false
finite a = true

-- `exp` of a negative number is rounded down to 0.
abbrev exp : Coarse → Coarse
exp below_all = nothing
exp minus = nothing
exp nothing = plus
exp plus = plus
exp above_all = above_all

abbrev every : (Coarse → Bool) → Bool
every p = p below_all && p minus && p nothing && p plus && p above_all

every-at : (p : Coarse → Bool) → every p ≡ true → (a : Coarse) → p a ≡ true
every-at p h below_all = ground arith
every-at p h minus = ground arith
every-at p h nothing = ground arith
every-at p h plus = ground arith
every-at p h above_all = ground arith

every_pair :
    (p : Coarse → Coarse → Bool) → every (λ a. every (p a)) ≡ true → (a b : Coarse) → p a b ≡ true
every_pair p h a b = every-at (p a) (every-at (λ x. every (p x)) h a) b

every_triple :
    (p : Coarse → Coarse → Coarse → Bool)
    → every (λ a. every (λ b. every (p a b))) ≡ true
    → (a b c : Coarse) → p a b c ≡ true
every_triple p h a b c = every-at (p a b) (every_pair (λ x y. every (p x y)) h a b) c

abbrev implies : Bool → Bool → Bool
implies true b = b
implies false b = true

implies_lem : (a b : Bool) → implies a b ≡ true → a ≡ true → b ≡ true
implies_lem true b h k = h
implies_lem false b h k = absurd (ground arith)

pub le_total : (a b : Coarse) → le a b ≡ false → le b a ≡ true
le_total a b h =
    implies_lem (not (le a b)) (le b a)
      (every_pair (λ x y. implies (not (le x y)) (le y x)) refl a b) (ground arith)

pub le_trans : (a b c : Coarse) → le a b ≡ true → le b c ≡ true → le a c ≡ true
le_trans a b c h k =
    implies_lem (le b c) (le a c)
      (implies_lem (le a b) (implies (le b c) (le a c))
        (every_triple (λ x y z. implies (le x y) (implies (le y z) (le x z))) refl a b c) h)
      k

pub le_infinity : (a : Coarse) → le a above_all ≡ true
le_infinity = every-at (λ a. le a above_all) refl

pub neg_infinity_le : (a : Coarse) → le below_all a ≡ true
neg_infinity_le = every-at (λ a. le below_all a) refl

abbrev pub coarse : Float
coarse = record {
  F = Coarse;
  le = le;
  add = add;
  sub = λ a b. add a (flip b);
  mul = mul;
  div = λ a b. mul a (inverse b);
  ratio = ratio;
  infinity = above_all;
  neg_infinity = below_all;
  finite = finite;
  exp = exp;
  ln = λ a. minus;
  le_total = le_total;
  le_trans = le_trans;
  le_infinity = le_infinity;
  neg_infinity_le = neg_infinity_le;
}

abbrev less : Coarse → Coarse → Bool
less a b = not (le b a)

-- A law on three values or on four, read off its table.
law_1 :
    (p q : Coarse → Coarse → Coarse → Bool)
    → every (λ a. every (λ b. every (λ c. implies (p a b c) (q a b c)))) ≡ true
    → (a b c : Coarse) → p a b c ≡ true
    → q a b c ≡ true
law_1 p q h a b c =
    implies_lem (p a b c) (q a b c) (every_triple (λ x y z. implies (p x y z) (q x y z)) h a b c)

law_2 :
    (p q : Coarse → Coarse → Coarse → Coarse → Bool)
    → every (λ a. every (λ b. every (λ c. every (λ d. implies (p a b c d) (q a b c d))))) ≡ true
    → (a b c d : Coarse) → p a b c d ≡ true
    → q a b c d ≡ true
law_2 p q h a b c d = implies_lem (p a b c d) (q a b c d) (
    every_triple (λ x y z. implies (p a x y z) (q a x y z))
      (every-at (λ w. every (λ x. every (λ y. every (λ z. implies (p w x y z) (q w x y z))))) h a) b
      c d)

not-true : (b : Bool) → not b ≡ true → b ≡ false
not-true b h = ground arith

ratio_mono : (n d m e : ℕ) → 0 < d → 0 < e → n * e ≤ m * d → le (ratio n d) (ratio m e) ≡ true
ratio_mono zero d zero e h k l = refl
ratio_mono zero d (suc m) e h k l = refl
ratio_mono (suc n) d (suc m) e h k l = refl
ratio_mono (suc n) d zero (suc e) h k l = absurd (ground arith)
ratio_mono (suc n) d zero zero h k l = absurd (omega arith)

ratio_pos : (n d : ℕ) → 0 < n → 0 < d → d ≤ 1000 → less nothing (ratio n d) ≡ true
ratio_pos zero d h k l = absurd (omega arith)
ratio_pos (suc n) d h k l = refl

ratio_finite : (n d : ℕ) → n ≤ 100000 → 0 < d → finite (ratio n d) ≡ true
ratio_finite zero d h k = refl
ratio_finite (suc n) d h k = refl

abbrev stretched : Coarse → Coarse → Coarse → Bool
stretched w x b = finite w && finite b && le w x && le x b && less nothing (add b (flip w))

stretched_lem :
    (w x b : Coarse)
    → finite w ≡ true
    → finite b ≡ true
    → le w x ≡ true
    → le x b ≡ true
    → less nothing (add b (flip w)) ≡ true
    → stretched w x b ≡ true
stretched_lem w x b h i j k l = ground (arith, h, i, j, k, l)

abbrev stretch : Coarse → Coarse → Coarse → Coarse
stretch w x b = mul (add x (flip w)) (inverse (add b (flip w)))

pub coarse_laws : FloatLaws coarse
coarse_laws = record {
  ratio_mono = ratio_mono;
  ratio_pos = ratio_pos;
  ratio_finite = ratio_finite;
  finite_between = λ a x b h i j k.
      law_1 (λ a x b. finite a && finite b && le a x && le x b) (λ a x b. finite x) refl a x b
        (ground (arith, h, i, j, k));
  infinity_above = λ x h.
      not-true (le above_all x)
        (law_1 (λ a b c. finite a) (λ a b c. not (le above_all a)) refl x x x h);
  neg_infinity_below = λ x h.
      not-true (le x below_all)
        (law_1 (λ a b c. finite a) (λ a b c. not (le a below_all)) refl x x x h);
  stretch_nonneg = λ w x b h i j k l.
      law_1 stretched (λ w x b. le nothing (stretch w x b)) refl w x b
        (stretched_lem w x b h i j k l);
  stretch_le_one = λ w x b h i j k l.
      law_1 stretched (λ w x b. le (stretch w x b) plus) refl w x b (stretched_lem w x b h i j k l);
  stretch_mono = λ w x y b h i j k l m.
      law_2
        (λ w x y b.
          finite w && finite b && le w x && le x y && le y b && less nothing (add b (flip w)))
        (λ w x y b. le (stretch w x b) (stretch w y b)) refl w x y b
        (ground (arith, h, i, j, k, l, m));
  add_mono = λ a b c d h i j k.
      law_2 (λ a b c d. finite c && finite d && le a b && le c d)
        (λ a b c d. le (add a c) (add b d)) refl a b c d (ground (arith, h, i, j, k));
  neg_anti = λ a b h. law_1 (λ a b c. le a b) (λ a b c. le (flip b) (flip a)) refl a b nothing h;
  neg_zero_le = refl;
  le_neg_zero = refl;
  mul_mono = λ a b c h i j.
      law_1 (λ a b c. less nothing c && finite c && le a b) (λ a b c. le (mul a c) (mul b c)) refl a
        b c (ground (arith, h, i, j));
  mul_mono_left = λ a b c h i j.
      law_1 (λ a b c. less nothing c && finite c && le a b) (λ a b c. le (mul c a) (mul c b)) refl a
        b c (ground (arith, h, i, j));
  mul_finite = λ c x h i j.
      law_1 (λ c x b. le nothing c && le c plus && finite x) (λ c x b. finite (mul c x)) refl c x
        nothing (ground (arith, h, i, j));
  le_zero_mul = λ c h. refl;
  zero_mul = λ c h. refl;
  div_mono = λ a b c h i j.
      law_1 (λ a b c. less nothing c && finite c && le a b)
        (λ a b c. le (mul a (inverse c)) (mul b (inverse c))) refl a b c (ground (arith, h, i, j));
  zero_div = λ c h. refl;
  le_zero_div = λ c h. refl;
  div_anti = λ a c d h i j k.
      law_1 (λ a c d. le a nothing && less nothing c && finite d && le c d)
        (λ a c d. le (mul a (inverse c)) (mul a (inverse d))) refl a c d
        (ground (arith, h, i, j, k));
  exp_nonneg = every-at (λ a. le nothing (exp a)) refl;
  exp_le_one =
      λ a h. law_1 (λ a b c. le a nothing) (λ a b c. le (exp a) plus) refl a nothing nothing h;
  exp_mono = λ a b h. law_1 (λ a b c. le a b) (λ a b c. le (exp a) (exp b)) refl a b nothing h;
  one_le_exp =
      λ a h. law_1 (λ a b c. le nothing a) (λ a b c. le plus (exp a)) refl a nothing nothing h;
}

-- Stamps that are numbers, with an hour between two of them.
abbrev pub ticks : Clock Coarse
ticks = record {
  Time = ℕ;
  before = ltb;
  seconds_since = λ later earlier.
      if ltb earlier later then plus else if ltb later earlier then minus else nothing;
}

-- `ticks` counts no positive span back in time.
pub back : (a b : ℕ) → ltb a b ≡ false → le (ticks.seconds_since b a) nothing ≡ true
back a b h = ground arith
