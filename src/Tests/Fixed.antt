-- ===== src/Tests/Fixed.antt =====
-- Numbers from 0 on in thousandths, with both infinities: an arithmetic to run the cut of
-- tools/abstain.rs and the hop of tools/hop.rs in. Subtraction stops at 0.
use agmem.Prelude.{ℕ, ◌+◌, ◌-◌, ◌*◌, ◌/◌, ◌≡◌, refl, Bool, true, false, arith, leb, ◌&&◌, not}
use agmem.Float.{Float}

pub data Fixed : Type 0 where
  lowest : Fixed
  at : ℕ → Fixed
  highest : Fixed

abbrev le : Fixed → Fixed → Bool
le lowest b = true
le (at m) lowest = false
le (at m) (at n) = leb m n
le (at m) highest = true
le highest lowest = false
le highest (at n) = false
le highest highest = true

abbrev add : Fixed → Fixed → Fixed
add (at m) (at n) = at (m + n)
add lowest b = lowest
add highest b = highest
add (at m) b = b

abbrev sub : Fixed → Fixed → Fixed
sub (at m) (at n) = at (m - n)
sub lowest b = lowest
sub highest b = highest
sub (at m) lowest = highest
sub (at m) highest = at 0

abbrev mul : Fixed → Fixed → Fixed
mul (at m) (at n) = at (m * n / 1000)
mul a b = highest

abbrev div : Fixed → Fixed → Fixed
div (at m) (at n) = at (m * 1000 / n)
div a b = at 0

pub le_total : (a b : Fixed) → le a b ≡ false → le b a ≡ true
le_total lowest b h = absurd (ground arith)
le_total (at m) lowest h = refl
le_total (at m) (at n) h = ground arith
le_total (at m) highest h = absurd (ground arith)
le_total highest lowest h = refl
le_total highest (at n) h = refl
le_total highest highest h = absurd (ground arith)

pub le_trans : (a b c : Fixed) → le a b ≡ true → le b c ≡ true → le a c ≡ true
le_trans lowest b c h k = refl
le_trans (at m) lowest c h k = absurd (ground arith)
le_trans (at m) (at n) lowest h k = k
le_trans (at m) (at n) (at l) h k = ground arith
le_trans (at m) b highest h k = refl
le_trans (at m) highest (at l) h k = absurd (ground arith)
le_trans (at m) highest lowest h k = k
le_trans highest lowest c h k = absurd (ground arith)
le_trans highest (at n) c h k = absurd (ground arith)
le_trans highest highest c h k = k

pub le_highest : (a : Fixed) → le a highest ≡ true
le_highest lowest = refl
le_highest (at m) = refl
le_highest highest = refl

abbrev pub fixed : Float
fixed = record {
  F = Fixed;
  le = le;
  add = add;
  sub = sub;
  mul = mul;
  div = div;
  ratio = λ n d. at (n * 1000 / d);
  infinity = highest;
  neg_infinity = lowest;
  finite = λ a. le (at 0) a && not (le highest a);
  exp = λ a. a;
  ln = λ a. a;
  le_total = le_total;
  le_trans = le_trans;
  le_infinity = le_highest;
  neg_infinity_le = λ a. refl;
}
