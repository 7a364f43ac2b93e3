-- ===== src/Scoring/Laws.antt =====
-- What the ranking mathematics relies on of `f64` arithmetic: facts that hold of IEEE 754 values
-- without NaN, since rounding to nearest is monotone and exact at 0 and 1. `exp` is taken to be
-- monotone between 0 and 1 on the values at most 0.
use agmem.Prelude.{ℕ, ◌*◌, ◌<◌, ◌≤◌, ◌≡◌, true, false}
use agmem.Float.{Float, lt, neg, zero_f, one_f}

pub record FloatLaws (fl : Float) : Type 0 where
  pub ratio_mono :
      (n d m e : ℕ) → 0 < d → 0 < e → n * e ≤ m * d → fl.le (fl.ratio n d) (fl.ratio m e) ≡ true
  pub ratio_pos : (n d : ℕ) → 0 < n → 0 < d → d ≤ 1000 → lt fl (zero_f fl) (fl.ratio n d) ≡ true
  pub ratio_finite : (n d : ℕ) → n ≤ 100000 → 0 < d → fl.finite (fl.ratio n d) ≡ true
  pub finite_between :
      (a x b : fl.F)
      → fl.finite a ≡ true
      → fl.finite b ≡ true
      → fl.le a x ≡ true
      → fl.le x b ≡ true
      → fl.finite x ≡ true
  pub infinity_above : (x : fl.F) → fl.finite x ≡ true → fl.le fl.infinity x ≡ false
  pub neg_infinity_below : (x : fl.F) → fl.finite x ≡ true → fl.le x fl.neg_infinity ≡ false
  -- (x - w) / (b - w) for w ≤ x ≤ b
  pub stretch_nonneg :
      (w x b : fl.F)
      → fl.finite w ≡ true
      → fl.finite b ≡ true
      → fl.le w x ≡ true
      → fl.le x b ≡ true
      → lt fl (zero_f fl) (fl.sub b w) ≡ true
      → fl.le (zero_f fl) (fl.div (fl.sub x w) (fl.sub b w)) ≡ true
  pub stretch_le_one :
      (w x b : fl.F)
      → fl.finite w ≡ true
      → fl.finite b ≡ true
      → fl.le w x ≡ true
      → fl.le x b ≡ true
      → lt fl (zero_f fl) (fl.sub b w) ≡ true
      → fl.le (fl.div (fl.sub x w) (fl.sub b w)) (one_f fl) ≡ true
  pub stretch_mono :
      (w x y b : fl.F)
      → fl.finite w ≡ true
      → fl.finite b ≡ true
      → fl.le w x ≡ true
      → fl.le x y ≡ true
      → fl.le y b ≡ true
      → lt fl (zero_f fl) (fl.sub b w) ≡ true
      → fl.le (fl.div (fl.sub x w) (fl.sub b w)) (fl.div (fl.sub y w) (fl.sub b w)) ≡ true
  pub add_mono :
      (a b c d : fl.F)
      → fl.finite c ≡ true
      → fl.finite d ≡ true
      → fl.le a b ≡ true
      → fl.le c d ≡ true
      → fl.le (fl.add a c) (fl.add b d) ≡ true
  pub neg_anti : (a b : fl.F) → fl.le a b ≡ true → fl.le (neg fl b) (neg fl a) ≡ true
  pub neg_zero_le : fl.le (neg fl (zero_f fl)) (zero_f fl) ≡ true
  pub le_neg_zero : fl.le (zero_f fl) (neg fl (zero_f fl)) ≡ true
  pub mul_mono :
      (a b c : fl.F)
      → lt fl (zero_f fl) c ≡ true
      → fl.finite c ≡ true
      → fl.le a b ≡ true
      → fl.le (fl.mul a c) (fl.mul b c) ≡ true
  pub mul_mono_left :
      (a b c : fl.F)
      → lt fl (zero_f fl) c ≡ true
      → fl.finite c ≡ true
      → fl.le a b ≡ true
      → fl.le (fl.mul c a) (fl.mul c b) ≡ true
  -- A product with a number between 0 and 1 is no larger in size.
  pub mul_finite :
      (c x : fl.F)
      → fl.le (zero_f fl) c ≡ true
      → fl.le c (one_f fl) ≡ true
      → fl.finite x ≡ true
      → fl.finite (fl.mul c x) ≡ true
  pub le_zero_mul :
      (c : fl.F) → fl.finite c ≡ true → fl.le (zero_f fl) (fl.mul (zero_f fl) c) ≡ true
  pub zero_mul : (c : fl.F) → fl.finite c ≡ true → fl.le (fl.mul (zero_f fl) c) (zero_f fl) ≡ true
  pub div_mono :
      (a b c : fl.F)
      → lt fl (zero_f fl) c ≡ true
      → fl.finite c ≡ true
      → fl.le a b ≡ true
      → fl.le (fl.div a c) (fl.div b c) ≡ true
  pub zero_div :
      (c : fl.F) → lt fl (zero_f fl) c ≡ true → fl.le (fl.div (zero_f fl) c) (zero_f fl) ≡ true
  pub le_zero_div :
      (c : fl.F) → lt fl (zero_f fl) c ≡ true → fl.le (zero_f fl) (fl.div (zero_f fl) c) ≡ true
  -- A larger divisor takes what is at most 0 nearer to 0.
  pub div_anti :
      (a c d : fl.F)
      → fl.le a (zero_f fl) ≡ true
      → lt fl (zero_f fl) c ≡ true
      → fl.finite d ≡ true
      → fl.le c d ≡ true
      → fl.le (fl.div a c) (fl.div a d) ≡ true
  pub exp_nonneg : (a : fl.F) → fl.le (zero_f fl) (fl.exp a) ≡ true
  pub exp_le_one : (a : fl.F) → fl.le a (zero_f fl) ≡ true → fl.le (fl.exp a) (one_f fl) ≡ true
  pub exp_mono : (a b : fl.F) → fl.le a b ≡ true → fl.le (fl.exp a) (fl.exp b) ≡ true
  pub one_le_exp : (a : fl.F) → fl.le (zero_f fl) a ≡ true → fl.le (one_f fl) (fl.exp a) ≡ true
