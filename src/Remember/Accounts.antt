-- ===== src/Remember/Accounts.antt =====
-- The gate's books: tools/remember.rs keeps `blocked` and `duplicates` side by side.
use agmem.Prelude.{
  ℕ, zero, suc, ◌+◌, ◌<◌, ◌≡◌, refl, sym, ◌∙◌, Bool, true, false, ◌||◌, Option, none, some, List,
  [], ◌∷◌, ◌++◌, map, length, get_elem?, set, length-set, length-map, any, arith, All, All-map,
  Bool-cases, inl, inr, ◌==◌,
}
use agmem.Store.{NewMemory, Neighbour}
use agmem.Float.{Float}
use agmem.Dedup.{Thresholds, is_near_duplicate, is_correction_candidate}
use agmem.Remember.{Duplicate}
use agmem.Remember.Gate.{
  GateState, is_gated, gated_from, set_novelty, with_novelty, unmeasured, measured, judge,
  judge_all, gate,
}
use agmem.Remember.Request.{is_blocked, covered}

pub any-append :
    {A : Type 0} (p : A → Bool) (xs ys : List A) → any p (xs ++ ys) ≡ (any p xs || any p ys)
any-append p [] ys = refl
any-append p (x ∷ xs) ys = ground (arith, any-append p xs ys)

pub blocked-set :
    (bs : List Bool) (k i : ℕ)
    → k < length bs
    → is_blocked (set bs k true) i ≡ (is_blocked bs i || k == i)
blocked-set [] k i h = absurd (omega arith)
blocked-set (b ∷ bs) zero zero h = ground arith
blocked-set (b ∷ bs) zero (suc i) h = ground arith
blocked-set (b ∷ bs) (suc k) zero h = ground arith
blocked-set (b ∷ bs) (suc k) (suc i) h = ground (arith, blocked-set bs k i (omega arith))

pub blocked-none : {A : Type 0} (xs : List A) (i : ℕ) → is_blocked (map (λ _. false) xs) i ≡ false
blocked-none [] i = refl
blocked-none (x ∷ xs) zero = refl
blocked-none (x ∷ xs) (suc i) = blocked-none xs i

covered-blocked :
    {F : Type 0} (n : ℕ) (d : Duplicate F) (ds : List (Duplicate F)) (bs : List Bool)
    → d.of < n
    → length bs ≡ n
    → ((i : ℕ) → covered ds i ≡ is_blocked bs i)
    → (i : ℕ) → covered (ds ++ d ∷ []) i ≡ is_blocked (set bs d.of true) i
covered-blocked n d ds bs h l a i = ground (
  arith,
  any-append (λ (e : Duplicate _). e.of == i) ds (d ∷ []),
  blocked-set bs d.of i (omega (arith, h, l)),
  a i,
)

module _ {F Time : Type 0} where
  -- Each claim has its mark, and a claim is marked when a duplicate stands for it.
  abbrev pub Agree : ℕ → GateState F Time → Type 0
  Agree n s =
      (length s.blocked ≡ n)
      × (length s.memories ≡ n)
      × ((i : ℕ) → covered s.duplicates i ≡ is_blocked s.blocked i)

  pub unmeasured-Agree : (ms : List (NewMemory F Time)) → Agree (length ms) (unmeasured ms)
  unmeasured-Agree ms = (length-map ms _, refl, λ i. sym (blocked-none ms i))

  length-with_novelty :
      (ms : List (NewMemory F Time)) (i : ℕ) (v : Option F) (o : Option (NewMemory F Time))
      → length (with_novelty ms i v o) ≡ length ms
  length-with_novelty ms i v none = refl
  length-with_novelty ms i v (some m) = length-set ms i _

  pub gated-lt :
      (k : ℕ) (ms : List (NewMemory F Time)) → All (λ i. i < k + length ms) (gated_from k ms)
  unfolding gated_from
  gated-lt k [] = tt
  gated-lt k (m ∷ ms) =
      let rest =
        All-map (λ i. i < suc k + length ms) (λ i. i < k + suc (length ms)) _
          (λ i h. omega (arith, h)) (gated-lt (suc k) ms) in
      elim (Bool-cases (is_gated m)) [ inl e ↦ rw e (omega arith, rest) | inr e ↦ rw e rest ]

module _ {fl : Float} {Time : Type 0} (bands : Thresholds fl) where
  open fl use {F}

  judge-Agree :
      (n k : ℕ) (nb : Neighbour F) (s : GateState F Time)
      → k < n
      → Agree n s
      → Agree n (judge bands k nb s)
  unfolding judge
  judge-Agree n k nb s h a = elim (Bool-cases (is_near_duplicate fl bands nb.similarity)) [
    | inl near ↦ rw near (
      length-set s.blocked k true ∙ a.0,
      a.1,
      covered-blocked n _ s.duplicates s.blocked h a.0 a.2,
    )
    | inr far ↦ elim (Bool-cases (is_correction_candidate fl bands nb.similarity)) [
      | inl c ↦ rw (far, c) a
      | inr c ↦ rw (far, c) a
    ]
  ]

  judge_all-Agree :
      (n k : ℕ) (neighbours : List (Neighbour F)) (s : GateState F Time)
      → k < n
      → Agree n s
      → Agree n (judge_all bands k neighbours s)
  unfolding judge_all
  judge_all-Agree n k [] s h a = a
  judge_all-Agree n k (nb ∷ neighbours) s h a =
      judge_all-Agree n k neighbours (judge bands k nb s) h (judge-Agree n k nb s h a)

  pub gate-Agree :
      (n : ℕ) (gated : List ℕ) (found : List (List (Neighbour F))) (s : GateState F Time)
      → All (λ k. k < n) gated
      → Agree n s
      → Agree n (gate bands gated found s)
  unfolding gate
  gate-Agree n [] found s h a = a
  gate-Agree n (k ∷ gated) [] s h a = a
  gate-Agree n (k ∷ gated) (neighbours ∷ found) s h a = gate-Agree n gated found _ h.1 (
      judge_all-Agree n k neighbours
        (record s { memories = set_novelty s.memories k (measured fl neighbours) }) h.0
        (
          a.0,
          length-with_novelty s.memories k (measured fl neighbours) (get_elem? s.memories k) ∙ a.1,
          a.2,
        ))
