-- ===== src/Remember/Held.antt =====
-- Which claims the gate of tools/remember.rs holds back.
use agmem.Prelude.{
  ℕ, zero, suc, ◌+◌, ◌<◌, ◌≤◌, ◌≡◌, refl, ap, subst, ◌∙◌, Bool, true, false, ◌||◌, ◌&&◌, Option,
  none, some, List, [], ◌∷◌, map, length, get_elem?, length-set, length-map, any, arith, Bool-cases,
  inl, inr, ◌==◌, ==_iff, is_some,
}
use agmem.Float.{Float}
use agmem.Store.{NewMemory, Neighbour}
use agmem.Dedup.{Thresholds, is_near_duplicate, is_correction_candidate}
use agmem.Remember.Validate.{no_texts}
use agmem.Remember.Gate.{
  GateState, is_gated, gated_from, vector_at, probes, set_novelty, unmeasured, measured, judge,
  judge_all, gate,
}
use agmem.Remember.Accounts.{blocked-set, blocked-none}
use agmem.Remember.Request.{is_blocked}

abbrev pub is_near : {fl : Float} → Thresholds fl → List (Neighbour fl.F) → Bool
is_near {fl = fl} bands neighbours =
    any (λ (n : Neighbour _). is_near_duplicate fl bands n.similarity) neighbours

not_measured :
    {A : Type 0} (f : A → Bool) (b : Bool) (o : Option A)
    → (b && is_some o) ≡ false
    → (b && elim o [ none ↦ false | some v ↦ f v ]) ≡ false
not_measured f b none h = ground arith
not_measured f b (some v) h = ground (arith, h)

has_vector :
    {A : Type 0} (b : Bool) (o : Option A)
    → (b && is_some o) ≡ true
    → (b ≡ true) × (v : A) × (o ≡ some v)
has_vector b none h = absurd (ground (arith, h))
has_vector b (some v) h = (ground (arith, h), v, refl)

module _ {F Time : Type 0} where
  gated_step :
      (k : ℕ) (m : NewMemory F Time) (ms : List (NewMemory F Time))
      → is_gated m ≡ true
      → gated_from k (m ∷ ms) ≡ k ∷ gated_from (suc k) ms
  unfolding gated_from
  gated_step k m ms h = rw h refl

  ungated_step :
      (k : ℕ) (m : NewMemory F Time) (ms : List (NewMemory F Time))
      → is_gated m ≡ false
      → gated_from k (m ∷ ms) ≡ gated_from (suc k) ms
  unfolding gated_from
  ungated_step k m ms h = rw h refl

  vector_of :
      (all : List (NewMemory F Time)) (k : ℕ) (m : NewMemory F Time)
      → get_elem? all k ≡ some m
      → vector_at all k ≡ m.embedding
  vector_of all k m h = rw (h, vector_at) refl

  probes_step :
      (all : List (NewMemory F Time)) (k : ℕ) (gated : List ℕ) (v : List F)
      → vector_at all k ≡ some v
      → probes all (k ∷ gated) ≡ v ∷ probes all gated
  unfolding probes
  probes_step all k gated v h = rw (h, probes) refl

module _ {fl : Float} {Time : Type 0} (bands : Thresholds fl) where
  open fl use {F}

  -- The marks after a claim's neighbours: `t` marks the claim at `k` if one of them is near.
  abbrev Marked : ℕ → List (Neighbour F) → GateState F Time → GateState F Time → Type 0
  Marked k neighbours s t =
      (length t.blocked ≡ length s.blocked)
      × ((i : ℕ)
          → is_blocked t.blocked i
            ≡ (is_blocked s.blocked i || (k == i && is_near bands neighbours)))

  judge-Marked :
      (k : ℕ) (n : Neighbour F) (s : GateState F Time)
      → k < length s.blocked
      → Marked k (n ∷ []) s (judge bands k n s)
  unfolding judge
  judge-Marked k n s h = elim (Bool-cases (is_near_duplicate fl bands n.similarity)) [
    | inl near ↦
        rw near (length-set s.blocked k true, λ i. ground (arith, blocked-set s.blocked k i h))
    | inr far ↦ elim (Bool-cases (is_correction_candidate fl bands n.similarity)) [
      | inl c ↦ rw (far, c) (refl, λ i. ground arith)
      | inr c ↦ rw (far, c) (refl, λ i. ground arith)
    ]
  ]

  judge_all-Marked :
      (k : ℕ) (neighbours : List (Neighbour F)) (s : GateState F Time)
      → k < length s.blocked
      → Marked k neighbours s (judge_all bands k neighbours s)
  unfolding judge_all
  judge_all-Marked k [] s h = (refl, λ i. ground arith)
  judge_all-Marked k (n ∷ neighbours) s h =
      let (l, one) = judge-Marked k n s h in
      let (l', rest) = judge_all-Marked k neighbours (judge bands k n s) (omega (arith, l, h)) in
      (l' ∙ l, λ i. ground (arith, one i, rest i))

  module _ (near_to : List F → List (Neighbour F)) where
    -- A claim that names no predecessor and has a near duplicate next to its vector.
    abbrev pub restates : NewMemory F Time → Bool
    restates m =
        no_texts m.supersedes
        && elim m.embedding [ none ↦ false | some v ↦ is_near bands (near_to v) ]

    -- Of the claims from the place `k` on, the one at `i` restates a live claim.
    abbrev pub restates_at : ℕ → List (NewMemory F Time) → ℕ → Bool
    restates_at k [] i = false
    restates_at k (m ∷ ms) i = (k == i && restates m) || restates_at (suc k) ms i

    abbrev run_gate : List (NewMemory F Time) → List ℕ → GateState F Time → GateState F Time
    run_gate all gated s = gate bands gated (map near_to (probes all gated)) s

    gate-marks :
        (all : List (NewMemory F Time)) (k : ℕ) (ms : List (NewMemory F Time))
        (s : GateState F Time)
        → ((i : ℕ) → get_elem? all (k + i) ≡ get_elem? ms i)
        → k + length ms ≤ length s.blocked
        → (i : ℕ)
        → is_blocked (run_gate all (gated_from k ms) s).blocked i
          ≡ (is_blocked s.blocked i || restates_at k ms i)
    unfolding gated_from probes gate
    gate-marks all k [] s at h i = ground arith
    gate-marks all k (m ∷ ms) s at h i =
        let here : get_elem? all k ≡ some m =
          subst (λ n. get_elem? all n ≡ some m) (omega arith) (at 0) in
        let next : (j : ℕ) → get_elem? all (suc k + j) ≡ get_elem? ms j =
          λ j. subst (λ n. get_elem? all n ≡ get_elem? ms j) (omega arith) (at (suc j)) in
        elim (Bool-cases (is_gated m)) [
          | inl gated ↦
              let (new, v, is_v) = has_vector (no_texts m.supersedes) m.embedding gated in
              let rest = gated_from (suc k) ms in
              let ps = probes_step all k rest v (vector_of all k m here ∙ is_v) in
              let s1 = record s { memories = set_novelty s.memories k (measured fl (near_to v)) } in
              let (l, one) = judge_all-Marked k (near_to v) s1 (omega (arith, h)) in
              let near : restates m ≡ is_near bands (near_to v) = rw (new, is_v) refl in
              ap (λ g. is_blocked (run_gate all g s).blocked i) (gated_step k m ms gated)
              ∙ ap (λ q. is_blocked (gate bands (k ∷ rest) (map near_to q) s).blocked i) ps
              ∙ gate-marks all (suc k) ms (judge_all bands k (near_to v) s1) next
                  (omega (arith, h, l)) i
              ∙ ground (arith, one i, near)
          | inr free ↦
              ap (λ g. is_blocked (run_gate all g s).blocked i) (ungated_step k m ms free)
              ∙ gate-marks all (suc k) ms s next (omega (arith, h)) i
              ∙ ground (
                arith,
                not_measured (λ v. is_near bands (near_to v)) (no_texts m.supersedes) m.embedding
                    free,
              )
        ]

    restates_before :
        (k : ℕ) (ms : List (NewMemory F Time)) (i : ℕ) → i < k → restates_at k ms i ≡ false
    restates_before k [] i h = refl
    restates_before k (m ∷ ms) i h =
        ground (arith, restates_before (suc k) ms i (omega arith), ==_iff k i, h)

    restates_here :
        (k : ℕ) (ms : List (NewMemory F Time)) (j i : ℕ) (m : NewMemory F Time)
        → get_elem? ms j ≡ some m
        → k + j ≡ i
        → restates_at k ms i ≡ restates m
    restates_here k [] j i m h e = absurd (ground (arith, h))
    restates_here k (n ∷ ms) zero i m h e =
        let same : n ≡ m = ground (arith, h) in
        ground (
          arith,
          restates_before (suc k) ms i (omega (arith, e)),
          (==_iff k i).1 (omega (arith, e)),
          ap restates same,
        )
    restates_here k (n ∷ ms) (suc j) i m h e =
        ground (arith, restates_here (suc k) ms j i m h (omega (arith, e)), ==_iff k i, e)

    -- With neighbours that a claim's vector decides, the gate holds a claim back exactly when it
    -- names no predecessor, has a vector, and one of that vector's neighbours is a near duplicate.
    pub gate_exact :
        (memories : List (NewMemory F Time)) (i : ℕ) (m : NewMemory F Time)
        → get_elem? memories i ≡ some m
        → is_blocked
            (gate bands
              (gated_from 0 memories)
              (map near_to (probes memories (gated_from 0 memories)))
              (unmeasured memories)).blocked
            i
          ≡ restates m
    gate_exact memories i m h =
        gate-marks memories 0 memories (unmeasured memories)
          (λ j. ap (get_elem? memories) (omega arith))
          (omega (arith, length-map memories (λ (x : NewMemory F Time). false))) i
        ∙ ground (arith, blocked-none memories i, restates_here 0 memories i i m h (omega arith))
