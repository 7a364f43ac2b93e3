-- ===== src/Recall/Seat.antt =====
-- The seat that tools/recall.rs keeps for a row of the hop outlives the caps and the cut.
use agmem.Prelude.{
  ℕ, zero, suc, ◌++◌, drop, length, String, ◌≤◌, ◌≡◌, ◌⊎◌, refl, sym, ap, ◌∙◌, Bool, true, false,
  ◌||◌, Option, none, some, List, [], ◌∷◌, map, take, any, arith, keep_if, Perm, Bool-cases, inl,
  inr,
}
use mathlib.Core.List.Perm
use mathlib.Core.List.{foldr}
use mathlib.Core.Bool.{Bool-set}
use agmem.Float.{Float}
use agmem.Model.{MemoryId}
use agmem.Scoring.{Clock}
use agmem.Hop.{reserve_tail}
use agmem.Hop.Tail.{reserve_tail_seats}
use agmem.Abstain.{Verdict}
use agmem.Abstain.Outcomes.{outcome, cleared, whole, trimmed}
use agmem.Abstain.Trim.{is_safe}
use agmem.Recall.{
  Row, Answer, page, cut_rows, finish, hit_of, hit_key, is_voted, is_exempt, similarity_of,
  retrieval_of,
}
use agmem.Recall.Page.{cap_rows-perm}

module _ {ℓ} {T : Type ℓ} (p : T → Bool) where
  any-foldr : (xs : List T) → any p xs ≡ foldr (λ x b. p x || b) false xs
  any-foldr [] = refl
  any-foldr (x ∷ xs) = ap (◌||◌ (p x)) (any-foldr xs)

  or_swap : (x y : T) (b : Bool) → (p x || (p y || b)) ≡ (p y || (p x || b))
  or_swap x y b = ground arith

  any-perm : (xs ys : List T) → Perm xs ys → any p xs ≡ any p ys
  any-perm xs ys π =
      any-foldr xs ∙ Perm.foldr-eq Bool-set (λ x b. p x || b) or_swap π false ∙ sym (any-foldr ys)

  any-keep_if :
      (q : T → Bool) (xs : List T)
      → ((x : T) → p x ≡ true → q x ≡ true)
      → any p (keep_if q xs) ≡ any p xs
  any-keep_if q [] f = refl
  any-keep_if q (x ∷ xs) f = elim (Bool-cases (q x)) [
    | inl e ↦ rw e (ap (◌||◌ (p x)) (any-keep_if q xs f))
    | inr e ↦ rw e (any-keep_if q xs f ∙ ground (arith, f x))
  ]

  any-cut :
      (q : T → Bool) (n : ℕ) (xs : List T)
      → ((x : T) → p x ≡ true → q x ≡ true)
      → any p (take n xs ++ keep_if q (drop n xs)) ≡ any p xs
  any-cut q zero xs f = any-keep_if q xs f
  any-cut q (suc n) [] f = refl
  any-cut q (suc n) (x ∷ xs) f = ap (◌||◌ (p x)) (any-cut q n xs f)

module _ (fl : Float) (clock : Clock fl.F) where
  open fl use {F}
  open clock use {Time}

  -- The row is a claim that the hop voted for.
  abbrev pub voted : List MemoryId → Row fl clock → Bool
  voted hopped row = is_voted hopped (hit_of fl clock row)

  voted-exempt :
      (by_score : List String) (hopped : List MemoryId) (row : Row fl clock)
      → voted hopped row ≡ true
      → is_exempt fl clock by_score hopped row ≡ true
  voted-exempt by_score hopped (hit, r) h = ground (arith, h)

  cut_keeps :
      (is_search : Bool) (floor : F) (by_score : List String) (hopped : List MemoryId)
      (rows : List (Row fl clock))
      → any (voted hopped) rows ≡ true
      → (left : List (Row fl clock)) × (cut : Option (Verdict fl)) × (cut_rows fl clock is_search
            floor by_score hopped rows
          ≡ some (left, cut))
        × ((left ≡ []) ⊎ (any (voted hopped) left ≡ true))
  unfolding cut_rows
  cut_keeps false floor by_score hopped rows h = (rows, none, refl, inr h)
  cut_keeps true floor by_score hopped [] h = absurd (ground arith)
  cut_keeps true floor by_score hopped (top ∷ rest) h =
      let exempt = is_exempt fl clock by_score hopped in
      let safe = is_safe fl (similarity_of fl clock) (retrieval_of fl clock) exempt floor in
      elim (outcome fl (similarity_of fl clock) (retrieval_of fl clock) exempt floor top rest) [
        | cleared e r ↦ ([], _, r, inl refl)
        | whole e r ↦ (top ∷ rest, none, r, inr h)
        | trimmed e knee r ↦ (
          _,
          _,
          r,
          inr (
              any-cut (voted hopped) safe (suc knee) (top ∷ rest)
                (λ row v. ground (arith, voted-exempt by_score hopped row v))
              ∙ h),
        )
      ]

  -- On a page of two rows or more, if the hop voted for any ranked candidate, a row of the hop stands
  -- on the page, unless the cut cleared the page.
  pub page_seats :
      (k : ℕ) (is_search : Bool) (floor : F) (hopped : List MemoryId) (ranked : List (Row fl clock))
      → 2 ≤ k
      → any (voted hopped) ranked ≡ true
      → (answer : Answer fl clock) × (page fl clock k is_search floor hopped ranked ≡ some answer)
        × ((answer.rows ≡ []) ⊎ (any (voted hopped) answer.rows ≡ true))
  unfolding page finish
  page_seats k is_search floor hopped ranked two h =
      let by_score = map (λ row. hit_key (hit_of fl clock row)) (take k ranked) in
      let (mixed, capped, e, p) = cap_rows-perm fl clock ranked k in
      let seated = take k (reserve_tail mixed k (voted hopped)) in
      let there =
        reserve_tail_seats mixed k (voted hopped) two
          (any-perm (voted hopped) mixed ranked p ∙ h) in
      let (left, cut, e', kept) = cut_keeps is_search floor by_score hopped seated there in
      (finish fl clock (length seated) capped (left, cut), rw (e, e') refl, kept)
