-- ===== src/Recall/Page.antt =====
-- What holds of every page of tools/recall.rs: it is made without a panic, it is no longer than `k`,
-- and each row on it is one of the ranked candidates.
use agmem.Prelude.{
  ℕ, zero, suc, ◌≤◌, ◌≡◌, refl, sym, String, Bool, true, false, not, Option, none, some, List, [],
  ◌∷◌, ◌++◌, map, take, drop, arith, length, length-take, length-keep_if-le, append-nil,
  append_assoc, take-append-drop, subst, Perm, keep_if, Bool-cases, inl, inr,
}
use mathlib.Core.List.Perm
use mathlib.Core.List.{perm_middle}
use agmem.Float.{Float}
use agmem.Model.{MemoryId}
use agmem.Scoring.{Clock}
use agmem.Hop.{reserve_tail}
use agmem.Hop.Tail.{reserve_tail-perm}
use agmem.Occupancy.{cap, verbatim_cap}
use agmem.Occupancy.Quota.{apply-perm}
use agmem.Abstain.{Verdict}
use agmem.Abstain
use agmem.Abstain.Outcomes.{outcome, cleared, whole, trimmed}
use agmem.Abstain.Trim.{is_safe}
use agmem.Recall.{
  Row, Answer, Capped, new_capped, page, cap_rows, cut_rows, finish, hit_of, hit_key, source_key,
  verbatim_source, is_voted, is_exempt, similarity_of, retrieval_of,
}

module _ {ℓ} {T : Type ℓ} where
  parted-perm : (p : T → Bool) (xs : List T) → Perm (keep_if p xs ++ keep_if (λ x. not (p x)) xs) xs
  parted-perm p [] = Perm.nil
  parted-perm p (x ∷ xs) = elim (Bool-cases (p x)) [
    | inl e ↦ rw e (Perm.cons x (parted-perm p xs))
    | inr e ↦ rw e (Perm.trans (perm_middle _ _) (Perm.cons x (parted-perm p xs)))
  ]

  cut-perm :
      (p : T → Bool) (n : ℕ) (xs : List T)
      → Perm ((take n xs ++ keep_if p (drop n xs)) ++ keep_if (λ x. not (p x)) (drop n xs)) xs
  cut-perm p zero xs = parted-perm p xs
  cut-perm p (suc n) [] = Perm.nil
  cut-perm p (suc n) (x ∷ xs) = Perm.cons x (cut-perm p n xs)

  length-cut :
      (p : T → Bool) (n : ℕ) (xs : List T) → length (take n xs ++ keep_if p (drop n xs)) ≤ length xs
  length-cut p zero xs = length-keep_if-le p xs
  length-cut p (suc n) [] = omega arith
  length-cut p (suc n) (x ∷ xs) = omega (arith, length-cut p n xs)

module _ (fl : Float) (clock : Clock fl.F) where
  open fl use {F}
  open clock use {Time}

  pub cap_rows-perm :
      (ranked : List (Row fl clock)) (k : ℕ)
      → (mixed : List (Row fl clock)) × (capped : Option Capped) × (cap_rows fl clock ranked k
          ≡ some (mixed, capped))
        × Perm mixed ranked
  unfolding cap_rows
  cap_rows-perm ranked k =
      let (sourced, by_source, e, p) =
        apply-perm (λ row. source_key (hit_of fl clock row)) ranked k (cap k) in
      let (mixed, verbatim, e', p') =
        apply-perm (λ row. verbatim_source (hit_of fl clock row)) sourced k verbatim_cap in
      (mixed, new_capped (cap k) by_source verbatim, rw (e, e') refl, Perm.trans p' p)

  cut_rows-perm :
      (is_search : Bool) (floor : F) (by_score : List String) (hopped : List MemoryId)
      (rows : List (Row fl clock))
      → (left : List (Row fl clock)) × (cut : Option (Verdict fl)) × (rest : List (Row fl clock))
        × (cut_rows fl clock is_search floor by_score hopped rows ≡ some (left, cut))
        × Perm (left ++ rest) rows
        × (length left ≤ length rows)
  unfolding cut_rows
  cut_rows-perm false floor by_score hopped rows =
      (rows, none, [], refl, rw (append-nil rows) Perm.rfl, omega arith)
  cut_rows-perm true floor by_score hopped [] =
      ([], none, [], unfold Abstain.apply in refl, Perm.nil, omega arith)
  cut_rows-perm true floor by_score hopped (top ∷ rest) =
      let exempt = is_exempt fl clock by_score hopped in
      let similar = similarity_of fl clock in
      let retrieve = retrieval_of fl clock in
      elim (outcome fl similar retrieve exempt floor top rest) [
        | cleared e r ↦ ([], _, top ∷ rest, r, Perm.rfl, omega arith)
        | whole e r ↦ (top ∷ rest, none, [], r, rw (append-nil (top ∷ rest)) Perm.rfl, omega arith)
        | trimmed e knee r ↦
            let safe = is_safe fl similar retrieve exempt floor in
            (
              _,
              _,
              keep_if (λ row. not (safe row)) (drop (suc knee) (top ∷ rest)),
              r,
              cut-perm safe (suc knee) (top ∷ rest),
              length-cut safe (suc knee) (top ∷ rest),
            )
      ]

  -- The page is made without a panic. Its rows are ranked candidates, none more often than it
  -- was ranked, and it holds at most `k` of them.
  pub page_holds :
      (k : ℕ) (is_search : Bool) (floor : F) (hopped : List MemoryId) (ranked : List (Row fl clock))
      → (answer : Answer fl clock) × (rest : List (Row fl clock)) × (page fl clock k is_search floor
            hopped ranked
          ≡ some answer)
        × Perm (answer.rows ++ rest) ranked
        × (length answer.rows ≤ k)
  unfolding page finish
  page_holds k is_search floor hopped ranked =
      let by_score = map (λ row. hit_key (hit_of fl clock row)) (take k ranked) in
      let (mixed, capped, e, p) = cap_rows-perm ranked k in
      let reserved = reserve_tail mixed k (λ row. is_voted hopped (hit_of fl clock row)) in
      let seated = take k reserved in
      let p' = reserve_tail-perm mixed k (λ row. is_voted hopped (hit_of fl clock row)) in
      let (left, cut, cut_off, e', p'', shorter) =
        cut_rows-perm is_search floor by_score hopped seated in
      (
        finish fl clock (length seated) capped (left, cut),
        cut_off ++ drop k reserved,
        rw (e, e') refl,
        rw (← append_assoc left cut_off (drop k reserved)) (
            Perm.trans (Perm.append_right (drop k reserved) p'')
              (Perm.trans (subst (λ x. Perm x mixed) (sym (take-append-drop k reserved)) p') p)),
        omega (arith, shorter, length-take k reserved),
      )
