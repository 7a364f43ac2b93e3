-- ===== src/Abstain/Verdicts.antt =====
-- What the cut of tools/abstain.rs leaves of a page, on every branch.
use agmem.Prelude.{
  ℕ, zero, suc, ◌<◌, ◌≤◌, ◌≡◌, ◌↔◌, refl, ap, Bool, true, false, Option, none, some, List, [], ◌∷◌,
  map, arith, ltb, ltb→lt, ◌⊎◌, length-keep_if-le, take, drop, ◌++◌, take, drop, ◌++◌, length,
  keep_if, Bool-cases, inl, inr,
}
use agmem.Float.{Float}
use agmem.Abstain.{Verdict, best_of, apply}
use agmem.Abstain.Trim.{is_safe}
use agmem.Abstain.Outcomes.{is_hopeless, cut_at, report, cleared, whole, trimmed, outcome}

module _ {ℓ} {T : Type ℓ} (p : T → Bool) where
  keep_if_twice : (rows : List T) → keep_if p (keep_if p rows) ≡ keep_if p rows
  keep_if_twice [] = refl
  keep_if_twice (row ∷ rows) = elim (Bool-cases (p row)) [
    | inl e ↦ rw e (rw e (ap (◌∷◌ row) (keep_if_twice rows)))
    | inr e ↦ rw e (keep_if_twice rows)
  ]

  -- Keeping the rest of a page whole up to `k` keeps every row that the test keeps.
  keep_if-cut :
      (k : ℕ) (rows : List T) → keep_if p (take k rows ++ keep_if p (drop k rows)) ≡ keep_if p rows
  keep_if-cut zero rows = keep_if_twice rows
  keep_if-cut (suc k) [] = refl
  keep_if-cut (suc k) (row ∷ rows) = elim (Bool-cases (p row)) [
    | inl e ↦ rw e (ap (◌∷◌ row) (keep_if-cut k rows))
    | inr e ↦ rw e (keep_if-cut k rows)
  ]

  keep_if_full : (rows : List T) → length rows ≤ length (keep_if p rows) → keep_if p rows ≡ rows
  keep_if_full [] h = refl
  keep_if_full (row ∷ rows) h = elim (Bool-cases (p row)) [
    | inl e ↦ rw e (ap (◌∷◌ row) (keep_if_full rows (ground arith)))
    | inr e ↦ absurd (ground (arith, length-keep_if-le p rows))
  ]

  cut_full :
      (k : ℕ) (rows : List T)
      → length rows ≤ length (take k rows ++ keep_if p (drop k rows))
      → take k rows ++ keep_if p (drop k rows) ≡ rows
  cut_full zero rows h = keep_if_full rows h
  cut_full (suc k) [] h = refl
  cut_full (suc k) (row ∷ rows) h = ap (◌∷◌ row) (cut_full k rows (omega arith))

module _ (fl : Float) where
  open fl use {F}

  module _ {ℓ} {T : Type ℓ} (similarity : T → Option F) (retrieval : T → F)
      (protected : T → Bool) where
    -- On a page that holds a row, the cut clears the page exactly when the top row was measured and
    -- no measured row reaches the floor.
    pub apply_abstains :
        (floor : F) (top : T) (rest rows : List T) (verdict : Option (Verdict fl))
        → apply fl similarity retrieval protected (top ∷ rest) floor ≡ some (rows, verdict)
        → (rows ≡ []) ↔ (is_hopeless fl similarity retrieval protected floor top rest ≡ true)
    apply_abstains floor top rest rows verdict h =
        elim (outcome fl similarity retrieval protected floor top rest) [
          | cleared e r ↦ ((λ _. e), λ _. cc)
          | whole e r ↦ ((λ z. absurd (cc)), λ z. absurd (cc))
          | trimmed e knee r ↦ ((λ z. absurd (cc)), λ z. absurd (cc))
        ]

    -- Unless it clears the page, the cut drops no row that is protected, unmeasured or clears the
    -- floor, and keeps such rows in their order.
    pub apply_spares :
        (floor : F) (top : T) (rest rows : List T) (verdict : Option (Verdict fl))
        → apply fl similarity retrieval protected (top ∷ rest) floor ≡ some (rows, verdict)
        → is_hopeless fl similarity retrieval protected floor top rest ≡ false
        → keep_if (is_safe fl similarity retrieval protected floor) rows
          ≡ keep_if (is_safe fl similarity retrieval protected floor) (top ∷ rest)
    apply_spares floor top rest rows verdict h hope =
        elim (outcome fl similarity retrieval protected floor top rest) [
          | cleared e r ↦ absurd (cc)
          | whole e r ↦ let same : rows ≡ top ∷ rest = cc in rw same
          | trimmed e knee r ↦
              let same : rows ≡ cut_at fl similarity retrieval protected floor knee (top ∷ rest) =
                cc in
              rw same (
                keep_if-cut (is_safe fl similarity retrieval protected floor) (suc knee)
                  (top ∷ rest))
        ]

    -- What a verdict may say of a page and the rows left of it: there is none and the page is as it
    -- came, or it counts the rows left and the rows that came, and fewer are left.
    abbrev pub Accounts : List T → List T → Option (Verdict fl) → Type ℓ
    Accounts page rows verdict =
        ((verdict ≡ none) × (rows ≡ page))
        ⊎ ((v : Verdict fl) × (verdict ≡ some v)
            × (v.kept ≡ length rows)
            × (v.considered ≡ length page)
            × (v.kept < v.considered))

    report-Accounts :
        (floor : F) (knee : ℕ) (page : List T)
        → Accounts page
            (cut_at fl similarity retrieval protected floor knee page)
            (report fl similarity retrieval protected floor knee page)
    report-Accounts floor knee page =
        let left = cut_at fl similarity retrieval protected floor knee page in
        elim (Bool-cases (ltb (length left) (length page))) [
          | inl less ↦
              let counted : Verdict fl = record {
                kept = length left;
                considered = length page;
                best_similarity = best_of fl (map similarity page);
              } in
              inr (counted, rw less, refl, refl, ltb→lt _ _ less)
          | inr not_less ↦ inl (rw not_less, cut_full _ (suc knee) page (ground arith))
        ]

    -- The cut never panics, and its verdict accounts for the rows that it leaves.
    pub apply-Accounts :
        (page : List T) (floor : F)
        → (rows : List T) × (verdict : Option (Verdict fl)) × (apply fl similarity retrieval
              protected page floor
            ≡ some (rows, verdict))
          × Accounts page rows verdict
    unfolding apply
    apply-Accounts [] floor = ([], none, refl, inl (refl, refl))
    apply-Accounts (top ∷ rest) floor =
        elim (outcome fl similarity retrieval protected floor top rest) [
          | cleared e r ↦ ([], _, r, inr (_, refl, refl, refl, omega arith))
          | whole e r ↦ (top ∷ rest, none, r, inl (refl, refl))
          | trimmed e knee r ↦ (_, _, r, report-Accounts floor knee (top ∷ rest))
        ]
