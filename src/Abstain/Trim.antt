-- ===== src/Abstain/Trim.antt =====
-- The trim of tools/abstain.rs: `page.retain(…)`.
use agmem.Prelude.{
  ℕ, zero, suc, ◌+◌, ◌<◌, ◌≡◌, refl, ap, subst, Bool, true, false, not, ◌||◌, Option, List, [], ◌∷◌,
  arith, leb, take, drop, ◌++◌, keep_if, Bool-cases, inl, inr,
}
use agmem.Float.{Float}
use agmem.Abstain.{below, trim}

module _ (fl : Float) where
  open fl use {F, le, le_total, le_trans}

  module _ {ℓ} {T : Type ℓ} (similarity : T → Option F) (retrieval : T → F)
      (protected : T → Bool) where
    -- What the trim may not cut: a protected row, a row that no vector arm measured, and a row that
    -- clears the floor.
    abbrev pub is_safe : F → T → Bool
    is_safe floor row = protected row || not (below fl floor (similarity row))

    trim_past :
        (floor : F) (knee index : ℕ) (rows : List T)
        → knee < index
        → trim fl similarity retrieval protected floor knee index rows
          ≡ keep_if (is_safe floor) rows
    unfolding trim
    trim_past floor knee index [] h = refl
    trim_past floor knee index (row ∷ rows) h =
        let past : leb index knee ≡ false = ground arith in
        let ih = trim_past floor knee (suc index) rows (omega arith) in
        elim (Bool-cases (is_safe floor row)) [
          | inl e ↦ rw (past, e) (ap (◌∷◌ row) ih)
          | inr e ↦ rw (past, e) ih
        ]

    -- The rows up to the knee stay, and behind it just the safe ones.
    pub trim-eq :
        (floor : F) (k index : ℕ) (rows : List T)
        → trim fl similarity retrieval protected floor (index + k) index rows
          ≡ take (suc k) rows ++ keep_if (is_safe floor) (drop (suc k) rows)
    unfolding trim
    trim-eq floor k index [] = refl
    trim-eq floor zero index (row ∷ rows) =
        let here : leb index (index + 0) ≡ true = ground arith in
        rw here (ap (◌∷◌ row) (trim_past floor (index + 0) (suc index) rows (omega arith)))
    trim-eq floor (suc k) index (row ∷ rows) =
        let here : leb index (index + suc k) ≡ true = ground arith in
        rw here (
          ap (◌∷◌ row) (
            subst
              (λ j.
                trim fl similarity retrieval protected floor j (suc index) rows
                ≡ take (suc k) rows ++ keep_if (is_safe floor) (drop (suc k) rows))
              (omega arith) (trim-eq floor k (suc index) rows)))
