-- ===== src/Context/Budget.antt =====
-- The block of tools/context.rs stays within its budget.
use agmem.Prelude.{
  ℕ, ◌+◌, ◌-◌, ◌≤◌, ◌≡◌, refl, max, Bool, true, false, ◌&&◌, List, arith, leb, ◌==◌, length,
  length-append, Bool-cases, inl, inr,
}
use agmem.Model.{SpaceName}
use agmem.Context.{Section, render, assemble, title, trimmed, nothing, start, fill}
use agmem.Context.Fill.{fill_lem}

-- The block of one fill takes no more characters than the budget or its title, whichever is more.
pub render_fits :
    (spaces : List SpaceName) (sections : List Section) (budget : ℕ) (roll_up : Bool)
    → length (render spaces sections budget roll_up).0 ≤ max (length (title spaces)) budget
unfolding render
render_fits spaces sections budget roll_up =
    let s = fill budget roll_up 0 (start (title spaces)) sections in
    let (shown, f) = fill_lem budget roll_up 0 (start (title spaces)) sections refl in
    elim (Bool-cases
      (s.used == length (title spaces) && s.dropped == 0 && leb (s.used + length nothing) budget)) [
        | inl e ↦ rw e (
            omega (
              arith,
              length-append s.text nothing,
              f.measured,
              f.fits,
              leb_of (s.used == length (title spaces)) (s.dropped == 0) (s.used + length nothing)
                  budget e,
            ))
        | inr e ↦ rw e (omega (arith, f.measured, f.fits))
      ]
  where
    leb_of : (a b : Bool) (m n : ℕ) → (a && b && leb m n) ≡ true → m ≤ n
    leb_of a b m n h = ground arith

-- The block takes no more characters than the budget, or than its title and the note on what was
-- left out, whichever is more.
pub assemble_fits :
    (spaces : List SpaceName) (sections : List Section) (budget : ℕ)
    → length (assemble spaces sections budget) ≤ max (length (title spaces) + length trimmed) budget
unfolding assemble
assemble_fits spaces sections budget =
    let whole = render_fits spaces sections budget false in
    let rolled = render_fits spaces sections budget true in
    let cut = render_fits spaces sections (budget - length trimmed) true in
    elim (Bool-cases ((render spaces sections budget false).1 == 0)) [
      | inl e ↦ rw e (omega (arith, whole))
      | inr e ↦ elim (Bool-cases ((render spaces sections budget true).1 == 0)) [
        | inl e' ↦ rw (e, e') (omega (arith, rolled))
        | inr e' ↦
            rw (e, e')
              (omega (
                arith,
                cut,
                length-append (render spaces sections (budget - length trimmed) true).0 trimmed,
              ))
      ]
    ]
