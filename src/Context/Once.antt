-- ===== src/Context/Once.antt =====
-- The block of tools/context.rs shows whole entries, none twice, and misses none unless it says so.
use agmem.Prelude.{
  ℕ, ◌+◌, ◌-◌, ◌≡◌, refl, sym, ap, ◌∙◌, ◌⊎◌, Bool, true, false, ◌&&◌, ◌||◌, List, [], ◌∷◌, ◌++◌,
  arith, leb, ◌==◌, length, All, All-map, append-nil, append_assoc, Bool-cases, inl, inr,
}
use agmem.Model.{Text, MemoryId, SpaceName}
use agmem.Context.{Entry, Section, render, assemble, title, trimmed, nothing, start, fill, saw}
use agmem.Context.Written.{Once}
use agmem.Context.Round.{settled}
use agmem.Context.Fill.{fill_lem, layout, all_of, AllHandled, Taken}

-- Every entry of every section is settled by the entries written: written itself or, with roll-up,
-- covered by a summary that is.
unfoldable pub AllSettled : Bool → List Entry → List Section → Type 0
AllSettled roll_up es [] = Unit
AllSettled roll_up es (section ∷ rest) =
    All (λ e. settled roll_up es e.id ≡ true) section.entries × AllSettled roll_up es rest

-- A block is its title, the entries `shown` under the headings of their sections, and a note.
abbrev pub laid_out : List SpaceName → List Section → List (List Entry) → Text → Text
laid_out spaces sections shown note = (title spaces ++ layout sections shown) ++ note

handled-settled :
    (roll_up : Bool) (es : List Entry) (seen : List MemoryId) (sections : List Section)
    → ((id : MemoryId) → saw seen id ≡ settled roll_up es id)
    → AllHandled seen sections
    → AllSettled roll_up es sections
unfolding AllHandled AllSettled
handled-settled roll_up es seen [] f h = tt
handled-settled roll_up es seen (section ∷ rest) f h = (
  All-map (λ e. saw seen e.id ≡ true) (λ e. settled roll_up es e.id ≡ true) section.entries
      (λ e k. sym (f e.id) ∙ k) h.0,
  handled-settled roll_up es seen rest f h.1,
)

-- What one fill writes.
record Rendered (spaces : List SpaceName) (sections : List Section) (budget : ℕ) (roll_up : Bool)
    : Type 0 where
  shown : List (List Entry)
  note : Text
  taken : Taken shown sections
  text : (render spaces sections budget roll_up).0 ≡ laid_out spaces sections shown note
  notes : (note ≡ []) ⊎ (note ≡ nothing)
  once : Once (all_of shown)
  complete :
      (render spaces sections budget roll_up).1 ≡ 0 → AllSettled roll_up (all_of shown) sections

rendered :
    (spaces : List SpaceName) (sections : List Section) (budget : ℕ) (roll_up : Bool)
    → Rendered spaces sections budget roll_up
unfolding render
rendered spaces sections budget roll_up =
    let s = fill budget roll_up 0 (start (title spaces)) sections in
    let (shown, f) = fill_lem budget roll_up 0 (start (title spaces)) sections refl in
    let settle : s.dropped ≡ 0 → AllSettled roll_up (all_of shown) sections =
      λ z. handled-settled roll_up (all_of shown) s.seen sections (f.exact z) f.handled in
    elim (Bool-cases
      (s.used == length (title spaces) && s.dropped == 0 && leb (s.used + length nothing) budget)) [
        | inl e ↦ record {
          shown = shown;
          taken = f.taken;
          note = nothing;
          text = rw e (rw f.text refl);
          notes = inr refl;
          once = f.once;
          complete = rw e settle;
        }
        | inr e ↦ record {
          shown = shown;
          taken = f.taken;
          note = [];
          text = rw e (f.text ∙ sym (append-nil _));
          notes = inl refl;
          once = f.once;
          complete = rw e settle;
        }
      ]

settled-true :
    (es : List Entry) (id : MemoryId) → settled false es id ≡ true → settled true es id ≡ true
settled-true [] id h = h
settled-true (e ∷ es) id h = elim (Bool-cases (settled false es id)) [
  | inl later ↦ ground (arith, settled-true es id later)
  | inr none ↦ ground (arith, h)
]

weaker :
    (es : List Entry) (sections : List Section)
    → AllSettled false es sections
    → AllSettled true es sections
unfolding AllSettled
weaker es [] h = tt
weaker es (section ∷ rest) h = (
  All-map (λ e. settled false es e.id ≡ true) (λ e. settled true es e.id ≡ true) section.entries
      (λ e. settled-true es e.id) h.0,
  weaker es rest h.1,
)

-- The block that `assemble` makes is its title, then, under the heading of each section that shows
-- any, whole entries of that section in the section's order, no two of the block with one id, then
-- no note, the note that nothing is stored, the note that the block was trimmed, or both notes.
pub assemble_shows :
    (spaces : List SpaceName) (sections : List Section) (budget : ℕ)
    → (shown : List (List Entry)) × (note : Text) × (assemble spaces sections budget
        ≡ laid_out spaces sections shown note)
      × Taken shown sections
      × Once (all_of shown)
      × ((note ≡ []) ⊎ (note ≡ nothing) ⊎ (note ≡ trimmed) ⊎ (note ≡ nothing ++ trimmed))
unfolding assemble
assemble_shows spaces sections budget =
    let whole = rendered spaces sections budget false in
    let rolled = rendered spaces sections budget true in
    let cut = rendered spaces sections (budget - length trimmed) true in
    elim (Bool-cases ((render spaces sections budget false).1 == 0)) [
      | inl e ↦ (
        whole.shown,
        whole.note,
        rw e whole.text,
        whole.taken,
        whole.once,
        as_noted whole.note whole.notes,
      )
      | inr e ↦ elim (Bool-cases ((render spaces sections budget true).1 == 0)) [
        | inl e' ↦ (
          rolled.shown,
          rolled.note,
          rw (e, e') rolled.text,
          rolled.taken,
          rolled.once,
          as_noted rolled.note rolled.notes,
        )
        | inr e' ↦ (
          cut.shown,
          cut.note ++ trimmed,
          rw (e, e') (ap (λ text. text ++ trimmed) cut.text ∙ append_assoc _ cut.note trimmed),
          cut.taken,
          cut.once,
          then_trimmed cut.note cut.notes,
        )
      ]
    ]
  where
    as_noted :
        (note : Text)
        → (note ≡ []) ⊎ (note ≡ nothing)
        → (note ≡ []) ⊎ (note ≡ nothing) ⊎ (note ≡ trimmed) ⊎ (note ≡ nothing ++ trimmed)
    as_noted note (inl h) = inl h
    as_noted note (inr h) = inr (inl h)

    then_trimmed :
        (note : Text)
        → (note ≡ []) ⊎ (note ≡ nothing)
        → (note ++ trimmed ≡ [])
          ⊎ (note ++ trimmed ≡ nothing)
          ⊎ (note ++ trimmed ≡ trimmed)
          ⊎ (note ++ trimmed ≡ nothing ++ trimmed)
    then_trimmed note (inl h) = inr (inr (inl (ap (λ text. text ++ trimmed) h)))
    then_trimmed note (inr h) = inr (inr (inr (ap (λ text. text ++ trimmed) h)))

-- Where a fill without roll-up or one with it drops nothing, the block is complete: it is made of
-- entries of its sections, each section's in order, every entry of every section is among them or
-- covered by a summary that is, and no note says that the block was trimmed.
pub assemble_complete :
    (spaces : List SpaceName) (sections : List Section) (budget : ℕ)
    → ((render spaces sections budget false).1 == 0 || (render spaces sections budget true).1 == 0)
      ≡ true
    → (shown : List (List Entry)) × (note : Text) × (assemble spaces sections budget
        ≡ laid_out spaces sections shown note)
      × Taken shown sections
      × AllSettled true (all_of shown) sections
      × ((note ≡ []) ⊎ (note ≡ nothing))
unfolding assemble
assemble_complete spaces sections budget h =
    let whole = rendered spaces sections budget false in
    let rolled = rendered spaces sections budget true in
    elim (Bool-cases ((render spaces sections budget false).1 == 0)) [
      | inl e ↦ (
        whole.shown,
        whole.note,
        rw e whole.text,
        whole.taken,
        weaker (all_of whole.shown) sections (whole.complete (ground arith)),
        whole.notes,
      )
      | inr e ↦
          let e' : ((render spaces sections budget true).1 == 0) ≡ true = ground (arith, h) in
          (
            rolled.shown,
            rolled.note,
            rw (e, e') rolled.text,
            rolled.taken,
            rolled.complete (ground arith),
            rolled.notes,
          )
    ]
