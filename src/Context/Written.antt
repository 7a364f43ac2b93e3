-- ===== src/Context/Written.antt =====
-- One round of the inner loop of `render` in tools/context.rs, and the text of a section it adds to.
use agmem.Prelude.{
  ℕ, zero, suc, ◌+◌, ◌≤◌, ◌≡◌, refl, sym, Bool, true, false, List, [], ◌∷◌, ◌++◌, map, arith, ltb,
  if◌then◌else◌, length, append-nil, Bool-cases, inl, inr,
}
use agmem.Model.{Text, MemoryId}
use agmem.Context.{Entry, State, place, line, saw}

-- The lines of the entries, one after the other.
unfoldable pub lines : List Entry → Text
lines [] = []
lines (e ∷ es) = line e ++ lines es

-- The entries under their heading; nothing where there is none.
unfoldable pub under : Text → List Entry → Text
under heading [] = []
under heading (e ∷ es) = heading ++ lines (e ∷ es)

abbrev pub shown_ids : List Entry → List MemoryId
shown_ids es = map (λ e. e.id) es

-- The heading that is still to be written, by its cost.
abbrev pub due : Text → ℕ → Text
due heading zero = []
due heading (suc cost) = heading

-- Entries behind what is left of their heading.
unfoldable pub block : Text → ℕ → List Entry → Text
block heading cost [] = []
block heading cost (e ∷ es) = due heading cost ++ lines (e ∷ es)

pub block-zero : (heading : Text) (es : List Entry) → block heading 0 es ≡ lines es
unfolding block lines
block-zero heading [] = refl
block-zero heading (e ∷ es) = refl

-- No two entries with one id.
unfoldable pub Once : List Entry → Type 0
Once [] = Unit
Once (e ∷ es) = (saw (shown_ids es) e.id ≡ false) × Once es

-- The state counts its text's length, and the heading's cost is 0 or its length.
pub record Counted (heading : Text) (s : State) : Type 0 where
  pub measured : s.used ≡ length s.text
  pub charged : s.header_cost ≡ length (due heading s.header_cost)

-- What one round does: it passes by a claim seen before, drops one that does not fit, or writes one.
pub data Round (budget : ℕ) (heading : Text) (roll_up : Bool) (s : State) (e : Entry) : Type 0 where
  again :
      saw s.seen e.id ≡ true
      → place budget heading roll_up s e ≡ s
      → Round budget heading roll_up s e
  too_long :
      saw s.seen e.id ≡ false
      → place budget heading roll_up s e
        ≡ (record s { seen = e.id ∷ s.seen; dropped = s.dropped + 1 })
      → Round budget heading roll_up s e
  written :
      saw s.seen e.id ≡ false
      → s.used + (s.header_cost + length (line e)) ≤ budget
      → place budget heading roll_up s e ≡ (record s {
        text = (s.text ++ due heading s.header_cost) ++ line e;
        used = s.used + (s.header_cost + length (line e));
        seen = if roll_up then e.covers ++ e.id ∷ s.seen else e.id ∷ s.seen;
        header_cost = 0;
      })
      → Round budget heading roll_up s e

due-eq :
    (text heading : Text) (cost : ℕ)
    → (if ltb 0 cost then text ++ heading else text) ≡ text ++ due heading cost
due-eq text heading zero = sym (append-nil text)
due-eq text heading (suc cost) = let more : ltb 0 (suc cost) ≡ true = ground arith in rw more refl

pub round :
    (budget : ℕ) (heading : Text) (roll_up : Bool) (s : State) (e : Entry)
    → Round budget heading roll_up s e
unfolding place
round budget heading roll_up s e = elim (Bool-cases (saw s.seen e.id)) [
  | inl h ↦ again h (rw h refl)
  | inr h ↦ elim (Bool-cases (ltb budget (s.used + (s.header_cost + length (line e))))) [
    | inl over ↦ too_long h (rw (h, over) refl)
    | inr fits ↦
        written h (ground arith) (rw (h, fits) (rw (due-eq s.text heading s.header_cost) refl))
  ]
]
