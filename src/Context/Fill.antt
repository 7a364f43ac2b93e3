-- ===== src/Context/Fill.antt =====
-- The outer loop of `render` in tools/context.rs: what all sections write together.
use agmem.Prelude.{
  ℕ, suc, ◌-◌, ◌≤◌, ◌≡◌, refl, sym, ap, ◌∙◌, max, Bool, true, false, ◌||◌, List, [], ◌∷◌, ◌++◌,
  arith, ◌==◌, if◌then◌else◌, length, All, All-map, All-append, append-nil, append_assoc,
}
use mathlib.Core.List.{Sublistᴰ}
use agmem.Model.{Text, MemoryId}
use agmem.Context.{Entry, Section, State, place_all, fill, header, saw, held_all}
use agmem.Context.Written.{under, block, shown_ids, Once}
use agmem.Context.Round.{Placed, settled, place_all_lem, not_shown}

-- The entries written, section by section, in one list.
unfoldable pub all_of : List (List Entry) → List Entry
all_of [] = []
all_of (es ∷ shown) = es ++ all_of shown

-- The text of the sections, of which `shown` are the entries written.
unfoldable pub layout : List Section → List (List Entry) → Text
layout [] shown = []
layout (section ∷ rest) [] = []
layout (section ∷ rest) (es ∷ shown) = under (header section) es ++ layout rest shown

-- One list for each section: entries of that section, in their order.
unfoldable pub Taken : List (List Entry) → List Section → Type 0
Taken [] [] = Unit
Taken [] (section ∷ rest) = ⊥
Taken (es ∷ shown) [] = ⊥
Taken (es ∷ shown) (section ∷ rest) = Sublistᴰ es section.entries × Taken shown rest

-- Every entry of every section was seen.
unfoldable pub AllHandled : List MemoryId → List Section → Type 0
AllHandled seen [] = Unit
AllHandled seen (section ∷ rest) =
    All (λ e. saw seen e.id ≡ true) section.entries × AllHandled seen rest

pub record Filled (budget : ℕ) (roll_up : Bool) (s t : State) (sections : List Section)
    (shown : List (List Entry)) : Type 0 where
  pub taken : Taken shown sections
  pub measured : t.used ≡ length t.text
  pub text : t.text ≡ s.text ++ layout sections shown
  pub fits : t.used ≤ max s.used budget
  pub unseen : All (λ e. saw s.seen e.id ≡ false) (all_of shown)
  pub once : Once (all_of shown)
  pub drops : s.dropped ≤ t.dropped
  pub keeps_seen : (id : MemoryId) → saw s.seen id ≡ true → saw t.seen id ≡ true
  pub exact :
      t.dropped ≡ s.dropped
      → (id : MemoryId) → saw t.seen id ≡ (saw s.seen id || settled roll_up (all_of shown) id)
  pub handled : AllHandled t.seen sections

block-under :
    (section : Section) (es : List Entry)
    → block (header section) (length (header section)) es ≡ under (header section) es
unfolding block under
block-under section [] = refl
block-under section (e ∷ es) = refl

settled-append :
    (roll_up : Bool) (es fs : List Entry) (id : MemoryId)
    → settled roll_up (es ++ fs) id ≡ (settled roll_up es id || settled roll_up fs id)
settled-append roll_up [] fs id = refl
settled-append roll_up (e ∷ es) fs id = ground (arith, settled-append roll_up es fs id)

saw_ids-append :
    (es fs : List Entry) (id : MemoryId)
    → saw (shown_ids (es ++ fs)) id ≡ (saw (shown_ids es) id || saw (shown_ids fs) id)
saw_ids-append [] fs id = refl
saw_ids-append (e ∷ es) fs id = ground (arith, saw_ids-append es fs id)

-- Entries that were seen, followed by entries that were not.
Once-append :
    (seen : List MemoryId) (es fs : List Entry)
    → Once es
    → All (λ e. saw seen e.id ≡ true) es
    → Once fs
    → All (λ e. saw seen e.id ≡ false) fs
    → Once (es ++ fs)
unfolding Once
Once-append seen [] fs h a k b = k
Once-append seen (e ∷ es) fs h a k b = (
  ground (arith, saw_ids-append es fs e.id, h.0, not_shown seen e.id fs a.0 b),
  Once-append seen es fs h.1 a.1 k b,
)

AllHandled-later :
    (seen later : List MemoryId) (entries : List Entry)
    → ((id : MemoryId) → saw seen id ≡ true → saw later id ≡ true)
    → All (λ e. saw seen e.id ≡ true) entries
    → All (λ e. saw later e.id ≡ true) entries
AllHandled-later seen later entries f =
    All-map (λ e. saw seen e.id ≡ true) (λ e. saw later e.id ≡ true) entries (λ e h. f e.id h)

-- One section, and then the sections behind it.
section_then :
    (budget less : ℕ) (roll_up : Bool) (s t u : State) (section : Section) (rest : List Section)
    (es : List Entry) (shown : List (List Entry))
    → less ≤ budget
    → Placed less
        (header section)
        roll_up
        (record s { header_cost = length (header section) })
        t
        section.entries
        es
    → Filled budget roll_up t u rest shown
    → Filled budget roll_up s u (section ∷ rest) (es ∷ shown)
unfolding layout all_of AllHandled Taken
section_then budget less roll_up s t u section rest es shown h p f = record {
  taken = (p.taken, f.taken);
  measured = f.measured;
  text =
      f.text
      ∙ ap (λ text. text ++ layout rest shown) p.text
      ∙ append_assoc s.text _ _
      ∙ ap (λ text. s.text ++ (text ++ layout rest shown)) (block-under section es);
  fits = omega (arith, f.fits, p.fits, h);
  unseen =
      All-append (λ e. saw s.seen e.id ≡ false) es (all_of shown) p.unseen
        (All-map (λ e. saw t.seen e.id ≡ false) (λ e. saw s.seen e.id ≡ false) (all_of shown)
          (λ e k. ground (arith, k, p.keeps_seen e.id)) f.unseen);
  once = Once-append t.seen es (all_of shown) p.once p.shown_seen f.once f.unseen;
  drops = omega (arith, p.drops, f.drops);
  keeps_seen = λ id k. f.keeps_seen id (p.keeps_seen id k);
  exact = λ same id. ground (
    arith,
    f.exact (omega (arith, same, p.drops, f.drops)) id,
    p.exact (omega (arith, same, p.drops, f.drops)) id,
    settled-append roll_up es (all_of shown) id,
  );
  handled = (AllHandled-later t.seen u.seen section.entries f.keeps_seen p.handled, f.handled);
}

-- The loop over the sections.
pub fill_lem :
    (budget : ℕ) (roll_up : Bool) (index : ℕ) (s : State) (sections : List Section)
    → s.used ≡ length s.text
    → (shown : List (List Entry)) × Filled budget roll_up s
        (fill budget roll_up index s sections)
        sections
        shown
unfolding fill
fill_lem budget roll_up index s [] m = (
  [],
  unfold layout all_of AllHandled Once Taken in
      record {
        taken = tt;
        measured = m;
        text = sym (append-nil s.text);
        fits = omega arith;
        unseen = tt;
        once = tt;
        drops = omega arith;
        keeps_seen = λ id h. h;
        exact = λ same id. ground arith;
        handled = tt;
      },
)
fill_lem budget roll_up index s (section ∷ rest) m =
    let less = budget - (if index == 0 then 0 else held_all rest) in
    let begun = record s { header_cost = length (header section) } in
    let (es, p) =
      place_all_lem less (header section) roll_up begun section.entries
        (record { measured = m; charged = refl }) in
    let (shown, f) =
      fill_lem budget roll_up (suc index)
        (place_all less (header section) roll_up begun section.entries) rest p.counted.measured in
    (es ∷ shown, section_then budget less roll_up s _ _ section rest es shown (omega arith) p f)
