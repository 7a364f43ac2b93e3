-- ===== src/Context/Round.antt =====
-- The inner loop of `render` in tools/context.rs: what it writes of a section, and which claims it
-- marks.
use agmem.Prelude.{
  ℕ, ◌+◌, ◌≤◌, ◌≡◌, refl, sym, ◌∙◌, max, Bool, true, false, ◌&&◌, ◌||◌, List, [], ◌∷◌, ◌++◌, arith,
  str_eq, eq_iff, if◌then◌else◌, length, length-append, any, All, All-map, append-nil, append_assoc,
  Bool-cases, inl, inr,
}
use mathlib.Core.List.{Sublistᴰ}
use agmem.Model.{Text, MemoryId}
use agmem.Context.{Entry, State, place_all, line, saw}
use agmem.Context.Written.{
  lines, shown_ids, due, block, block-zero, Once, Counted, again, too_long, written, round,
}

-- An id is settled by the entries written: one of them has it or, with roll-up, covers it.
abbrev pub settled : Bool → List Entry → MemoryId → Bool
settled roll_up es id = any (λ e. str_eq e.id id || (roll_up && saw e.covers id)) es

-- What the loop over a section does to the state: `es` are the entries written, in order.
pub record Placed (budget : ℕ) (heading : Text) (roll_up : Bool) (s t : State)
    (entries es : List Entry) : Type 0 where
  pub taken : Sublistᴰ es entries
  pub counted : Counted heading t
  pub text : t.text ≡ s.text ++ block heading s.header_cost es
  pub fits : t.used ≤ max s.used budget
  pub unseen : All (λ e. saw s.seen e.id ≡ false) es
  pub once : Once es
  pub drops : s.dropped ≤ t.dropped
  pub keeps_seen : (id : MemoryId) → saw s.seen id ≡ true → saw t.seen id ≡ true
  pub shown_seen : All (λ e. saw t.seen e.id ≡ true) es
  pub exact :
      t.dropped ≡ s.dropped
      → (id : MemoryId) → saw t.seen id ≡ (saw s.seen id || settled roll_up es id)
  pub handled : All (λ e. saw t.seen e.id ≡ true) entries

nothing-Placed :
    (budget : ℕ) (heading : Text) (roll_up : Bool) (s : State)
    → Counted heading s
    → Placed budget heading roll_up s s [] []
unfolding block Once
nothing-Placed budget heading roll_up s c = record {
  taken = Sublistᴰ.slnil;
  counted = c;
  text = sym (append-nil s.text);
  fits = omega arith;
  unseen = tt;
  once = tt;
  drops = omega arith;
  keeps_seen = λ id h. h;
  shown_seen = tt;
  exact = λ same id. ground arith;
  handled = tt;
}

-- A claim that was seen before changes nothing.
passed_by :
    (budget : ℕ) (heading : Text) (roll_up : Bool) (s t : State) (e : Entry)
    (entries es : List Entry)
    → saw s.seen e.id ≡ true
    → Placed budget heading roll_up s t entries es
    → Placed budget heading roll_up s t (e ∷ entries) es
passed_by budget heading roll_up s t e entries es h p = record {
  taken = Sublistᴰ.cons p.taken;
  counted = p.counted;
  text = p.text;
  fits = p.fits;
  unseen = p.unseen;
  once = p.once;
  drops = p.drops;
  keeps_seen = p.keeps_seen;
  shown_seen = p.shown_seen;
  exact = p.exact;
  handled = (p.keeps_seen e.id h, p.handled);
}

-- A claim that is too long is marked as seen and counted.
left_out :
    (budget : ℕ) (heading : Text) (roll_up : Bool) (s t : State) (e : Entry)
    (entries es : List Entry)
    → Placed budget heading roll_up
        (record s { seen = e.id ∷ s.seen; dropped = s.dropped + 1 })
        t
        entries
        es
    → Placed budget heading roll_up s t (e ∷ entries) es
left_out budget heading roll_up s t e entries es p = record {
  taken = Sublistᴰ.cons p.taken;
  counted = p.counted;
  text = p.text;
  fits = p.fits;
  unseen =
      All-map (λ e'. saw (e.id ∷ s.seen) e'.id ≡ false) (λ e'. saw s.seen e'.id ≡ false) es
        (λ e' h. ground (arith, h)) p.unseen;
  once = p.once;
  drops = omega (arith, p.drops);
  keeps_seen = λ id h. p.keeps_seen id (ground (arith, h));
  shown_seen = p.shown_seen;
  exact = λ same id. absurd (omega (arith, p.drops, same));
  handled = (p.keeps_seen e.id (ground (arith, eq_iff e.id e.id)), p.handled);
}

saw-append : (xs ys : List MemoryId) (id : MemoryId) → saw (xs ++ ys) id ≡ (saw xs id || saw ys id)
saw-append [] ys id = refl
saw-append (x ∷ xs) ys id = ground (arith, saw-append xs ys id)

-- What is seen once an entry is written.
abbrev seen_with : Bool → List MemoryId → Entry → List MemoryId
seen_with roll_up seen e = if roll_up then e.covers ++ e.id ∷ seen else e.id ∷ seen

seen_with_lem :
    (roll_up : Bool) (seen : List MemoryId) (e : Entry) (id : MemoryId)
    → saw (seen_with roll_up seen e) id
      ≡ ((str_eq e.id id || (roll_up && saw e.covers id)) || saw seen id)
seen_with_lem true seen e id = ground (arith, saw-append e.covers (e.id ∷ seen) id)
seen_with_lem false seen e id = ground arith

-- An id that was seen is the id of no entry that was not.
pub not_shown :
    (seen : List MemoryId) (id : MemoryId) (es : List Entry)
    → saw seen id ≡ true
    → All (λ e. saw seen e.id ≡ false) es
    → saw (shown_ids es) id ≡ false
not_shown seen id [] h a = refl
not_shown seen id (e ∷ es) h a =
    let later = not_shown seen id es h a.1 in
    elim (Bool-cases (str_eq e.id id)) [
      | inl same ↦ absurd (ground (arith, eq_iff e.id id, a.0))
      | inr other ↦ ground (arith, later)
    ]

written_text :
    (text heading : Text) (cost : ℕ) (e : Entry) (es : List Entry)
    → ((text ++ due heading cost) ++ line e) ++ block heading 0 es
      ≡ text ++ (due heading cost ++ lines (e ∷ es))
unfolding lines
written_text text heading cost e es =
    rw
      (
        block-zero heading es,
        append_assoc (text ++ due heading cost) (line e) (lines es),
        append_assoc text (due heading cost) (line e ++ lines es),
      )
      refl

written_out :
    (budget : ℕ) (heading : Text) (roll_up : Bool) (s t : State) (e : Entry)
    (entries es : List Entry)
    → saw s.seen e.id ≡ false
    → s.used + (s.header_cost + length (line e)) ≤ budget
    → Placed budget heading roll_up
        (record s {
          text = (s.text ++ due heading s.header_cost) ++ line e;
          used = s.used + (s.header_cost + length (line e));
          seen = seen_with roll_up s.seen e;
          header_cost = 0;
        })
        t
        entries
        es
    → Placed budget heading roll_up s t (e ∷ entries) (e ∷ es)
unfolding block Once
written_out budget heading roll_up s t e entries es new room p =
    let seen1 = seen_with roll_up s.seen e in
    let marked : saw seen1 e.id ≡ true =
      ground (arith, seen_with_lem roll_up s.seen e e.id, eq_iff e.id e.id) in
    let here = p.keeps_seen e.id marked in
    record {
      taken = Sublistᴰ.cons-cons refl p.taken;
      counted = p.counted;
      text = p.text ∙ written_text s.text heading s.header_cost e es;
      fits = omega (arith, p.fits, room);
      unseen = (
        new,
        All-map (λ e'. saw seen1 e'.id ≡ false) (λ e'. saw s.seen e'.id ≡ false) es
            (λ e' h. ground (arith, h, seen_with_lem roll_up s.seen e e'.id)) p.unseen,
      );
      once = (not_shown seen1 e.id es marked p.unseen, p.once);
      drops = p.drops;
      keeps_seen = λ id h. p.keeps_seen id (ground (arith, h, seen_with_lem roll_up s.seen e id));
      shown_seen = (here, p.shown_seen);
      exact = λ same id. ground (arith, p.exact same id, seen_with_lem roll_up s.seen e id);
      handled = (here, p.handled);
    }

-- The loop over a section's entries writes some of them, once each, within the budget.
pub place_all_lem :
    (budget : ℕ) (heading : Text) (roll_up : Bool) (s : State) (entries : List Entry)
    → Counted heading s
    → (es : List Entry) × Placed budget heading roll_up s
        (place_all budget heading roll_up s entries)
        entries
        es
unfolding place_all
place_all_lem budget heading roll_up s [] c = ([], nothing-Placed budget heading roll_up s c)
place_all_lem budget heading roll_up s (e ∷ entries) c = elim (round budget heading roll_up s e) [
  | again h r ↦
      let (es, p) = place_all_lem budget heading roll_up s entries c in
      (es, rw r (passed_by budget heading roll_up s _ e entries es h p))
  | too_long h r ↦
      let s1 = record s { seen = e.id ∷ s.seen; dropped = s.dropped + 1 } in
      let (es, p) =
        place_all_lem budget heading roll_up s1 entries
          (record { measured = c.measured; charged = c.charged }) in
      (es, rw r (left_out budget heading roll_up s _ e entries es p))
  | written h room r ↦
      let s1 = record s {
        text = (s.text ++ due heading s.header_cost) ++ line e;
        used = s.used + (s.header_cost + length (line e));
        seen = seen_with roll_up s.seen e;
        header_cost = 0;
      } in
      let counts : s1.used ≡ length s1.text = omega (
        arith,
        length-append (s.text ++ due heading s.header_cost) (line e),
        length-append s.text (due heading s.header_cost),
        c.measured,
        c.charged,
      ) in
      let (es, p) =
        place_all_lem budget heading roll_up s1 entries
          (record { measured = counts; charged = refl }) in
      (e ∷ es, rw r (written_out budget heading roll_up s _ e entries es h room p))
]
