-- ===== src/Model/Citation.antt =====
-- A `Derivation` and its text (crates/agmem-core/src/model.rs) determine each other.
use Prim.Native.Char.{Char, code}
use Prim.Native.String.{[], ◌∷◌, ◌++◌}
use text.Mathlib.TextEquality.{Char-path}
use text.Mathlib.TextLemmas.{nil-append, cons-append, append_assoc}
use agmem.Prelude.{
  ◌≡◌, refl, sym, ap, ◌∙◌, ◌↔◌, String, Bool, true, false, some, arith, ◌==◌, eq_iff, if◌then◌else◌,
  ==_iff, Bool-cases, Option-cases, inl, inr,
}
use agmem.Model.{ok, Derivation, memory}
use agmem.Model.Names.{is_ulid, new_id, split_once, derivation_to_string, derivation_from_str}

-- No character of the text is a colon.
colon_free : String → Bool
colon_free [] = true
colon_free (c ∷ s) = if code c == b':' then false else colon_free s

split_once-append :
    (p q : String) → colon_free p ≡ true → split_once (p ++ (":" ++ q)) ≡ some (p, q)
unfolding split_once colon_free
split_once-append [] q h = rw nil-append (rw (cons-append, nil-append))
split_once-append (c ∷ p) q h = elim (Bool-cases (code c == b':')) [
  | inl e ↦ absurd (ground arith)
  | inr e ↦ rw cons-append (rw e (rw (split_once-append p q (ground arith))))
]

abbrev colon : Char
colon = ":"

is_colon : (c : Char) → (code c == b':') ≡ true → c ≡ colon
is_colon c e = Char-path c colon ((==_iff (code c) b':').0 e)

-- What is split off is the text before a colon and the text after it.
split_once_sound : (s p q : String) → split_once s ≡ some (p, q) → s ≡ p ++ (":" ++ q)
unfolding split_once
split_once_sound [] p q h = cc
split_once_sound (c ∷ s) p q h = elim (Bool-cases (code c == b':')) [
  | inl e ↦
      let first : p ≡ "" = ground arith in
      let after : q ≡ s = ground arith in
      rw (first, after, is_colon c e) (rw nil-append (rw (cons-append, nil-append)))
  | inr e ↦ elim (Option-cases (split_once s)) [
    | inl n ↦ absurd (ground arith)
    | inr ((head, tail), n) ↦
        let first : p ≡ c ∷ head = ground arith in
        let after : q ≡ tail = ground arith in
        rw (first, after, cons-append) (ap (◌∷◌ c) (split_once_sound s head tail n))
  ]
]

abbrev pub cited_id : Derivation → String
cited_id (memory id) = id
cited_id (Derivation.episode id) = id

written : Derivation → String
written (memory id) = "memory" ++ (":" ++ id)
written (Derivation.episode id) = "episode" ++ (":" ++ id)

derivation_to_string-eq : (d : Derivation) → derivation_to_string d ≡ written d
unfolding derivation_to_string written
derivation_to_string-eq (memory id) = append_assoc "memory" ":" id
derivation_to_string-eq (Derivation.episode id) = append_assoc "episode" ":" id

reads_back : (d : Derivation) → is_ulid (cited_id d) ≡ true → derivation_from_str (written d) ≡ ok d
unfolding derivation_from_str written new_id colon_free
reads_back (memory id) u = rw (split_once-append "memory" id refl, derivation_from_str) (rw u)
reads_back (Derivation.episode id) u =
    rw (split_once-append "episode" id refl, derivation_from_str) (rw u)

parsed :
    (s head id : String) (d : Derivation)
    → split_once s ≡ some (head, id)
    → derivation_from_str s ≡ ok d
    → (head ++ (":" ++ id) ≡ written d) × (is_ulid (cited_id d) ≡ true)
unfolding derivation_from_str written new_id
parsed s head id (memory i) n h =
    let tag : head ≡ "memory" = ground (arith, eq_iff head "memory") in
    let same : i ≡ id = ground arith in
    let checked : is_ulid id ≡ true = ground arith in (rw (tag, same), rw same checked)
parsed s head id (Derivation.episode i) n h =
    let tag : head ≡ "episode" = ground (arith, eq_iff head "episode") in
    let same : i ≡ id = ground arith in
    let checked : is_ulid id ≡ true = ground arith in (rw (tag, same), rw same checked)

-- A text parses to a citation exactly when it is the citation's own text and its id is a ULID.
pub derivation_exact :
    (s : String) (d : Derivation)
    → (derivation_from_str s ≡ ok d)
      ↔ ((s ≡ derivation_to_string d) × (is_ulid (cited_id d) ≡ true))
derivation_exact s d = (forward, λ e. rw (e.0, derivation_to_string-eq d) (reads_back d e.1))
  where
    forward :
        derivation_from_str s ≡ ok d → (s ≡ derivation_to_string d) × (is_ulid (cited_id d) ≡ true)
    forward h = elim (Option-cases (split_once s)) [
      | inl n ↦ absurd (unfold derivation_from_str in ground arith)
      | inr ((head, id), n) ↦
          let p = parsed s head id d n h in
          (split_once_sound s head id n ∙ p.0 ∙ sym (derivation_to_string-eq d), p.1)
    ]
