-- ===== src/Reflect/Cited.antt =====
-- The citations that `resolve` of tools/reflect.rs makes.
use agmem.Prelude.{
  suc, ◌<◌, ◌≡◌, refl, sym, ap, subst, ◌∙◌, String, Bool, true, false, ◌||◌, Option, none, some,
  List, [], ◌∷◌, ◌++◌, map, any, length, arith, length-map, str_eq, eq_iff, Bool-cases, inl, inr,
}
use agmem.Model.{SpaceName, Derivation, memory, episode, Writer}
use agmem.Service.{done, bind_lift, if_lift, failed_not, done_inj, both}
use agmem.Float.{Float}
use agmem.Store.{got}
use agmem.Remember.Accounts.{any-append}
use agmem.Remember.Answer.{stored_got}
use agmem.Remember.Validate.{no_texts}
use agmem.Remember.Request.{stored}
use agmem.Reflect.{
  Reflecting, asked_one, asked_all, derivation_eq, cites, table_of, check_table, located,
  add_citation, cite_all, id_asked, resolve,
}

pub derivation_eq_refl : (d : Derivation) → derivation_eq d d ≡ true
derivation_eq_refl (memory id) = (eq_iff id id).1 refl
derivation_eq_refl (episode id) = (eq_iff id id).1 refl

derivation_eq-eq : (d e : Derivation) → derivation_eq d e ≡ true → d ≡ e
derivation_eq-eq (memory a) (memory b) h = ap memory ((eq_iff a b).0 h)
derivation_eq-eq (memory a) (episode b) h = absurd (ground (arith, h))
derivation_eq-eq (episode a) (memory b) h = absurd (ground (arith, h))
derivation_eq-eq (episode a) (episode b) h = ap episode ((eq_iff a b).0 h)

derivation_eq_swap : (d e : Derivation) → derivation_eq d e ≡ derivation_eq e d
derivation_eq_swap (memory a) (memory b) = ground (arith, eq_iff a b, eq_iff b a)
derivation_eq_swap (memory a) (episode b) = refl
derivation_eq_swap (episode a) (memory b) = refl
derivation_eq_swap (episode a) (episode b) = ground (arith, eq_iff a b, eq_iff b a)

-- The slot holds the row.
abbrev pub holds : Derivation → Option Derivation → Bool
holds d none = false
holds d (some e) = derivation_eq e d

-- A row that the caller's prefix, if there is one, does not contradict.
abbrev pub Fits : Option String → Derivation → Type 0
Fits none d = Unit
Fits (some table) d = table ≡ table_of d

-- Every id asked for was found, in the table that it was asked in.
abbrev pub Matched : List (String × Option String) → List (Option Derivation) → Type 0
Matched [] found = Unit
Matched ((id, claimed) ∷ asked) [] = ⊥
Matched ((id, claimed) ∷ asked) (none ∷ found) = ⊥
Matched ((id, claimed) ∷ asked) (some d ∷ found) = Fits claimed d × Matched asked found

-- No citation stands twice.
abbrev pub Once : List Derivation → Type 0
Once [] = Unit
Once (d ∷ ds) = (cites ds d ≡ false) × Once ds

add_citation-Once :
    (cited : List Derivation) (d : Derivation) → Once cited → Once (add_citation cited d)
add_citation-Once cited d h = elim (Bool-cases (cites cited d)) [
  | inl e ↦ rw e h
  | inr e ↦ rw e (at_end cited h e)
]
  where
    at_end : (cs : List Derivation) → Once cs → cites cs d ≡ false → Once (cs ++ d ∷ [])
    at_end [] k out = (refl, tt)
    at_end (c ∷ cs) k out = (
      any-append (λ x. derivation_eq x c) cs (d ∷ [])
          ∙ ground (arith, k.0, out, derivation_eq_swap d c),
      at_end cs k.1 (ground (arith, out)),
    )

add_citation-cites :
    (cited : List Derivation) (d e : Derivation)
    → cites (add_citation cited d) e ≡ (cites cited e || derivation_eq d e)
add_citation-cites cited d e = elim (Bool-cases (cites cited d)) [
  | inl h ↦ rw h (elim (Bool-cases (derivation_eq d e)) [
    | inl q ↦
        let here : cites cited e ≡ true =
          subst (λ x. cites cited x ≡ true) (derivation_eq-eq d e q) h in
        ground (arith, here)
    | inr q ↦ ground (arith, q)
  ])
  | inr h ↦ rw h (any-append (λ c. derivation_eq c e) cited (d ∷ []) ∙ ground arith)
]

-- What the loop over the slots has done.
record Cited (asked : List (String × Option String)) (found : List (Option Derivation))
    (cited out : List Derivation) : Type 0 where
  matched : Matched asked found
  once : Once out
  exact : (e : Derivation) → cites out e ≡ (cites cited e || any (holds e) found)

located_lem :
    (names : List SpaceName) (id : String) (o : Option Derivation) (d : Derivation)
    → located names id o ≡ done d
    → o ≡ some d
located_lem names id none d h = failed_not _ d h
located_lem names id (some e) d h = ap some (done_inj e d h)

check_table_lem :
    (id : String) (claimed : Option String) (d : Derivation)
    → check_table id claimed d ≡ done tt
    → Fits claimed d
unfolding check_table
check_table_lem id none d h = tt
check_table_lem id (some table) d h =
    if_lift (λ _. table ≡ table_of d) (str_eq table (table_of d)) _ _ tt h
      (λ same kept. (eq_iff table (table_of d)).0 same) (λ other. failed_not _ tt)

cite_all-Cited :
    (names : List SpaceName) (asked : List (String × Option String))
    (found : List (Option Derivation)) (cited out : List Derivation)
    → length found ≡ length asked
    → Once cited
    → cite_all names asked found cited ≡ done out
    → Cited asked found cited out
unfolding cite_all
cite_all-Cited names [] (o ∷ found) cited out l once h = absurd (omega (arith, l))
cite_all-Cited names [] [] cited out l once h =
    subst (Cited [] [] cited) (done_inj cited out h)
      (record { matched = tt; once = once; exact = λ e. ground arith })
cite_all-Cited names ((id, claimed) ∷ asked) [] cited out l once h = absurd (omega (arith, l))
cite_all-Cited names ((id, claimed) ∷ asked) (o ∷ found) cited out l once h =
    let All_cited = Cited ((id, claimed) ∷ asked) (o ∷ found) cited in
    bind_lift All_cited (located names id o) _ out h (λ d here rest.
      bind_lift All_cited (check_table id claimed d) _ out rest (λ _ fits more.
        let tail =
          cite_all-Cited names asked found (add_citation cited d) out (omega (arith, l))
            (add_citation-Once cited d once) more in
        let slot = located_lem names id o d here in
        subst (λ x. Cited ((id, claimed) ∷ asked) (x ∷ found) cited out) (sym slot)
          (record {
            matched = (check_table_lem id claimed d fits, tail.matched);
            once = tail.once;
            exact = λ e. ground (arith, tail.exact e, add_citation-cites cited d e);
          })))

asked_all-length :
    (raws : List String) (asked : List (String × Option String))
    → asked_all raws ≡ done asked
    → length asked ≡ length raws
unfolding asked_all
asked_all-length [] asked h = ap length (sym (done_inj [] asked h))
asked_all-length (raw ∷ rest) asked h =
    let P = λ (xs : List (String × Option String)). length xs ≡ suc (length rest) in
    bind_lift P (asked_one raw) _ asked h (λ one _ more.
      bind_lift P (asked_all rest) _ asked more (λ others all last.
        ap length (sym (done_inj _ asked last)) ∙ ap suc (asked_all-length rest others all)))

holds_one : (out : List Derivation) (d : Derivation) → cites out d ≡ true → 0 < length out
holds_one [] d h = absurd (ground (arith, h))
holds_one (e ∷ out) d h = omega arith

some_cited :
    (asked : List (String × Option String)) (found : List (Option Derivation))
    (out : List Derivation)
    → Matched asked found
    → 0 < length asked
    → ((d : Derivation) → cites out d ≡ any (holds d) found)
    → 0 < length out
some_cited [] found out m h e = absurd (omega (arith, h))
some_cited ((id, claimed) ∷ asked) [] out m h e = elim m [ ]
some_cited ((id, claimed) ∷ asked) (none ∷ found) out m h e = elim m [ ]
some_cited ((id, claimed) ∷ asked) (some d ∷ found) out m h e =
    holds_one out d (e d ∙ ground (arith, derivation_eq_refl d))

has_some : (raws : List String) → no_texts raws ≡ false → 0 < length raws
has_some [] h = absurd (ground (arith, h))
has_some (raw ∷ raws) h = omega arith

module _ {fl : Float} {Time : Type 0} (reflecting : Reflecting fl Time) (writer : Writer) where
  -- With a store that answers one slot for each id that is looked up, of citations that are accepted:
  -- there is an answer of the store for the ids asked for in which each
  -- id has a row, of the table that its prefix names if it has one, and the citations are these rows,
  -- each once.
  pub resolve_exact :
      (space : SpaceName) (requested : List String) (cited : List Derivation)
      → ((names : List SpaceName) (ids : List String) (slots : List (Option Derivation))
          → reflecting.locate names ids ≡ got slots
          → length slots ≡ length ids)
      → resolve reflecting writer space requested ≡ done cited
      → (asked : List (String × Option String)) × (asked_all requested ≡ done asked)
        × (found : List (Option Derivation)) × (reflecting.locate (both space) (map id_asked asked)
            ≡ got found)
        × Matched asked found
        × Once cited
        × ((d : Derivation) → cites cited d ≡ any (holds d) found)
        × (0 < length cited)
  unfolding resolve
  resolve_exact space requested cited one_each h =
      let Result = λ (cs : List Derivation).
        (asked : List (String × Option String)) × (asked_all requested ≡ done asked)
        × (found : List (Option Derivation)) × (reflecting.locate (both space) (map id_asked asked)
            ≡ got found)
        × Matched asked found
        × Once cs
        × ((d : Derivation) → cites cs d ≡ any (holds d) found)
        × (0 < length cs) in
      let message = reflecting.writing.message in
      if_lift Result (no_texts requested) _ _ cited h (λ nothing. failed_not _ cited)
        (λ something rest. bind_lift Result (asked_all requested) _ cited rest (λ asked reads h1.
          let ids = map id_asked asked in
          bind_lift Result (stored message (reflecting.locate (both space) ids)) _ cited h1
            (λ found answers h2.
              let told = stored_got message (reflecting.locate (both space) ids) found answers in
              let size = one_each (both space) ids found told ∙ length-map asked id_asked in
              let c = cite_all-Cited (both space) asked found [] cited size tt h2 in
              let many = has_some requested something in
              (
                asked,
                reads,
                found,
                told,
                c.matched,
                c.once,
                c.exact,
                some_cited asked found cited c.matched
                    (omega (arith, many, asked_all-length requested asked reads)) c.exact,
              ))))
