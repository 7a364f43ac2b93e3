-- ===== src/Remember/Embedded.antt =====
-- The one embedding pass of tools/remember.rs: `embed`.
use agmem.Prelude.{
  ◌+◌, ◌≡◌, refl, ap, ap₂, ◌∙◌, true, false, Option, none, some, List, [], ◌∷◌, ◌++◌, map, length,
  length-map, length-append, take, drop, arith, Bool-cases, inl, inr, ◌==◌, ==_iff,
}
use agmem.Model.{Text}
use agmem.Float.{Float}
use agmem.Service.{done}
use agmem.Store.{NewMemory, NewChunk, NewEpisode}
use agmem.Remember.{Writing}
use agmem.Remember.Validate.{no_texts}
use agmem.Remember.Gate.{
  Entries, chunks_of, passages, embed_memory, embed_chunk, fill, with_chunks, assign_all, embed,
}

module _ {F A : Type 0} (f : Text → List F) (text : A → Text) (g : A → List F → A) where
  fill_front :
      (xs : List A) (others : List Text)
      → fill g xs (take (length xs) (map f (map text xs ++ others)))
        ≡ map (λ x. g x (f (text x))) xs
  fill_front [] others = refl
  fill_front (x ∷ xs) others = ap (◌∷◌ (g x (f (text x)))) (fill_front xs others)

  drop_front :
      (xs : List A) (others : List Text)
      → drop (length xs) (map f (map text xs ++ others)) ≡ map f others
  drop_front [] others = refl
  drop_front (x ∷ xs) others = drop_front xs others

  fill_all : (xs : List A) → fill g xs (map f (map text xs)) ≡ map (λ x. g x (f (text x))) xs
  fill_all [] = refl
  fill_all (x ∷ xs) = ap (◌∷◌ (g x (f (text x)))) (fill_all xs)

  blank_fill : (xs : List A) → no_texts (map text xs) ≡ true → xs ≡ map (λ x. g x (f (text x))) xs
  blank_fill [] h = refl
  blank_fill (x ∷ xs) h = absurd (ground (arith, h))

module _ {F Time : Type 0} (f : Text → List F) where
  -- Each claim with the vector of its content and each chunk with that of its text.
  abbrev pub embedded_each : Entries F Time → Entries F Time
  embedded_each entries = record {
    memories = map (λ (m : NewMemory F Time). embed_memory m (f m.content)) entries.memories;
    episode =
        with_chunks entries.episode
          (map (λ (c : NewChunk F). embed_chunk c (f c.text)) (chunks_of entries.episode));
  }

  blank_each :
      (ms : List (NewMemory F Time)) (e : Option (NewEpisode F Time))
      → no_texts (passages (record { memories = ms; episode = e })) ≡ true
      → record { memories = ms; episode = e }
        ≡ embedded_each (record { memories = ms; episode = e })
  blank_each (m ∷ ms) e h = absurd (ground (arith, h))
  blank_each [] none h = refl
  blank_each [] (some e) h =
      ap (λ cs. record { memories = []; episode = some (record e { chunks = cs }) })
        (blank_fill f (λ (c : NewChunk F). c.text) embed_chunk e.chunks h)

  assign_each :
      (entries : Entries F Time)
      → assign_all entries (map f (passages entries)) ≡ done (embedded_each entries)
  assign_each entries =
      let content = λ (m : NewMemory F Time). m.content in
      let text = λ (c : NewChunk F). c.text in
      let chunks = chunks_of entries.episode in
      let size : (length (map f (passages entries)) == length entries.memories + length chunks)
          ≡ true =
        (==_iff _ _).1 (
          omega (
            arith,
            length-map (passages entries) f,
            length-append (map content entries.memories) (map text chunks),
            length-map entries.memories content,
            length-map chunks text,
          )) in
      let others = map text chunks in
      rw size (
        ap₂ (λ ms cs. done (record { memories = ms; episode = with_chunks entries.episode cs }))
          (fill_front f content embed_memory entries.memories others)
          (ap (fill embed_chunk chunks) (drop_front f content embed_memory entries.memories others)
            ∙ fill_all f text embed_chunk chunks))

module _ {fl : Float} {Time : Type 0} (writing : Writing fl Time) (f : Text → List fl.F) where
  -- With an embedder that gives each passage the vector `f`, one pass gives each claim the vector of
  -- its own content and each chunk of the episode that of its own text.
  pub embed_each :
      (entries : Entries fl.F Time)
      → (writing.dim == 0) ≡ false
      → ((texts : List Text) → writing.embed_passages texts ≡ done (map f texts))
      → embed writing entries ≡ done (embedded_each f entries)
  unfolding embed
  embed_each entries on gives = elim (Bool-cases (no_texts (passages entries))) [
    | inl blank ↦ rw (on, blank) (ap done (blank_each f entries.memories entries.episode blank))
    | inr texts ↦ rw (on, texts, gives (passages entries)) (assign_each f entries)
  ]
