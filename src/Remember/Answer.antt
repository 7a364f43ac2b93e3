-- ===== src/Remember/Answer.antt =====
-- What an answer of `remember` accounts for: `run` of tools/remember.rs over `insert_batch`.
use agmem.Prelude.{
  range, str_eq, ℕ, suc, ◌+◌, ◌<◌, ◌≡◌, refl, sym, ap, subst, ◌∙◌, Bool, true, false, ◌&&◌, not,
  Option, String, List, [], ◌∷◌, length, get_elem?, arith, All, All-map, ◌==◌, keep_if, is_some,
}
use agmem.Model.{Text, SpaceName, Writer}
use agmem.Service.{invalid, user, done, bind_lift, done_inj, if_lift, failed_not}
use agmem.Sort.{sort_by, any-sort_by, All-sort_by}
use agmem.Float.{Float}
use agmem.Store.{NewMemory, NewEpisode, BatchOutcome, StoreError, Stored, got, lost}
use agmem.Store.Insert.{insert_batch}
use agmem.Remember.{Duplicate, Related, Writing, RememberParams, RememberResult, MemoryInput}
use agmem.Remember.Gate.{
  GateState, Entries, embed, gated_from, probes, gate, unmeasured, assign, fill, passages,
  chunks_of, embed_memory,
}
use agmem.Remember.Accounts.{Agree, unmeasured-Agree, gated-lt, gate-Agree}
use agmem.Remember.Validate.{no_texts, validated, validated_all, resolve_space}
use agmem.Remember.Settled.{uncovered, batch_reports, Open, diff_counts}
use agmem.Remember.Request.{
  is_transcript_episode, stored, is_blocked, covered, Diff, diff, unblocked, by_place,
  by_related_place, only_duplicates, answer, send, write, run, validated_maybe,
}
use agmem.Remember.Places.{
  keep-Distinct, range-Distinct, among-kept, keep_keep, kept-All, length-unblocked, keep_ext,
  kept_related,
}

-- Of the `n` claims sent, as many are created as no duplicate stands for, and a related claim is
-- reported only for one of these.
abbrev pub Accounted : {F : Type 0} → ℕ → RememberResult F → Type 0
Accounted n result =
    (length result.created ≡ length (uncovered result.duplicates (range 0 n)))
    × All (λ (r : Related _). covered result.duplicates r.of ≡ false) result.related

uncovered-sort_by :
    {F : Type 0} (ds : List (Duplicate F)) (xs : List ℕ)
    → uncovered (sort_by by_place ds) xs ≡ uncovered ds xs
uncovered-sort_by ds xs = keep_ext _ _ xs (λ i. ap not (any-sort_by by_place (λ d. d.of == i) ds))

none_left : {A : Type 0} (xs : List A) → no_texts xs ≡ true → length xs ≡ 0
none_left [] h = refl
none_left (x ∷ xs) h = absurd (ground (arith, h))

abbrev pub is_open : List Bool → ℕ → Bool
is_open marks i = not (is_blocked marks i)

module _ {F Time : Type 0} (s : GateState F Time) (n : ℕ) (books : Agree n s) where
  abbrev kept : List ℕ
  kept = keep_if (is_open s.blocked) (range 0 n)

  kept_size : length (unblocked s.memories s.blocked) ≡ length kept
  kept_size =
      length-unblocked s.blocked 0 s.memories s.blocked (books.0 ∙ sym books.1)
        (λ i. ap (is_blocked s.blocked) (omega arith))
      ∙ ap (λ k. length (keep_if (is_open s.blocked) (range 0 k))) books.1

  only_duplicates-Accounted :
      no_texts (unblocked s.memories s.blocked) ≡ true → Accounted n (only_duplicates s.duplicates)
  only_duplicates-Accounted h =
      let same : uncovered (sort_by by_place s.duplicates) (range 0 n) ≡ kept =
        uncovered-sort_by s.duplicates (range 0 n)
        ∙ keep_ext _ _ (range 0 n) (λ i. ap not (books.2 i)) in
      (sym (none_left _ h) ∙ kept_size ∙ sym (ap length same), tt)

  kept-Open : Open s.duplicates kept
  kept-Open =
      All-map (λ i. is_open s.blocked i ≡ true) (λ i. covered s.duplicates i ≡ false) kept
        (λ i h. ground (arith, h, books.2 i)) (kept-All (is_open s.blocked) (range 0 n))

module _ (fl : Float) {Time : Type 0} (s : GateState fl.F Time) (n : ℕ) (books : Agree n s) where
  open fl use {F}

  answer-Accounted :
      (sent : List Text) (outcome : BatchOutcome) (e : Diff F)
      → length outcome.memories ≡ length (unblocked s.memories s.blocked)
      → diff fl
          (kept s n books)
          sent
          0
          outcome.memories
          (record { created = []; duplicates = s.duplicates })
        ≡ done e
      → Accounted n (answer s.related outcome e)
  answer-Accounted sent outcome e l h =
      let (size, frame) =
        diff_counts fl (kept s n books) sent 0 (kept s n books) outcome.memories _ e
          (λ i. ap (get_elem? (kept s n books)) (omega arith)) (l ∙ kept_size s n books)
          (keep-Distinct _ (range 0 n) (range-Distinct 0 n)) (kept-Open s n books) h in
      let closed : (i : ℕ) → is_open s.blocked i ≡ false → not (covered e.duplicates i) ≡ false =
        λ i out.
          ground
            (arith, out, books.2 i, frame i (among-kept (is_open s.blocked) (range 0 n) i out)) in
      let same : uncovered e.duplicates (kept s n books) ≡ uncovered e.duplicates (range 0 n) =
        keep_keep (is_open s.blocked) _ (range 0 n) closed in
      (
        omega (arith, size, ap length same, ap length (uncovered-sort_by e.duplicates (range 0 n))),
        All-sort_by by_related_place _ _ (kept_related _ s.related),
      )

length-fill :
    {F A : Type 0} (f : A → List F → A) (xs : List A) (vs : List (List F))
    → length (fill f xs vs) ≡ length xs
length-fill f [] vs = refl
length-fill f (x ∷ xs) [] = refl
length-fill f (x ∷ xs) (v ∷ vs) = ap suc (length-fill f xs vs)

module _ {fl : Float} {Time : Type 0} (writing : Writing fl Time) where
  open fl use {F}

  -- The pass keeps the claims' number.
  abbrev Sized : ℕ → Entries F Time → Type 0
  Sized n entries = length entries.memories ≡ n

  same_done : (n : ℕ) (a b : Entries F Time) → Sized n a → done a ≡ done b → Sized n b
  same_done n a b h e = subst (Sized n) (done_inj a b e) h

  embed-Sized : (a b : Entries F Time) → embed writing a ≡ done b → Sized (length a.memories) b
  unfolding embed
  embed-Sized a b h =
      let n = length a.memories in
      if_lift (Sized n) (writing.dim == 0) _ _ b h (λ off. same_done n a b refl)
        (λ on rest.
          if_lift (Sized n) (no_texts (passages a)) _ _ b rest (λ blank. same_done n a b refl)
            (λ texts sent.
              bind_lift (Sized n) (writing.embed_passages (passages a)) _ b sent
                (λ vectors got_ whole.
                  if_lift (Sized n)
                    (length vectors == length a.memories + length (chunks_of a.episode)) _ _ b whole
                    (λ same.
                      same_done n (assign a vectors) b (length-fill embed_memory a.memories _))
                    (λ other. failed_not _ b))))

  validated_all-length :
      (k : ℕ) (inputs : List MemoryInput) (ms : List (NewMemory F Time))
      → validated_all writing k inputs ≡ done ms
      → length ms ≡ length inputs
  unfolding validated_all
  validated_all-length k [] ms h = ap length (sym (done_inj [] ms h))
  validated_all-length k (input ∷ inputs) ms h =
      bind_lift (λ ms. length ms ≡ suc (length inputs)) (validated writing k input) _ ms h
        (λ m _ h1.
          bind_lift (λ ms. length ms ≡ suc (length inputs)) (validated_all writing (suc k) inputs) _
            ms h1
            (λ rest all h2.
              ap length (sym (done_inj _ ms h2))
              ∙ ap suc (validated_all-length (suc k) inputs rest all)))

pub stored_got :
    {A : Type 0} (message : StoreError → String) (m : Stored A) (a : A)
    → stored message m ≡ done a
    → m ≡ got a
stored_got message (got b) a h = ap got (done_inj b a h)
stored_got message (lost e) a h = failed_not _ a h

module _ {fl : Float} {Time : Type 0} (writing : Writing fl Time) (writer : Writer) where
  open fl use {F}

  send-Accounted :
      (space : SpaceName) (episode : Option (NewEpisode F Time)) (s : GateState F Time)
      (result : RememberResult F)
      → Agree (length s.memories) s
      → send writing writer space episode s ≡ done result
      → Accounted (length s.memories) result
  unfolding send
  send-Accounted space episode s result books h =
      let n = length s.memories in
      if_lift (Accounted n) (no_texts (unblocked s.memories s.blocked) && not (is_some episode)) _ _
        result h
        (λ nothing e.
          subst (Accounted n) (done_inj _ result e)
            (only_duplicates-Accounted s n books (ground (arith, nothing))))
        (λ something rest.
          bind_lift (Accounted n) (stored writing.message (insert_batch writing.engine _)) _ result
            rest
            (λ outcome written_ told.
              bind_lift (Accounted n) (diff fl _ _ 0 outcome.memories _) _ result told
                (λ d parted e. subst (Accounted n) (done_inj _ result e) (
                  answer-Accounted fl s n books _ outcome d
                    (batch_reports writing.engine _ outcome
                      (stored_got writing.message _ outcome written_))
                    parted))))

  write-Accounted :
      (space : SpaceName) (entries : Entries F Time) (result : RememberResult F)
      → write writing writer space entries ≡ done result
      → Accounted (length entries.memories) result
  unfolding write
  write-Accounted space entries result h =
      let n = length entries.memories in
      bind_lift (Accounted n) (embed writing entries) _ result h (λ b embedded rest.
        bind_lift (Accounted n)
          (stored writing.message
            (writing.nearest_live space (probes b.memories (gated_from 0 b.memories))))
          _ result rest
          (λ found near told.
            let ms = b.memories in
            let s = gate writing.thresholds (gated_from 0 ms) found (unmeasured ms) in
            let size = embed-Sized writing entries b embedded in
            let books : Agree (length ms) s =
              gate-Agree writing.thresholds (length ms) (gated_from 0 ms) found (unmeasured ms)
                (All-map (λ i. i < 0 + length ms) (λ i. i < length ms) _
                  (λ (i : ℕ) (k : i < 0 + length ms). omega (arith, k)) (gated-lt 0 ms))
                (unmeasured-Agree ms) in
            subst (λ k. Accounted k result) (books.1 ∙ size)
              (send-Accounted space b.episode s result (subst (λ k. Agree k s) (sym books.1) books)
                told)))

  -- Every claim of an answered write is created or covered by a duplicate, never both: as many ids
  -- are created as there are claims that no reported duplicate names, and a related claim is reported
  -- only for a claim that was created.
  pub remember_accounts :
      (params : RememberParams) (result : RememberResult F)
      → run writing writer params ≡ done result
      → Accounted (length params.memories) result
  unfolding run
  remember_accounts params result h =
      let P = Accounted (length params.memories) in
      bind_lift P (resolve_space writing params.space) _ result h (λ space found rest.
        if_lift P (no_texts params.memories && not (is_some params.episode)) _ _ result rest
          (λ nothing. failed_not _ result)
          (λ something h1.
            bind_lift P (validated_all writing 0 params.memories) _ result h1 (λ ms valid h2.
              bind_lift P (validated_maybe writing writer params.episode) _ result h2
                (λ episode fine h3.
                  if_lift P (str_eq space user && is_transcript_episode episode) _ _ result h3
                    (λ refused. failed_not (invalid _) result)
                    (λ fits h4.
                      subst (λ k. Accounted k result)
                        (validated_all-length writing 0 params.memories ms valid)
                        (write-Accounted space (record { memories = ms; episode = episode }) result
                          h4))))))
