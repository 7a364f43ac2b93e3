-- ===== src/Remember/Request.antt =====
-- `run` of crates/agmem-server/src/tools/remember.rs, and `store_error` of tools/mod.rs.
use agmem.Prelude.{
  range, ℕ, suc, ◌&&◌, not, Bool, true, false, String, Option, none, some, List, [], ◌∷◌, ◌++◌, map,
  length, get_elem?, any, str_eq, ◌==◌, leb, keep_if, is_some, if◌then◌else◌,
}
use agmem.Model.{Text, SpaceName, MemoryId, EpisodeId, DocKind, transcript, Writer}
use agmem.Service.{Outcome, done, failed, ErrorData, invalid, internal, user, ◌>>=◌}
use agmem.Sort.{sort_by}
use agmem.Store.{
  NewMemory, NewEpisode, Batch, BatchOutcome, Written, created, duplicate, into_id, StoreError,
  unknown_memory, Stored, got, lost,
}
use agmem.Store.Insert.{insert_batch}
use agmem.Float.{Float}
use agmem.Remember.{Duplicate, Related, Writing, EpisodeInput, RememberParams, RememberResult}
use agmem.Remember.Validate.{no_texts, validated_all, validated_episode, resolve_space}
use agmem.Remember.Gate.{Entries, GateState, embed, gated_from, probes, unmeasured, gate}

unfoldable pub store_error : (StoreError → String) → StoreError → ErrorData
store_error message (unknown_memory space id) = invalid (message (unknown_memory space id))
store_error message other = internal (message other)

abbrev pub stored : {A : Type 0} → (StoreError → String) → Stored A → Outcome A
stored message (got a) = done a
stored message (lost e) = failed (store_error message e)

-- `blocked[index]`
abbrev pub is_blocked : List Bool → ℕ → Bool
is_blocked blocked i = elim (get_elem? blocked i) [ none ↦ false | some b ↦ b ]

abbrev pub text_at : List Text → ℕ → Text
text_at sent of = elim (get_elem? sent of) [ none ↦ [] | some text ↦ text ]

module _ {F : Type 0} where
  abbrev pub by_place : Duplicate F → Duplicate F → Bool
  by_place a b = leb a.of b.of

  abbrev pub by_related_place : Related F → Related F → Bool
  by_related_place a b = leb a.of b.of

  -- A duplicate that stands for the claim at `i`.
  abbrev pub covered : List (Duplicate F) → ℕ → Bool
  covered duplicates i = any (λ d. d.of == i) duplicates

  abbrev pub still_related : List (Duplicate F) → List (Related F) → List (Related F)
  still_related duplicates related = keep_if (λ r. not (covered duplicates r.of)) related

-- What the diff has told apart so far.
pub record Diff (F : Type 0) : Type 0 where
  pub created : List String
  pub duplicates : List (Duplicate F)

module _ (fl : Float) where
  open fl use {F}

  abbrev pub account : List Text → ℕ → Written MemoryId → Diff F → Diff F
  account sent of (created id) d = record d { created = d.created ++ id ∷ [] }
  account sent of (duplicate id) d = record d {
    duplicates =
        d.duplicates
        ++ record { id = id; of = of; content = text_at sent of; similarity = fl.ratio 1 1 } ∷ [];
  }

  -- The store's reports from the one at `position` on; `kept` are the places that were sent.
  unfoldable pub diff : List ℕ → List Text → ℕ → List (Written MemoryId) → Diff F → Outcome (Diff F)
  diff kept sent position [] d = done d
  diff kept sent position (w ∷ outcomes) d = elim (get_elem? kept position) [
    | none ↦ failed (internal "the store reported a memory the batch did not carry")
    | some of ↦ diff kept sent (suc position) outcomes (account sent of w d)
  ]

abbrev is_transcript : Option DocKind → Bool
is_transcript (some transcript) = true
is_transcript kind = false

abbrev pub episode_id : Option (Written EpisodeId) → Option String
episode_id none = none
episode_id (some w) = some (into_id w)

module _ {F : Type 0} where
  abbrev pub only_duplicates : List (Duplicate F) → RememberResult F
  only_duplicates duplicates = record {
    created = [];
    duplicates = sort_by by_place duplicates;
    related = [];
    superseded = [];
    already_closed = [];
    episode = none;
  }

  abbrev pub answer : List (Related F) → BatchOutcome → Diff F → RememberResult F
  answer related outcome d =
      let duplicates = sort_by by_place d.duplicates in
      record {
        created = d.created;
        duplicates = duplicates;
        related = sort_by by_related_place (still_related duplicates related);
        superseded = outcome.superseded;
        already_closed = outcome.already_closed;
        episode = episode_id outcome.episode;
      }

module _ {F Time : Type 0} where
  -- `zip(&blocked)` and `filter`
  abbrev pub unblocked : List (NewMemory F Time) → List Bool → List (NewMemory F Time)
  unblocked [] blocked = []
  unblocked (m ∷ memories) [] = []
  unblocked (m ∷ memories) (b ∷ blocked) =
      let rest = unblocked memories blocked in if b then rest else m ∷ rest

  abbrev pub is_transcript_episode : Option (NewEpisode F Time) → Bool
  is_transcript_episode none = false
  is_transcript_episode (some episode) = is_transcript episode.doc_kind

module _ {fl : Float} {Time : Type 0} (writing : Writing fl Time) (writer : Writer) where
  open fl use {F}

  abbrev pub validated_maybe : Option EpisodeInput → Outcome (Option (NewEpisode F Time))
  validated_maybe none = done none
  validated_maybe (some input) = validated_episode writing input >>= λ e. done (some e)

  -- The transaction and the diff, after the gate.
  unfoldable pub send :
      SpaceName → Option (NewEpisode F Time) → GateState F Time → Outcome (RememberResult F)
  send space episode s =
      let sent = map (λ (m : NewMemory F Time). m.content) s.memories in
      let kept = keep_if (λ i. not (is_blocked s.blocked i)) (range 0 (length s.memories)) in
      let memories = unblocked s.memories s.blocked in
      let batch : Batch F Time = record {
        space = space;
        episode = episode;
        memories = memories;
        writer = writer;
      } in
      if no_texts memories && not (is_some episode)
      then done (only_duplicates s.duplicates)
      else (do
        outcome ← stored writing.message (insert_batch writing.engine batch)
        d ←
            diff fl kept sent 0 outcome.memories
              (record { created = []; duplicates = s.duplicates })
        done (answer s.related outcome d))

  -- The claims and the episode are valid: embed them, gate the claims and write.
  unfoldable pub write : SpaceName → Entries F Time → Outcome (RememberResult F)
  write space entries = do
    embedded ← embed writing entries
    let memories = embedded.memories
    let gated = gated_from 0 memories
    found ← stored writing.message (writing.nearest_live space (probes memories gated))
    send space embedded.episode (gate writing.thresholds gated found (unmeasured memories))

  abbrev pub admitted : SpaceName → Entries F Time → Outcome (RememberResult F)
  admitted space entries =
      if str_eq space user && is_transcript_episode entries.episode
      then failed (invalid "a transcript is refused in the `user` space")
      else write space entries

  unfoldable pub run : RememberParams → Outcome (RememberResult F)
  run params = do
    space ← resolve_space writing params.space
    if no_texts params.memories && not (is_some params.episode)
        then failed (invalid "nothing to remember: send at least one memory, or an episode")
        else (do
          memories ← validated_all writing 0 params.memories
          episode ← validated_maybe params.episode
          admitted space (record { memories = memories; episode = episode }))
