-- ===== src/Forget/Chains.antt =====
-- What a purge takes along: `cascade_documents` and `expand_chains` of
-- crates/agmem-server/src/tools/forget.rs.
use agmem.Prelude.{
  String, Bool, true, false, ◌&&◌, not, Option, some, List, [], ◌∷◌, ◌++◌, map, keep_if,
  if◌then◌else◌,
}
use agmem.Model.{SpaceName, EpisodeId, MemoryRecord, is_document}
use agmem.Service.{Outcome, done, failed, invalid_about, ◌>>=◌}
use agmem.Forget.{ForgetStore, found, unknown, broken, Read, Target, seen}

-- `.map_err(store_error)` on a read by id.
abbrev pub read_or_fail : {A : Type 0} → String → Read A → Outcome A
read_or_fail id (found a) = done a
read_or_fail id unknown = failed (invalid_about "no such memory" (id ∷ []))
read_or_fail id (broken e) = failed e

module _ {F Time : Type 0} (store : ForgetStore F Time) where
  abbrev pub pull : SpaceName → EpisodeId → MemoryRecord F Time → Target F Time
  pull space id r = Target.memory space r (some id)

  -- The citers that are no targets yet.
  abbrev pub fresh_citers :
      List (Target F Time)
      → List (Target F Time)
      → List (MemoryRecord F Time)
      → List (MemoryRecord F Time)
  fresh_citers targets pulled citers =
      keep_if (λ c. not (seen targets c.id) && not (seen pulled c.id)) citers

  abbrev claim_id : MemoryRecord F Time → String
  claim_id r = r.id

  -- One document's citers: none of them, a refusal that names them, or the claims pulled in.
  abbrev pub pull_citers :
      Bool
      → SpaceName
      → EpisodeId
      → List (Target F Time)
      → List (MemoryRecord F Time)
      → Outcome (List (Target F Time))
  pull_citers cascade space id pulled [] = done pulled
  pull_citers cascade space id pulled (c ∷ cs) =
      if cascade
      then done (pulled ++ map (pull space id) (c ∷ cs))
      else failed (invalid_about "live claims still cite the document" (id ∷ map claim_id (c ∷ cs)))

  -- The loop over the targets, with the claims pulled in so far.
  unfoldable pub cascade_from :
      Bool
      → List (Target F Time)
      → List (Target F Time)
      → List (Target F Time)
      → Outcome (List (Target F Time))
  cascade_from cascade targets pulled [] = done pulled
  cascade_from cascade targets pulled (Target.memory space r from ∷ rest) =
      cascade_from cascade targets pulled rest
  cascade_from cascade targets pulled (Target.episode space detail ∷ rest) =
      elim (is_document detail.episode) [
        | false ↦ cascade_from cascade targets pulled rest
        | true ↦ do
          citers ← store.document_citers space detail.episode.id
          pulled2 ←
              pull_citers cascade space detail.episode.id pulled
                (fresh_citers targets pulled citers)
          cascade_from cascade targets pulled2 rest
      ]

  unfoldable pub cascade_documents : List (Target F Time) → Bool → Outcome (List (Target F Time))
  cascade_documents targets cascade =
      cascade_from cascade targets [] targets >>= λ pulled. done (targets ++ pulled)

  -- The loop over the links of one chain.
  unfoldable pub add_links :
      SpaceName
      → Option EpisodeId
      → List (Target F Time)
      → List (MemoryRecord F Time)
      → List (Target F Time)
  add_links space from expanded [] = expanded
  add_links space from expanded (link ∷ chain) =
      add_links space from
        (if seen expanded link.id then expanded else expanded ++ Target.memory space link from ∷ [])
        chain

  unfoldable pub expand_from :
      List (Target F Time) → List (Target F Time) → Outcome (List (Target F Time))
  expand_from expanded [] = done expanded
  expand_from expanded (Target.episode space detail ∷ targets) =
      expand_from (expanded ++ Target.episode space detail ∷ []) targets
  expand_from expanded (Target.memory space r from ∷ targets) = do
    chain ← read_or_fail r.id (store.history_chain space r.id)
    expand_from (add_links space from expanded chain) targets

  unfoldable pub expand_chains : List (Target F Time) → Outcome (List (Target F Time))
  expand_chains targets = expand_from [] targets

  -- A purge takes a claim's whole history, and with `cascade` the claims that cite a document.
  unfoldable pub expand : Bool → Bool → List (Target F Time) → Outcome (List (Target F Time))
  expand purge cascade targets =
      if purge
      then (cascade_documents targets cascade >>= λ cascaded. expand_chains cascaded)
      else done targets
