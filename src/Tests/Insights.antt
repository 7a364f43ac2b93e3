-- ===== src/Tests/Insights.antt =====
-- A reflection that tools/reflect.rs stores.
use agmem.Prelude.{
  ℕ, ◌<◌, ◌≡◌, refl, subst, String, true, Option, none, some, List, [], ◌∷◌, map, any, length,
  length-map,
}
use agmem.Model.{SpaceName, Derivation}
use agmem.Model.Names.{new_id, is_ulid, split_once, derivation_to_string}
use agmem.Words.{is_white}
use agmem.Words.Trim.{trim_str}
use agmem.Chunk.{trim_start, trim_end}
use agmem.Service.{done, both}
use agmem.Dedup.{novelty, is_near_duplicate, is_correction_candidate}
use agmem.Store.{got}
use agmem.Store.Insert.{
  contains_text, is_write_race, written, written_all, closes, superseded_by, settle,
  insert_batch_once, attempt, insert_batch,
}
use agmem.Remember.Validate.{resolve_space}
use agmem.Reflect.{
  Reflecting, ReflectParams, ReflectResult, asked_one, asked_all, check_table, cite_all, cites,
  id_asked, replaced, resolve, probe, send, conclude, run,
}
use agmem.Reflect.Cited.{holds, Matched, Once, resolve_exact}
use agmem.Reflect.Evidence.{Evident, run-Evident}
use agmem.Tests.Fixed.{Fixed, fixed, at}
use agmem.Tests.Writes.{first_id, old_id, past, writer, writing}

abbrev reflecting : Reflecting fixed ℕ
reflecting = record {
  writing = writing;
  locate = λ names ids. got (map (λ id. some (Derivation.memory id)) ids);
  history_chain = λ space id. none;
}

abbrev requested : List String
requested = "memory:01M145SMNET1XRYA713EWAQTD5" ∷ " 01M145SMNET1XRYA713EWAQTD5" ∷ []

abbrev params : ReflectParams
params = record {
  space = none;
  insight = 97 ∷ [];
  derived_from = requested;
  kind = none;
  entities = [];
  tags = [];
  supersedes = [];
}

abbrev answered : ReflectResult Fixed
answered = record {
  id = first_id;
  created = true;
  content = 97 ∷ [];
  derived_from = "memory:01M145SMNET1XRYA713EWAQTD5" ∷ [];
  related = record { id = old_id; content = 120 ∷ []; similarity = at 800 } ∷ [];
  superseded = [];
  already_closed = past ∷ [];
  note = none;
}

insight_is_stored : run reflecting writer params ≡ done answered
unfolding run conclude resolve_space resolve asked_all asked_one cite_all check_table replaced probe
    send is_near_duplicate is_correction_candidate novelty insert_batch attempt insert_batch_once
    settle written_all written new_id is_ulid superseded_by closes is_write_race contains_text
    is_white trim_start trim_end trim_str split_once derivation_to_string
insight_is_stored = refl

one_each :
    (names : List SpaceName) (ids : List String) (slots : List (Option Derivation))
    → reflecting.locate names ids ≡ got slots
    → length slots ≡ length ids
one_each names ids slots h =
    let same : map (λ (id : String). some (Derivation.memory id)) ids ≡ slots = cc in
    subst (λ xs. length xs ≡ length ids) same (length-map ids _)

run-Evident_example : Evident answered
run-Evident_example = run-Evident reflecting writer params answered one_each insight_is_stored

id_is_cited : resolve reflecting writer "work" requested ≡ done (Derivation.memory old_id ∷ [])
unfolding resolve asked_all asked_one cite_all check_table is_white trim_start trim_end trim_str
    split_once
id_is_cited = refl

resolve_exact_example :
    (asked : List (String × Option String)) × (asked_all requested ≡ done asked)
    × (found : List (Option Derivation)) × (reflecting.locate (both "work") (map id_asked asked)
        ≡ got found)
    × Matched asked found
    × Once (Derivation.memory old_id ∷ [])
    × ((d : Derivation) → cites (Derivation.memory old_id ∷ []) d ≡ any (holds d) found)
    × (0 < 1)
resolve_exact_example =
    resolve_exact reflecting writer "work" requested (Derivation.memory old_id ∷ []) one_each
      id_is_cited
