-- ===== src/Tests/Forgets.antt =====
-- Calls that tools/forget.rs answers.
use agmem.Prelude.{
  Some, ℕ, ◌≡◌, refl, String, Bool, true, false, none, some, List, [], ◌∷◌, map, All, any, arith,
  str_eq, eq_iff, subst,
}
use agmem.Model.{Text, SpaceName, MemoryRecord, Candidate, Hit, plan}
use agmem.Service.{Service, Outcome, done, failed, ErrorData, invalid_about, spaces}
use agmem.Forget.{
  ForgetStore, StoreForget, ForgetParams, ForgetResult, found, unknown, Target, EpisodeDetail,
  scopes_eq, memory_ids, episode_ids, new_match, Scope, parse, Reference,
}
use agmem.Words.{is_white}
use agmem.Chunk.{trim_start, trim_end}
use agmem.Words.Trim.{trim_str}
use agmem.Model.Names.{new_id, is_ulid, split_once}
use agmem.Forget.Resolve.{by_query, claims_of}
use agmem.Forget.Chains.{
  expand, cascade_documents, cascade_from, expand_chains, expand_from, add_links,
}
use agmem.Forget.Request.{
  Session, fresh, run, run_in, act_on, select, finish, send, arm, confirm, check_seen, asked,
}
use agmem.Forget.Session.{
  Call, run_call, Reach, start, then_call, Offers, query_forget_previewed, query_forget_once,
}
use agmem.Forget.Snapshot.{Shown}
use agmem.Forget.Cascade.{purge_takes, Taken}
use agmem.Forget.Pulled.{CitersIn}
use agmem.Tests.Fixed.{Fixed, at}
use agmem.Tests.Rows.{claim, service}

abbrev hit : String → Candidate Fixed ℕ
hit id = record { rrf = at 500; similarity = none; hit = Hit.memory (claim id) }

abbrev finding : Service Fixed ℕ
finding = record service { search_hybrid = λ s. done (hit "A" ∷ []) }

-- Each claim is its own chain, but B replaced A, and a document is cited by C.
abbrev store : ForgetStore Fixed ℕ
store = record {
  history_chain = λ space id. found (claim id ∷ claim "Z" ∷ []);
  episode = λ space id. unknown;
  episode_of_chunk = λ space id. done none;
  document_citers = λ space id. done (claim "C" ∷ []);
  forget = λ request. done (record { memories = request.memories; episodes = []; chunks = 0 });
}

abbrev asking : Bool → ForgetParams
asking dry = record {
  ids = [];
  query = some (32 ∷ 104 ∷ 105 ∷ []);
  space = some "current";
  purge = false;
  dry_run = dry;
  cascade = false;
}

abbrev call : Bool → Call Fixed ℕ
call dry = record { service = finding; store = store; params = asking dry }

abbrev shown : ForgetResult
shown = record {
  spaces = "work" ∷ [];
  dry_run = true;
  purge = false;
  matched = map new_match (Target.memory "work" (claim "A") none ∷ []);
  invalidated = [];
  purged = [];
  chunks_purged = 0;
}

abbrev scope : Scope
scope = record { query = 104 ∷ 105 ∷ []; spaces = "work" ∷ []; purge = false }

abbrev armed_session : Session
armed_session = record { slot = some (scope, "A" ∷ []); sent = [] }

abbrev request : StoreForget
request = record { spaces = "work" ∷ []; memories = "A" ∷ []; episodes = []; purge = false }

abbrev after_session : Session
after_session = record { slot = none; sent = request ∷ [] }

abbrev closed : ForgetResult
closed = record shown { dry_run = false; invalidated = "A" ∷ [] }

dry_run_shows : run_call Fixed ℕ (call true) fresh ≡ (done shown, armed_session)
unfolding run run_in act_on select finish arm expand check_seen by_query claims_of asked spaces
    is_white trim_start trim_end
dry_run_shows = refl

second_call_acts : run_call Fixed ℕ (call false) armed_session ≡ (done closed, after_session)
unfolding run run_in act_on select finish send confirm scopes_eq expand check_seen by_query
    claims_of asked spaces is_white trim_start trim_end memory_ids episode_ids
second_call_acts = refl

abbrev history : List (Call Fixed ℕ × Outcome ForgetResult)
history = (call true, done shown) ∷ []

armed_reached : Reach Fixed ℕ armed_session history
armed_reached = then_call (call true) (done shown) start dry_run_shows

query_forget_previewed_example :
    (text : Text) × (asked (asking false).query ≡ some text)
    × (ids : List String) × Some
        (Offers Fixed ℕ
          (record { query = text; spaces = request.spaces; purge = request.purge })
          ids)
        history
    × Shown ids request.memories
    × Shown ids request.episodes
query_forget_previewed_example =
    query_forget_previewed Fixed ℕ armed_session after_session history (call false) (done closed)
      request armed_reached refl second_call_acts refl

query_forget_once_example :
    (e : ErrorData) × (run_call Fixed ℕ (call false) after_session ≡ (failed e, after_session))
query_forget_once_example =
    query_forget_once Fixed ℕ armed_session after_session (call false) (call false) (done closed)
      request refl second_call_acts refl refl refl

abbrev document : EpisodeDetail Fixed ℕ
document = record {
  episode = record {
    id = "D";
    space = "work";
    content = [];
    content_hash = "";
    occurred_at = 0;
    session = none;
    created_at = 0;
    title = some "a plan";
    doc_kind = some plan;
    tags = [];
    mime = none;
  };
  chunks = [];
  derived = [];
}

abbrev selected : List (Target Fixed ℕ)
selected = Target.episode "work" document ∷ Target.memory "work" (claim "A") none ∷ []

abbrev taken : List (Target Fixed ℕ)
taken =
    Target.episode "work" document
    ∷ Target.memory "work" (claim "A") none
    ∷ Target.memory "work" (claim "Z") none
    ∷ Target.memory "work" (claim "C") (some "D")
    ∷ []

cascade_expands : expand store true true selected ≡ done taken
unfolding expand cascade_documents cascade_from expand_chains expand_from add_links
cascade_expands = refl

cited_document_is_refused :
    expand store true false selected
    ≡ failed (invalid_about "live claims still cite the document" ("D" ∷ "C" ∷ []))
unfolding expand cascade_documents cascade_from
cited_document_is_refused = refl

chains_start :
    (space : SpaceName) (id : String) (chain : List (MemoryRecord Fixed ℕ))
    → store.history_chain space id ≡ found chain
    → any (λ r. str_eq r.id id) chain ≡ true
chains_start space id chain e =
    let walk : claim id ∷ claim "Z" ∷ [] ≡ chain = cc in
    subst (λ c. any (λ r. str_eq r.id id) c ≡ true) walk (ground (arith, eq_iff id id))

purge_takes_example : All (Taken store taken) selected × All (CitersIn store taken) selected
purge_takes_example = purge_takes store true selected taken chains_start cascade_expands

quoted_id_is_read :
    parse " memory:01M145SMNET1XRYA713EWAQTD3 "
    ≡ done (Reference.memory "01M145SMNET1XRYA713EWAQTD3")
unfolding parse trim_str split_once new_id is_ulid
quoted_id_is_read = refl
