-- ===== src/Forget/Request.antt =====
-- One `forget` call: `Pending` and `run` of crates/agmem-server/src/tools/forget.rs, over the session's
-- confirmation slot and what the session has asked the store to do. A lock that an earlier panic
-- poisoned is left out.
use agmem.Prelude.{
  String, Bool, true, false, ◌&&◌, not, Option, none, some, List, [], ◌∷◌, ◌++◌, map, keep_if,
  if◌then◌else◌,
}
use agmem.Model.{Text, SpaceName}
use agmem.Service.{Service, Outcome, done, failed, ErrorData, invalid, invalid_about, spaces}
use agmem.Chunk.{trim}
use agmem.Hop.{contains}
use agmem.Forget.{
  ForgetStore, StoreForget, Forgotten, ForgetParams, ForgetResult, Scope, scopes_eq, Target, id_of,
  memory_ids, episode_ids, new_match,
}
use agmem.Forget.Resolve.{by_ids, by_query}
use agmem.Forget.Chains.{expand}

-- `Pending` and the requests sent to the store, the latest first.
pub record Session : Type 0 where
  pub slot : Option (Scope × List String)
  pub sent : List StoreForget

abbrev pub fresh : Session
fresh = record { slot = none; sent = [] }

-- A step of a call: it may fail, and changes the session.
abbrev pub M : Type 0 → Type 0
M A = Session → Outcome A × Session

abbrev pub after : {A B : Type 0} → Outcome A × Session → (A → M B) → Outcome B × Session
after (done a, s) f = f a s
after (failed e, s) f = (failed e, s)

infixl 5 ◌>>=◌ ◌>>◌
abbrev pub ◌>>=◌ : {A B : Type 0} → M A → (A → M B) → M B
◌>>=◌ m f s = after (m s) f

abbrev pub ◌>>◌ : {B : Type 0} → M (Unit {0}) → M B → M B
m >> k = m >>= λ _. k

abbrev pub lift : {A : Type 0} → Outcome A → M A
lift o s = (o, s)

abbrev pub refuse : {A : Type 0} → ErrorData → M A
refuse e s = (failed e, s)

unfoldable pub arm : Scope → List String → M (Unit {0})
arm scope matched s = (done tt, record s { slot = some (scope, matched) })

abbrev pub unconfirmed : ErrorData
unconfirmed = invalid "forgetting by query needs the same call with `dry_run: true` first"

abbrev pub no_purge : ErrorData
no_purge = invalid "`cascade` only means something with `purge: true`"

-- `confirm` on what the slot held: a mismatch is put back.
abbrev confirm_slot : Scope → Option (Scope × List String) → M (List String)
confirm_slot scope none s = (failed unconfirmed, s)
confirm_slot scope (some (armed, matched)) s =
    if scopes_eq armed scope
    then (done matched, record s { slot = none })
    else (failed unconfirmed, s)

unfoldable pub confirm : Scope → M (List String)
confirm scope s = confirm_slot scope s.slot s

-- `query.map(trim).filter(non-empty)`
abbrev non_empty : Text → Option Text
non_empty [] = none
non_empty (c ∷ text) = some (c ∷ text)

unfoldable pub asked : Option Text → Option Text
asked none = none
asked (some text) = non_empty (trim text)

abbrev pub no_ids : List String → Bool
no_ids [] = true
no_ids (id ∷ ids) = false

-- The rows selected, the scope that a dry run may arm, and what the confirmed dry run showed.
pub record Selected (F Time : Type 0) : Type 0 where
  pub targets : List (Target F Time)
  pub armable : Option Scope
  pub previewed : Option (List String)

abbrev pub unseen : {F Time : Type 0} → List String → List (Target F Time) → List String
unseen previewed targets = keep_if (λ id. not (contains previewed id)) (map id_of targets)

abbrev pub changed : List String → ErrorData
changed ids = invalid_about "the store changed since the dry run" ids

-- The snapshot discipline: a row that the dry run did not show stops the call.
unfoldable pub check_seen :
    {F Time : Type 0} → Option (List String) → List (Target F Time) → Outcome (Unit {0})
check_seen none targets = done tt
check_seen (some previewed) targets = elim (unseen previewed targets) [
  | [] ↦ done tt
  | id ∷ ids ↦ failed (changed (id ∷ ids))
]

module _ {F Time : Type 0} where
  abbrev pub request_of : ForgetParams → List SpaceName → List (Target F Time) → StoreForget
  request_of params names targets = record {
    spaces = names;
    memories = memory_ids targets;
    episodes = episode_ids targets;
    purge = params.purge;
  }

  abbrev pub preview_of : ForgetParams → List SpaceName → List (Target F Time) → ForgetResult
  preview_of params names targets = record {
    spaces = names;
    dry_run = true;
    purge = params.purge;
    matched = map new_match targets;
    invalidated = [];
    purged = [];
    chunks_purged = 0;
  }

  abbrev pub result_of :
      ForgetParams → List SpaceName → List (Target F Time) → Forgotten → ForgetResult
  result_of params names targets forgotten = record {
    spaces = names;
    dry_run = false;
    purge = params.purge;
    matched = map new_match targets;
    invalidated = if params.purge then [] else forgotten.memories;
    purged = if params.purge then forgotten.memories ++ forgotten.episodes else [];
    chunks_purged = forgotten.chunks;
  }

  abbrev pub arm_if : Option Scope → List (Target F Time) → M (Unit {0})
  arm_if none targets = lift (done tt)
  arm_if (some scope) targets = arm scope (map id_of targets)

module _ {F Time : Type 0} (service : Service F Time) (store : ForgetStore F Time) where
  unfoldable pub select : ForgetParams → List SpaceName → Bool → Option Text → M (Selected F Time)
  select params names false none = do
    targets ← lift (by_ids store names params.ids params.purge)
    lift (done (record { targets = targets; armable = none; previewed = none }))
  select params names true (some text) =
      let scope : Scope = record { query = text; spaces = names; purge = params.purge } in
      if params.dry_run
      then (do
        targets ← lift (by_query service names text)
        lift (done (record { targets = targets; armable = some scope; previewed = none })))
      else (do
        previewed ← confirm scope
        targets ← lift (by_query service names text)
        lift (done (record { targets = targets; armable = none; previewed = some previewed })))
  select params names false (some text) = refuse (invalid "give `ids` or `query`, not both")
  select params names true none =
      refuse (invalid "forget needs `ids` (exact) or `query` (with `dry_run: true` first)")

  -- `repo::forget`, remembered with the session.
  unfoldable pub send : StoreForget → M Forgotten
  send request s = (store.forget request, record s { sent = request ∷ s.sent })

  -- The dry run reports, and the other call acts.
  unfoldable pub finish :
      ForgetParams → List SpaceName → Option Scope → List (Target F Time) → M ForgetResult
  finish params names armable targets =
      if params.dry_run
      then (do armed ← arm_if armable targets; lift (done (preview_of params names targets)))
      else (do
        forgotten ← send (request_of params names targets)
        lift (done (result_of params names targets forgotten)))

  -- The call once its rows are selected.
  unfoldable pub act_on : ForgetParams → List SpaceName → Selected F Time → M ForgetResult
  act_on params names selected = do
    targets ← lift (expand store params.purge params.cascade selected.targets)
    checked ← lift (check_seen selected.previewed targets)
    finish params names selected.armable targets

  unfoldable pub run_in : ForgetParams → List SpaceName → M ForgetResult
  run_in params names = do
    selected ← select params names (no_ids params.ids) (asked params.query)
    act_on params names selected

  unfoldable pub run : ForgetParams → M ForgetResult
  run params =
      if params.cascade && not params.purge
      then refuse no_purge
      else (do names ← lift (spaces service params.space); run_in params names)
