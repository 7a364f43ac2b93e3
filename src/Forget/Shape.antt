-- ===== src/Forget/Shape.antt =====
-- All that a `forget` call can do to its session: `run` of tools/forget.rs, case by case.
use agmem.Prelude.{
  String, ◌≡◌, refl, sym, ap, subst, ◌∙◌, inl, inr, Bool, true, false, ◌&&◌, not, Option, none,
  some, List, [], ◌∷◌, map, arith, Bool-cases, Option-cases,
}
use agmem.Model.{Text, SpaceName}
use agmem.Service.{Service, Outcome, done, failed, ErrorData, spaces, Outcome-cases}
use agmem.Forget.{ForgetStore, ForgetParams, ForgetResult, Scope, scopes_eq, Target, id_of}
use agmem.Forget.Resolve.{by_ids, by_query}
use agmem.Forget.Chains.{expand}
use agmem.Forget.Request.{
  Session, confirm, arm, asked, no_ids, Selected, unseen, check_seen, unconfirmed, no_purge, select,
  arm_if, result_of, request_of, preview_of, send, finish, act_on, run_in, run, after, lift,
}

abbrev pub scope_of : ForgetParams → List SpaceName → Text → Scope
scope_of params names text = record { query = text; spaces = names; purge = params.purge }

module _ {F Time : Type 0} (service : Service F Time) (store : ForgetStore F Time) where
  -- What a call can do: `r` is its answer and the session after it.
  pub data Effect (params : ForgetParams) (s : Session) (r : Outcome ForgetResult × Session)
      : Type 0 where
    refused : (e : ErrorData) → r ≡ (failed e, s) → Effect params s r
    looked :
        (names : List SpaceName) (targets : List (Target F Time))
        → no_ids params.ids ≡ false
        → params.dry_run ≡ true
        → r ≡ (done (preview_of params names targets), s)
        → Effect params s r
    armed :
        (names : List SpaceName) (text : Text) (targets : List (Target F Time))
        → no_ids params.ids ≡ true
        → asked params.query ≡ some text
        → params.dry_run ≡ true
        → r ≡ (
          done (preview_of params names targets),
          record s { slot = some (scope_of params names text, map id_of targets) },
        )
        → Effect params s r
    spent :
        (scope : Scope) (shown : List String) (e : ErrorData)
        → s.slot ≡ some (scope, shown)
        → r ≡ (failed e, record s { slot = none })
        → Effect params s r
    named :
        (names : List SpaceName) (targets : List (Target F Time)) (o : Outcome ForgetResult)
        → no_ids params.ids ≡ false
        → r ≡ (o, record s { sent = request_of params names targets ∷ s.sent })
        → Effect params s r
    confirmed :
        (names : List SpaceName) (text : Text) (scope : Scope) (shown : List String)
        (targets : List (Target F Time)) (o : Outcome ForgetResult)
        → no_ids params.ids ≡ true
        → asked params.query ≡ some text
        → params.dry_run ≡ false
        → s.slot ≡ some (scope, shown)
        → scopes_eq scope (scope_of params names text) ≡ true
        → unseen shown targets ≡ []
        → r ≡ (o, record s { slot = none; sent = request_of params names targets ∷ s.sent })
        → Effect params s r

  -- The two ways of `act_on`: it fails and changes nothing, or ends by `finish`.
  data Acts (params : ForgetParams) (names : List SpaceName) (selected : Selected F Time)
      (s : Session) : Type 0 where
    stops :
        (e : ErrorData)
        → act_on service store params names selected s ≡ (failed e, s)
        → Acts params names selected s
    ends :
        (targets : List (Target F Time))
        → check_seen selected.previewed targets ≡ done tt
        → act_on service store params names selected s
          ≡ finish service store params names selected.armable targets s
        → Acts params names selected s

  acts :
      (params : ForgetParams) (names : List SpaceName) (selected : Selected F Time) (s : Session)
      → Acts params names selected s
  unfolding act_on
  acts params names selected s =
      elim (Outcome-cases (expand store params.purge params.cascade selected.targets)) [
        | inr (e, h) ↦ stops e (rw h refl)
        | inl (targets, h) ↦ elim (Outcome-cases (check_seen selected.previewed targets)) [
          | inr (e, k) ↦ stops e (rw (h, k) refl)
          | inl (u, k) ↦ ends targets k (rw (h, k) refl)
        ]
      ]

  finish_dry :
      (params : ForgetParams) (names : List SpaceName) (armable : Option Scope)
      (targets : List (Target F Time)) (s : Session)
      → params.dry_run ≡ true
      → finish service store params names armable targets s
        ≡ after (arm_if armable targets s) (λ u. lift (done (preview_of params names targets)))
  unfolding finish
  finish_dry params names armable targets s d = ground (arith, d)

  -- What the store answers to the request becomes the call's answer.
  finish_wet :
      (params : ForgetParams) (names : List SpaceName) (armable : Option Scope)
      (targets : List (Target F Time)) (s : Session)
      → params.dry_run ≡ false
      → (o : Outcome ForgetResult) × (finish service store params names armable targets s
          ≡ (o, record s { sent = request_of params names targets ∷ s.sent }))
  unfolding finish send
  finish_wet params names armable targets s d =
      elim (Outcome-cases (store.forget (request_of params names targets))) [
        | inl (gone, h) ↦ (done (result_of params names targets gone), ground (arith, d, h))
        | inr (e, h) ↦ (failed e, ground (arith, d, h))
      ]

  abbrev continued :
      (params : ForgetParams) (names : List SpaceName)
      → Outcome (Selected F Time) × Session
      → Outcome ForgetResult × Session
  continued params names p = after p (act_on service store params names)

  abbrev plain : List (Target F Time) → Selected F Time
  plain found = record { targets = found; armable = none; previewed = none }

  picked_by_ids :
      (params : ForgetParams) (names : List SpaceName) (s : Session)
      → no_ids params.ids ≡ false
      → Effect params s (continued params names (select service store params names false none s))
  unfolding select
  picked_by_ids params names s ids =
      elim (Outcome-cases (by_ids store names params.ids params.purge)) [
        | inr (e, h) ↦ refused e (rw h refl)
        | inl (found, h) ↦
            let selects : select service store params names false none s ≡ (done (plain found), s) =
              rw h refl in
            let goes = ap (continued params names) selects in
            elim (acts params names (plain found) s) [
              | stops e k ↦ refused e (goes ∙ k)
              | ends targets checked k ↦ elim (Bool-cases params.dry_run) [
                | inl dry ↦
                    looked names targets ids dry
                      (goes ∙ k ∙ finish_dry params names none targets s dry)
                | inr wet ↦
                    let (o, ends_so) = finish_wet params names none targets s wet in
                    named names targets o ids (goes ∙ k ∙ ends_so)
              ]
            ]
      ]

  picked_dry :
      (params : ForgetParams) (names : List SpaceName) (s : Session) (text : Text)
      → no_ids params.ids ≡ true
      → asked params.query ≡ some text
      → params.dry_run ≡ true
      → Effect params s
          (continued params names (select service store params names true (some text) s))
  unfolding select arm
  picked_dry params names s text ids query dry =
      elim (Outcome-cases (by_query service names text)) [
        | inr (e, h) ↦
            let fails : select service store params names true (some text) s ≡ (failed e, s) =
              ground (arith, dry, h) in
            refused e (ap (continued params names) fails)
        | inl (found, h) ↦
            let scope = scope_of params names text in
            let selected : Selected F Time = record {
              targets = found;
              armable = some scope;
              previewed = none;
            } in
            let selects : select service store params names true (some text) s
                ≡ (done selected, s) =
              ground (arith, dry, h) in
            let goes = ap (continued params names) selects in
            elim (acts params names selected s) [
              | stops e k ↦ refused e (goes ∙ k)
              | ends targets checked k ↦
                  armed names text targets ids query dry
                    (goes ∙ k ∙ finish_dry params names (some scope) targets s dry)
            ]
      ]

  nothing_unseen :
      (shown : List String) (targets : List (Target F Time))
      → check_seen (some shown) targets ≡ done tt
      → unseen shown targets ≡ []
  unfolding check_seen
  nothing_unseen shown targets h = go (unseen shown targets) refl
    where
      go : (ids : List String) → unseen shown targets ≡ ids → ids ≡ []
      go [] e = refl
      go (id ∷ ids) e = absurd (ground (arith, e, h))

  picked_wet :
      (params : ForgetParams) (names : List SpaceName) (s : Session) (text : Text)
      → no_ids params.ids ≡ true
      → asked params.query ≡ some text
      → params.dry_run ≡ false
      → Effect params s
          (continued params names (select service store params names true (some text) s))
  unfolding select confirm
  picked_wet params names s text ids query wet =
      let scope = scope_of params names text in
      let go = continued params names in
      elim (Option-cases s.slot) [
        | inl empty ↦
            let fails : select service store params names true (some text) s
                ≡ (failed unconfirmed, s) =
              ground (arith, wet, empty) in
            refused unconfirmed (ap go fails)
        | inr ((held, shown), slot) ↦ elim (Bool-cases (scopes_eq held scope)) [
          | inr other ↦
              let fails : select service store params names true (some text) s
                  ≡ (failed unconfirmed, s) =
                ground (arith, wet, slot, other) in
              refused unconfirmed (ap go fails)
          | inl same ↦
              let s0 = record s { slot = none } in
              elim (Outcome-cases (by_query service names text)) [
                | inr (e, h) ↦
                    let fails : select service store params names true (some text) s
                        ≡ (failed e, s0) =
                      ground (arith, wet, slot, same, h) in
                    spent held shown e slot (ap go fails)
                | inl (found, h) ↦
                    let selected : Selected F Time = record {
                      targets = found;
                      armable = none;
                      previewed = some shown;
                    } in
                    let selects : select service store params names true (some text) s
                        ≡ (done selected, s0) =
                      ground (arith, wet, slot, same, h) in
                    elim (acts params names selected s0) [
                      | stops e k ↦ spent held shown e slot (ap go selects ∙ k)
                      | ends targets checked k ↦
                          let (o, ends_so) = finish_wet params names none targets s0 wet in
                          confirmed names text held shown targets o ids query wet slot same
                            (nothing_unseen shown targets checked) (ap go selects ∙ k ∙ ends_so)
                    ]
              ]
        ]
      ]

  picked :
      (params : ForgetParams) (names : List SpaceName) (s : Session) (b : Bool) (q : Option Text)
      → no_ids params.ids ≡ b
      → asked params.query ≡ q
      → Effect params s (continued params names (select service store params names b q s))
  unfolding select
  picked params names s false none ids query = picked_by_ids params names s ids
  picked params names s true (some text) ids query = elim (Bool-cases params.dry_run) [
    | inl dry ↦ picked_dry params names s text ids query dry
    | inr wet ↦ picked_wet params names s text ids query wet
  ]
  picked params names s false (some text) ids query = refused _ refl
  picked params names s true none ids query = refused _ refl

  run_located :
      (params : ForgetParams) (s : Session) (names : List SpaceName)
      → (params.cascade && not params.purge) ≡ false
      → spaces service params.space ≡ done names
      → run service store params s ≡ run_in service store params names s
  unfolding run
  run_located params s names h k = ground (arith, h, k)

  -- A call does one of the six things.
  pub run-Effect :
      (params : ForgetParams) (s : Session) → Effect params s (run service store params s)
  unfolding run run_in
  run-Effect params s = elim (Bool-cases (params.cascade && not params.purge)) [
    | inl h ↦ refused no_purge (ground (arith, h))
    | inr h ↦ elim (Outcome-cases (spaces service params.space)) [
      | inr (e, k) ↦ refused e (ground (arith, h, k))
      | inl (names, k) ↦
          subst (Effect params s) (sym (run_located params s names h k))
            (picked params names s (no_ids params.ids) (asked params.query) refl refl)
    ]
  ]
