-- ===== src/Forget/Session.antt =====
-- A session of `forget` calls, each against the store as it then is: what `Pending` of tools/forget.rs
-- is for.
use agmem.Prelude.{
  Some, String, ◌≡◌, refl, sym, ap, subst, ◌∙◌, inl, inr, true, false, Option, none, some, List, [],
  ◌∷◌, map, arith, length,
}
use agmem.Model.{Text}
use agmem.Service.{Service, Outcome, done, failed, ErrorData}
use agmem.Forget.{ForgetStore, StoreForget, ForgetParams, ForgetResult, ForgetMatch, Scope, id_of}
use agmem.Forget.Request.{Session, fresh, asked, no_ids, run, request_of, preview_of}
use agmem.Forget.Shape.{
  scope_of, Effect, run-Effect, refused, looked, armed, spent, named, confirmed,
}
use agmem.Forget.Snapshot.{scopes_eq-eq, unseen-Shown, matched_ids, Shown}

module _ (F Time : Type 0) where
  -- One call: the service and the store at that time, and the request.
  pub record Call : Type 0 where
    pub service : Service F Time
    pub store : ForgetStore F Time
    pub params : ForgetParams

  abbrev pub run_call : Call → Session → Outcome ForgetResult × Session
  run_call c s = run c.service c.store c.params s

  -- The calls so far and their answers, the latest first.
  abbrev pub History : Type 0
  History = List (Call × Outcome ForgetResult)

  pub data Reach : Session → History → Type 0 where
    start : Reach fresh []
    then_call :
        {s t : Session} {h : History} (c : Call) (o : Outcome ForgetResult)
        → Reach s h
        → run_call c s ≡ (o, t)
        → Reach t ((c, o) ∷ h)

  -- A dry run by query that asked for the scope and showed the ids.
  abbrev pub Offers : Scope → List String → Call × Outcome ForgetResult → Type 0
  Offers scope shown (c, o) =
      (no_ids c.params.ids ≡ true)
      × (asked c.params.query ≡ some scope.query)
      × (c.params.dry_run ≡ true)
      × (c.params.purge ≡ scope.purge)
      × (result : ForgetResult) × (o ≡ done result)
      × (result.spaces ≡ scope.spaces)
      × (map (λ (m : ForgetMatch). m.id) result.matched ≡ shown)

  -- What the slot holds, a dry run among the calls so far offered.
  abbrev Backed : Option (Scope × List String) → History → Type 0
  Backed none h = Unit
  Backed (some (scope, shown)) h = Some (Offers scope shown) h

  later :
      (q : Option (Scope × List String)) (h : History) (x : Call × Outcome ForgetResult)
      → Backed q h
      → Backed q (x ∷ h)
  later none h x b = tt
  later (some (scope, shown)) h x b = inr b

  step_backed :
      (s t : Session) (h : History) (c : Call) (o : Outcome ForgetResult)
      → Effect c.service c.store c.params s (o, t)
      → Backed s.slot h
      → Backed t.slot ((c, o) ∷ h)
  step_backed s t h c o effect b = elim effect [
    | refused e r ↦ keeps (ap (λ p. p.1.slot) r)
    | looked names targets ids dry r ↦ keeps (ap (λ p. p.1.slot) r)
    | armed names text targets ids query dry r ↦
        let offered : Offers (scope_of c.params names text) (map id_of targets) (c, o) = (
          ids,
          query,
          dry,
          refl,
          preview_of c.params names targets,
          ap (λ p. p.0) r,
          refl,
          matched_ids targets,
        ) in
        becomes (some (scope_of c.params names text, map id_of targets)) (ap (λ p. p.1.slot) r)
          (inl offered)
    | spent held seen_ids e before r ↦ becomes none (ap (λ p. p.1.slot) r) tt
    | named names targets o' ids r ↦ keeps (ap (λ p. p.1.slot) r)
    | confirmed names text held seen_ids targets o' ids query wet before same all r ↦
        becomes none (ap (λ p. p.1.slot) r) tt
  ]
    where
      becomes :
          (q : Option (Scope × List String))
          → t.slot ≡ q
          → Backed q ((c, o) ∷ h)
          → Backed t.slot ((c, o) ∷ h)
      becomes q e k = subst (λ z. Backed z ((c, o) ∷ h)) (sym e) k

      keeps : t.slot ≡ s.slot → Backed t.slot ((c, o) ∷ h)
      keeps e = becomes s.slot e (later s.slot h (c, o) b)

  reach_backed : {s : Session} {h : History} → Reach s h → Backed s.slot h
  reach_backed start = tt
  reach_backed (then_call c o r e) =
      step_backed _ _ _ c o
        (subst (Effect c.service c.store c.params _) e (run-Effect c.service c.store c.params _))
        (reach_backed r)

  abbrev Previewed : Call → History → StoreForget → Type 0
  Previewed c h request =
      (text : Text) × (asked c.params.query ≡ some text)
      × (shown : List String) × Some
          (Offers (record { query = text; spaces = request.spaces; purge = request.purge }) shown) h
      × Shown shown request.memories
      × Shown shown request.episodes

  abbrev head_or : StoreForget → List StoreForget → StoreForget
  head_or r [] = r
  head_or r (x ∷ xs) = x

  not-sent : (s : Session) (request : StoreForget) → s.sent ≡ request ∷ s.sent → ⊥
  not-sent s request e = absurd (omega (arith, ap length e))

  previews :
      (s t : Session) (h : History) (c : Call) (o : Outcome ForgetResult) (request : StoreForget)
      → Backed s.slot h
      → no_ids c.params.ids ≡ true
      → Effect c.service c.store c.params s (o, t)
      → t.sent ≡ request ∷ s.sent
      → Previewed c h request
  previews s t h c o request b ids effect sent = elim effect [
    | refused e r ↦ absurd (same (ap (λ p. p.1.sent) r))
    | looked names targets named_ids dry r ↦ absurd (same (ap (λ p. p.1.sent) r))
    | armed names text targets none_ids query dry r ↦ absurd (same (ap (λ p. p.1.sent) r))
    | spent held seen_ids e before r ↦ absurd (same (ap (λ p. p.1.sent) r))
    | named names targets o' some_ids r ↦ cc
    | confirmed names text held shown targets o' none_ids query wet before agrees all r ↦
        let request_is : request_of c.params names targets ≡ request =
          ap (head_or request) (sym (ap (λ p. p.1.sent) r) ∙ sent) in
        let scope_is : held ≡ scope_of c.params names text = scopes_eq-eq held _ agrees in
        let offer : Some (Offers held shown) h = subst (λ q. Backed q h) before b in
        let offered : Some (Offers (scope_of c.params names text) shown) h =
          subst (λ q. Some (Offers q shown) h) scope_is offer in
        let shows = unseen-Shown shown targets all in
        subst (Previewed c h) request_is (text, query, shown, offered, shows.0, shows.1)
  ]
    where
      same : t.sent ≡ s.sent → ⊥
      same e = not-sent s request (sym e ∙ sent)

  -- Whatever calls a session has made, each against a store that others may have changed: a call
  -- that selects by query and is no dry run, and that asks the store to close or delete rows, has a
  -- dry run before it, with the same query, in the same spaces and with the same `purge`, whose
  -- answer showed every row that the store is asked about.
  pub query_forget_previewed :
      (s t : Session) (h : History) (c : Call) (o : Outcome ForgetResult) (request : StoreForget)
      → Reach s h
      → no_ids c.params.ids ≡ true
      → run_call c s ≡ (o, t)
      → t.sent ≡ request ∷ s.sent
      → (text : Text) × (asked c.params.query ≡ some text)
        × (shown : List String) × Some
            (Offers (record { query = text; spaces = request.spaces; purge = request.purge }) shown)
            h
        × Shown shown request.memories
        × Shown shown request.episodes
  query_forget_previewed s t h c o request reach ids ran sent =
      previews s t h c o request (reach_backed reach) ids
        (subst (Effect c.service c.store c.params s) ran (run-Effect c.service c.store c.params s))
        sent

  spends :
      (s t : Session) (c : Call) (o : Outcome ForgetResult) (request : StoreForget)
      → no_ids c.params.ids ≡ true
      → Effect c.service c.store c.params s (o, t)
      → t.sent ≡ request ∷ s.sent
      → t.slot ≡ none
  spends s t c o request ids effect sent = elim effect [
    | refused e r ↦ absurd (same (ap (λ p. p.1.sent) r))
    | looked names targets named_ids dry r ↦ absurd (same (ap (λ p. p.1.sent) r))
    | armed names text targets none_ids query dry r ↦ absurd (same (ap (λ p. p.1.sent) r))
    | spent held seen_ids e before r ↦ ap (λ p. p.1.slot) r
    | named names targets o' some_ids r ↦ cc
    | confirmed names text held shown targets o' none_ids query wet before agrees all r ↦
        ap (λ p. p.1.slot) r
  ]
    where
      same : t.sent ≡ s.sent → ⊥
      same e = not-sent s request (sym e ∙ sent)

  -- One dry run lets one call act: after a call by query has asked the store to close or delete
  -- rows, the next call by query that is no dry run fails and changes nothing, whatever it asks.
  pub query_forget_once :
      (s t : Session) (c d : Call) (o : Outcome ForgetResult) (request : StoreForget)
      → no_ids c.params.ids ≡ true
      → run_call c s ≡ (o, t)
      → t.sent ≡ request ∷ s.sent
      → no_ids d.params.ids ≡ true
      → d.params.dry_run ≡ false
      → (e : ErrorData) × (run_call d t ≡ (failed e, t))
  query_forget_once s t c d o request ids ran sent ids' wet =
      let empty =
        spends s t c o request ids
          (subst (Effect c.service c.store c.params s) ran
            (run-Effect c.service c.store c.params s))
          sent in
      elim (run-Effect d.service d.store d.params t) [
        | refused e r ↦ (e, r)
        | looked names targets named_ids dry r ↦ cc
        | armed names text targets none_ids query dry r ↦ cc
        | spent held seen_ids e before r ↦ cc
        | named names targets o' some_ids r ↦ cc
        | confirmed names text held shown targets o' none_ids query wet' before agrees all r ↦ cc
      ]
