-- ===== src/Context/Request.antt =====
-- What a call of `context` answers: `run` of crates/agmem-server/src/tools/context.rs.
use agmem.Prelude.{
  ℕ, ◌+◌, ◌≤◌, ◌<◌, ◌≡◌, refl, sym, subst, max, ◌==◌, Bool, true, false, ◌↔◌, inl, inr, Bool-cases,
  Option-cases, ltb, ◌∙◌, Option, none, some, List, arith, length, lt→ltb, if◌then◌else◌,
}
use agmem.Float.{Float}
use agmem.Model.{Text, SpaceName}
use agmem.Scoring.{Clock}
use agmem.Service.{
  Service, Outcome, done, failed, failed_not, invalid, ◌>>=◌, Filters, Lookup, Search, spaces,
  embed_query,
}
use agmem.Context.{title, trimmed, resolve_budget}
use agmem.Context.Budget.{assemble_fits}
use agmem.Context.Session.{
  ContextParams, run, budget_of, aimed, lookup_section, search_section, relevant_section,
}

-- The budget asked for is below 200 characters.
abbrev pub TooSmall : ContextParams → Type 0
TooSmall params = (budget : ℕ) × (params.budget_chars ≡ some budget) × (budget < 200)

module _ (fl : Float) (clock : Clock fl.F) (service : Service fl.F clock.Time) where
  open fl use {F}
  open clock use {Time}

  -- The call succeeds.
  abbrev pub Answers {ℓ} : {A : Type ℓ} → Outcome A → Type ℓ
  Answers {A = A} outcome = (a : A) × (outcome ≡ done a)

  bind-Answers {ℓ κ} :
      {A : Type ℓ} {B : Type κ} (m : Outcome A) (f : A → Outcome B)
      → Answers m
      → ((a : A) → Answers (f a))
      → Answers (m >>= f)
  bind-Answers (done a) f h k = k a
  bind-Answers (failed e) f (a, h) k = absurd (ground arith)

  bind_with {ℓ κ μ} :
      {A : Type ℓ} {B : Type κ} {P : B → Type μ} (m : Outcome A) (f : A → Outcome B)
      → Answers m
      → ((a : A) → m ≡ done a → (b : B) × (f a ≡ done b) × P b)
      → (b : B) × (m >>= f ≡ done b) × P b
  bind_with (done a) f h k = k a refl
  bind_with (failed e) f (a, h) k = absurd (ground arith)

  bind_to {ℓ κ μ} :
      {A : Type ℓ} {B : Type κ} {P : B → Type μ} (m : Outcome A) (f : A → Outcome B) (a : A)
      → m ≡ done a
      → (b : B) × (f a ≡ done b) × P b
      → (b : B) × (m >>= f ≡ done b) × P b
  bind_to {P = P} m f a h r = subst (λ x. (b : _) × (x >>= f ≡ done b) × P b) (sym h) r

  if_Answers {ℓ} :
      {A : Type ℓ} (b : Bool) (m n : Outcome A)
      → Answers m
      → Answers n
      → Answers (if b then m else n)
  if_Answers true m n h k = h
  if_Answers false m n h k = k

  accepted :
      (requested : Option ℕ) (budget : ℕ)
      → resolve_budget requested ≡ some budget
      → budget_of requested ≡ done budget
  accepted requested budget h = rw (budget_of, h) refl

  refused :
      (requested : Option ℕ)
      → resolve_budget requested ≡ none
      → budget_of requested ≡ failed (invalid "budget_chars must be at least 200")
  refused requested h = rw (budget_of, h) refl

  too_small : (budget : ℕ) → budget < 200 → resolve_budget (some budget) ≡ none
  unfolding resolve_budget
  too_small budget h = rw (lt→ltb budget 200 h) refl

  none→too_small :
      (params : ContextParams) → resolve_budget params.budget_chars ≡ none → TooSmall params
  unfolding resolve_budget
  none→too_small params h = elim (Option-cases params.budget_chars) [
    | inl e ↦ cc (rw e at h)
    | inr (budget, e) ↦ elim (Bool-cases (ltb budget 200)) [
      | inl low ↦ (budget, e, ground (arith, low))
      | inr enough ↦ cc (rw (e, enough) at h)
    ]
  ]

  module _ (lookups : (l : Lookup Time) → Answers (service.direct_lookup l))
      (searches : (s : Search F Time) → Answers (service.search_hybrid s))
      (embeds : (text : Text) → Answers (service.embed text)) where
    lookup-Answers :
        (names : List SpaceName) (filters : Filters) (keep : ℕ) (per_tag : Option ℕ) (now : Time)
        → Answers (lookup_section fl clock service names filters keep per_tag now)
    unfolding lookup_section
    lookup-Answers names filters keep per_tag now = bind-Answers _ _ (lookups _) (λ rows. (_, refl))

    embed-Answers : (text : Text) → Answers (embed_query service text)
    unfolding embed_query
    embed-Answers text =
        if_Answers (service.dim == 0) _ _ (none, refl)
          (bind-Answers _ _ (embeds text) (λ vector. (_, refl)))

    search-Answers :
        (names : List SpaceName) (text : Text) (now : Time)
        → Answers (search_section fl clock service names text now)
    unfolding search_section
    search-Answers names text now =
        bind-Answers _ _ (embed-Answers text)
          (λ vector. bind-Answers _ _ (searches _) (λ rows. (_, refl)))

    relevant-Answers :
        (names : List SpaceName) (query : Option Text) (now : Time)
        → Answers (relevant_section fl clock service names query now)
    relevant-Answers names none now = lookup-Answers names _ _ _ now
    relevant-Answers names (some text) now = search-Answers names text now

    -- When the store and the embedder answer every read, the spaces resolve and the budget is accepted,
    -- the call answers with a block of no more characters than the budget, or than its title and the
    -- note on what was left out, whichever is more.
    pub run_answers :
        (params : ContextParams) (now : Time) (names : List SpaceName) (budget : ℕ)
        → spaces service params.space ≡ done names
        → resolve_budget params.budget_chars ≡ some budget
        → (block : Text) × (run fl clock service params now ≡ done block)
          × (length block ≤ max (length (title names) + length trimmed) budget)
    unfolding run
    run_answers params now names budget s b = bind_to _ _ names s (
        bind_to _ _ budget (accepted _ budget b) (
          bind_with _ _ (lookup-Answers names _ _ _ now) (λ instructions _.
            bind_with _ _ (lookup-Answers names _ _ _ now) (λ profile _.
              bind_with _ _ (relevant-Answers names (aimed params.query) now) (λ relevant _.
                bind_with _ _ (lookup-Answers names _ _ _ now)
                  (λ lessons _. (_, refl, assemble_fits names _ budget)))))))

    -- When the store and the embedder answer every read and the spaces resolve, the call is refused
    -- for its budget if one below 200 characters is asked for, and only then.
    pub run_refuses_exactly :
        (params : ContextParams) (now : Time) (names : List SpaceName)
        → spaces service params.space ≡ done names
        → (run fl clock service params now ≡ failed (invalid "budget_chars must be at least 200"))
          ↔ TooSmall params
    unfolding run
    run_refuses_exactly params now names s = (
      λ h. elim (Option-cases (resolve_budget params.budget_chars)) [
        | inl bad ↦ none→too_small params bad
        | inr (budget, fine) ↦
            let (block, answers, _) = run_answers params now names budget s fine in
            failed_not _ block (sym h ∙ answers)
      ],
      λ (budget, asked, low).
          rw (s, asked) (rw (refused (some budget) (too_small budget low)) refl),
    )
