-- ===== src/Service.antt =====
-- What the tools share of crates/agmem-server/src/tools/mod.rs and of the store's read requests in
-- crates/agmem-store/src/repo/read.rs. `Service` stands for the store and the embedder behind them.
use agmem.Prelude.{
  ℕ, ◌≡◌, ◌⊎◌, refl, inl, inr, String, Bool, true, false, Option, none, some, List, [], ◌∷◌, str_eq,
  ◌==◌, if◌then◌else◌, arith,
}
use agmem.Model.{Text, SpaceName, Kind, MemoryRecord, Candidate, CoreError, Result, ok, err}
use agmem.Model.Names.{new_space}

-- `INVALID_PARAMS` with the text of a name's error, with the bound on `k`, with a text, with a text
-- about some values or with one about the entry at some indices, and `INTERNAL_ERROR`.
pub data ErrorData : Type 0 where
  invalid_space : CoreError → ErrorData
  invalid_k : ℕ → ErrorData
  invalid : String → ErrorData
  invalid_about : String → List String → ErrorData
  invalid_entry : List ℕ → String → ErrorData
  internal : String → ErrorData

-- `Result<A, ErrorData>`
pub data Outcome {ℓ} (A : Type ℓ) : Type ℓ where
  done : A → Outcome A
  failed : ErrorData → Outcome A

-- The `?` operator.
infixl 5 ◌>>=◌
abbrev pub ◌>>=◌ {ℓ κ} : {A : Type ℓ} {B : Type κ} → Outcome A → (A → Outcome B) → Outcome B
done a >>= f = f a
failed e >>= f = failed e

pub Outcome-cases {ℓ} :
    {A : Type ℓ} (o : Outcome A) → ((a : A) × (o ≡ done a)) ⊎ ((e : ErrorData) × (o ≡ failed e))
Outcome-cases (done a) = inl (a, refl)
Outcome-cases (failed e) = inr (e, refl)

-- What every success of a step keeps to, every success of the whole does.
pub bind_lift {ℓ κ μ} :
    {A : Type ℓ} {B : Type κ} (P : B → Type μ) (m : Outcome A) (f : A → Outcome B) (b : B)
    → m >>= f ≡ done b
    → ((a : A) → m ≡ done a → f a ≡ done b → P b)
    → P b
bind_lift P (done a) f b h k = k a refl h
bind_lift P (failed e) f b h k = absurd (ground arith)

pub if_lift {ℓ μ} :
    {B : Type ℓ} (P : B → Type μ) (c : Bool) (x y : Outcome B) (b : B)
    → (if c then x else y) ≡ done b
    → (c ≡ true → x ≡ done b → P b)
    → (c ≡ false → y ≡ done b → P b)
    → P b
if_lift P true x y b h f g = f refl h
if_lift P false x y b h f g = g refl h

pub failed_not {ℓ μ} : {B : Type ℓ} {X : Type μ} (e : ErrorData) (b : B) → failed e ≡ done b → X
failed_not e b h = absurd (ground (arith, h))

pub done_inj {ℓ} : {A : Type ℓ} (a b : A) → done a ≡ done b → a ≡ b
done_inj a b h = cc

pub record Filters : Type 0 where
  pub kinds : List Kind
  pub entities : List String
  pub tags : List String

abbrev pub no_filters : Filters
no_filters = record { kinds = []; entities = []; tags = [] }

pub data Liveness (Time : Type 0) : Type 0 where
  live : Liveness Time
  as_of : Time → Liveness Time
  any_time : Liveness Time

abbrev pub default_pool : ℕ
default_pool = 64

pub record Search (F Time : Type 0) : Type 0 where
  pub spaces : List SpaceName
  pub text : Option Text
  pub vector : Option (List F)
  pub filters : Filters
  pub liveness : Liveness Time
  pub pool : ℕ
  pub episodes : Bool

pub record Lookup (Time : Type 0) : Type 0 where
  pub spaces : List SpaceName
  pub filters : Filters
  pub liveness : Liveness Time
  pub limit : ℕ

abbrev pub new_search : {F Time : Type 0} → List SpaceName → Search F Time
new_search spaces = record {
  spaces = spaces;
  text = none;
  vector = none;
  filters = no_filters;
  liveness = live;
  pool = default_pool;
  episodes = true;
}

abbrev pub new_lookup : {Time : Type 0} → List SpaceName → Lookup Time
new_lookup spaces = record {
  spaces = spaces;
  filters = no_filters;
  liveness = live;
  limit = default_pool;
}

-- The configuration that the tools read, the store and the embedder.
pub record Service (F Time : Type 0) : Type 0 where
  pub space : SpaceName
  pub pool : ℕ
  pub all_spaces : Outcome (List SpaceName)
  pub dim : ℕ
  pub embed : Text → Outcome (List F)
  pub direct_lookup : Lookup Time → Outcome (List (MemoryRecord F Time))
  pub search_hybrid : Search F Time → Outcome (List (Candidate F Time))

abbrev pub user : SpaceName
user = "user"

-- `both.dedup()` on two names.
abbrev pub both : SpaceName → List SpaceName
both current = if str_eq current user then current ∷ [] else current ∷ user ∷ []

abbrev named : Result SpaceName → Outcome (List SpaceName)
named (ok space) = done (space ∷ [])
named (err e) = failed (invalid_space e)

module _ {F Time : Type 0} (service : Service F Time) where
  unfoldable pub spaces : Option String → Outcome (List SpaceName)
  spaces none = done (both service.space)
  spaces (some name) =
      if str_eq name "current"
      then done (service.space ∷ [])
      else if str_eq name "all"
      then service.all_spaces
      else named (new_space name)

  -- `none` is a search without a vector: the embedder has no dimension.
  unfoldable pub embed_query : Text → Outcome (Option (List F))
  embed_query text =
      if service.dim == 0 then done none else service.embed text >>= λ vector. done (some vector)
