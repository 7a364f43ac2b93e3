-- ===== src/Occupancy/Spec.antt =====
-- What the occupancy cap promises, stated on the rows themselves, with no index and no table.
use agmem.Prelude.{
  ℕ, suc, String, Bool, false, Option, none, some, List, [], ◌∷◌, ◌++◌, leb, ◌==◌, if◌then◌else◌,
  length, take, any, str_eq,
}
use agmem.Occupancy.{Resliced}

module _ {ℓ} {T : Type ℓ} (key : T → Option String) where
  abbrev pub is_from : String → T → Bool
  is_from source row = elim (key row) [ none ↦ false | some s ↦ str_eq s source ]

  -- How many of the rows come from the source.
  unfoldable pub occupied : String → List T → ℕ
  occupied source [] = 0
  occupied source (row ∷ rows) =
      if is_from source row then suc (occupied source rows) else occupied source rows

  module _ (limit : ℕ) where
    -- A row is over quota when `limit` rows of its source stand before it.
    unfoldable pub over : List T → T → Bool
    over before row = elim (key row) [
      | none ↦ false
      | some source ↦ leb limit (occupied source before)
    ]

    -- The rows within quota, and the surplus, each in page order.
    unfoldable pub kept : List T → List T → List T
    kept before [] = []
    kept before (row ∷ rows) =
        if over before row then kept (row ∷ before) rows else row ∷ kept (row ∷ before) rows

    unfoldable pub surplus : List T → List T → List T
    surplus before [] = []
    surplus before (row ∷ rows) =
        if over before row then row ∷ surplus (row ∷ before) rows else surplus (row ∷ before) rows

  -- The sources of the rows, each once, in order.
  unfoldable pub names : List T → List String → List String
  names [] found = found
  names (row ∷ rows) found = elim (key row) [
    | none ↦ names rows found
    | some source ↦ names rows (if any (str_eq source) found then found else found ++ source ∷ [])
  ]

module _ {ℓ} {T : Type ℓ} (key : T → Option String) where
  -- What the cap makes of a page: nothing while the page holds every row or no row of the page is
  -- over quota, and otherwise the kept rows with the surplus behind them.
  abbrev pub capped_page : List T → ℕ → ℕ → List T × Option Resliced
  capped_page ranked k limit =
      let fallen = surplus key limit [] (take k ranked) in
      if leb (length ranked) k
      then (ranked, none)
      else if length fallen == 0
      then (ranked, none)
      else (
        kept key limit [] ranked ++ surplus key limit [] ranked,
        some (record { displaced = length fallen; sources = names key fallen [] }),
      )
