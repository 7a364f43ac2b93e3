-- ===== src/Forget/Snapshot.antt =====
-- What it means that a dry run showed a row, and that two scopes are one: tools/forget.rs.
use agmem.Prelude.{
  String, ◌≡◌, refl, ap, true, not, List, [], ◌∷◌, map, keep_if, arith, eq_iff, Bool-cases, inl,
  inr, All,
}
use agmem.Model.{Text}
use agmem.Hop.{contains}
use agmem.Forget.{
  Scope, scopes_eq, texts_eq, names_eq, Target, id_of, memory_ids, episode_ids, new_match,
  ForgetMatch,
}
use agmem.Forget.Request.{unseen}

texts_eq-eq : (a b : Text) → texts_eq a b ≡ true → a ≡ b
texts_eq-eq [] [] h = refl
texts_eq-eq [] (d ∷ b) h = cc
texts_eq-eq (c ∷ a) [] h = cc
texts_eq-eq (c ∷ a) (d ∷ b) h = ground (arith, texts_eq-eq a b)

names_eq-eq : (a b : List String) → names_eq a b ≡ true → a ≡ b
names_eq-eq [] [] h = refl
names_eq-eq [] (d ∷ b) h = cc
names_eq-eq (c ∷ a) [] h = cc
names_eq-eq (c ∷ a) (d ∷ b) h = ground (arith, names_eq-eq a b, eq_iff c d)

pub scopes_eq-eq : (a b : Scope) → scopes_eq a b ≡ true → a ≡ b
unfolding scopes_eq
scopes_eq-eq a b h = ground (arith, texts_eq-eq a.query b.query, names_eq-eq a.spaces b.spaces)

abbrev pub Shown : List String → List String → Type 0
Shown shown ids = All (λ id. contains shown id ≡ true) ids

all-Shown :
    (shown ids : List String) → keep_if (λ id. not (contains shown id)) ids ≡ [] → Shown shown ids
all-Shown shown [] h = tt
all-Shown shown (id ∷ ids) h = elim (Bool-cases (contains shown id)) [
  | inl yes_ ↦ (yes_, all-Shown shown ids (ground (arith, h, yes_)))
  | inr no_ ↦ absurd (ground (arith, h, no_))
]

module _ {F Time : Type 0} where
  memory_ids-Shown :
      (shown : List String) (targets : List (Target F Time))
      → Shown shown (map id_of targets)
      → Shown shown (memory_ids targets)
  unfolding memory_ids
  memory_ids-Shown shown [] h = tt
  memory_ids-Shown shown (Target.memory space r from ∷ targets) h =
      (h.0, memory_ids-Shown shown targets h.1)
  memory_ids-Shown shown (Target.episode space detail ∷ targets) h =
      memory_ids-Shown shown targets h.1

  episode_ids-Shown :
      (shown : List String) (targets : List (Target F Time))
      → Shown shown (map id_of targets)
      → Shown shown (episode_ids targets)
  unfolding episode_ids
  episode_ids-Shown shown [] h = tt
  episode_ids-Shown shown (Target.memory space r from ∷ targets) h =
      episode_ids-Shown shown targets h.1
  episode_ids-Shown shown (Target.episode space detail ∷ targets) h =
      (h.0, episode_ids-Shown shown targets h.1)

  -- Where no row is unseen, each id of a request was shown.
  pub unseen-Shown :
      (shown : List String) (targets : List (Target F Time))
      → unseen shown targets ≡ []
      → Shown shown (memory_ids targets) × Shown shown (episode_ids targets)
  unseen-Shown shown targets h =
      let all = all-Shown shown (map id_of targets) h in
      (memory_ids-Shown shown targets all, episode_ids-Shown shown targets all)

  pub matched_ids :
      (targets : List (Target F Time))
      → map (λ (m : ForgetMatch). m.id) (map new_match targets) ≡ map id_of targets
  unfolding new_match
  matched_ids [] = refl
  matched_ids (Target.memory space r from ∷ targets) = ap (◌∷◌ r.id) (matched_ids targets)
  matched_ids (Target.episode space detail ∷ targets) =
      ap (◌∷◌ detail.episode.id) (matched_ids targets)
