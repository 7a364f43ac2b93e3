-- ===== src/Forget/Cascade.antt =====
-- What a purge takes along: the proofs on `cascade_documents` and `expand_chains` of tools/forget.rs.
use agmem.Prelude.{
  String, ◌≡◌, refl, subst, inl, inr, Bool, true, Option, List, [], ◌∷◌, ◌++◌, any, arith, All,
  All-map, Bool-cases, str_eq, eq_iff, if◌then◌else◌,
}
use agmem.Model.{SpaceName, MemoryId, EpisodeId, MemoryRecord}
use agmem.Service.{done, Outcome-cases}
use agmem.Forget.{ForgetStore, Read, found, unknown, broken, Target, id_of, seen}
use agmem.Forget.Chains.{
  cascade_from, cascade_documents, add_links, expand_from, expand_chains, expand,
}
use agmem.Forget.Pulled.{Has, Keeps, CitersIn, seen-append, Has-more, cascade_from_lem}

module _ {F Time : Type 0} (store : ForgetStore F Time) where
  -- A claim's whole chain, or an episode, is among the rows.
  abbrev pub Taken : List (Target F Time) → Target F Time → Type 0
  Taken rows (Target.memory space r from) =
      (chain : List (MemoryRecord F Time)) × (store.history_chain space r.id ≡ found chain)
      × Has store rows chain
  Taken rows (Target.episode space detail) = seen rows detail.episode.id ≡ true

  add_links_lem :
      (space : SpaceName) (from : Option EpisodeId) (expanded : List (Target F Time))
      (chain : List (MemoryRecord F Time))
      → Keeps store expanded (add_links store space from expanded chain)
        × Has store (add_links store space from expanded chain) chain
  unfolding add_links
  add_links_lem space from expanded [] = ((λ id s. s), tt)
  add_links_lem space from expanded (link ∷ chain) =
      let one = Target.memory space link from ∷ [] in
      let next = if seen expanded link.id then expanded else expanded ++ one in
      let here : seen next link.id ≡ true =
        ground (arith, seen-append store expanded one link.id, eq_iff link.id link.id) in
      let (keeps, has) = add_links_lem space from next chain in
      (
        (λ id s. keeps id (ground (arith, seen-append store expanded one id, s))),
        (keeps link.id here, has),
      )

  expand_from_lem :
      (expanded targets result : List (Target F Time))
      → expand_from store expanded targets ≡ done result
      → Keeps store expanded result × All (Taken result) targets
  unfolding expand_from
  expand_from_lem expanded [] result h =
      let same : expanded ≡ result = cc in ((λ id k. subst (λ p. seen p id ≡ true) same k), tt)
  expand_from_lem expanded (Target.episode space detail ∷ targets) result h =
      let one = Target.episode space detail ∷ [] in
      let id = detail.episode.id in
      let (keeps, all) = expand_from_lem (expanded ++ one) targets result h in
      (
        (λ i s. keeps i (ground (arith, seen-append store expanded one i, s))),
        (keeps id (ground (arith, seen-append store expanded one id, eq_iff id id)), all),
      )
  expand_from_lem expanded (Target.memory space r from ∷ targets) result h =
      go (store.history_chain space r.id) refl
        (λ chain e. expand_from_lem (add_links store space from expanded chain) targets result e)
    where
      go :
          (read : Read (List (MemoryRecord F Time)))
          → store.history_chain space r.id ≡ read
          → ((chain : List (MemoryRecord F Time))
              → expand_from store (add_links store space from expanded chain) targets ≡ done result
              → Keeps store (add_links store space from expanded chain) result
                × All (Taken result) targets)
          → Keeps store expanded result × All (Taken result) (Target.memory space r from ∷ targets)
      go unknown e later = cc (rw (e, expand_from) at h)
      go (broken x) e later = cc (rw (e, expand_from) at h)
      go (found chain) e later =
          let (keeps1, has) = add_links_lem space from expanded chain in
          let (keeps, all) = later chain (rw (e, expand_from) at h) in
          (
            (λ i s. keeps i (keeps1 i s)),
            ((chain, e, Has-more store _ result chain keeps has), all),
          )

  -- The walk of a chain comes back with the claim that it started from.
  abbrev pub StartsChains : Type 0
  StartsChains =
      (space : SpaceName) (id : MemoryId) (chain : List (MemoryRecord F Time))
      → store.history_chain space id ≡ found chain
      → any (λ r. str_eq r.id id) chain ≡ true

  seen_of_Has :
      (rows : List (Target F Time)) (id : String) (chain : List (MemoryRecord F Time))
      → any (λ r. str_eq r.id id) chain ≡ true
      → Has store rows chain
      → seen rows id ≡ true
  seen_of_Has rows id [] s h = cc
  seen_of_Has rows id (r ∷ chain) s h = elim (Bool-cases (str_eq r.id id)) [
    | inl e ↦ subst (λ i. seen rows i ≡ true) ((eq_iff r.id id).0 e) h.0
    | inr e ↦ seen_of_Has rows id chain (ground (arith, s, e)) h.1
  ]

  Taken-seen :
      (rows : List (Target F Time)) (t : Target F Time)
      → StartsChains
      → Taken rows t
      → seen rows (id_of t) ≡ true
  Taken-seen rows (Target.memory space r from) starts (chain, e, has) =
      seen_of_Has rows r.id chain (starts space r.id chain e) has
  Taken-seen rows (Target.episode space detail) starts k = k

  all_kept :
      (rows targets : List (Target F Time))
      → StartsChains
      → All (Taken rows) targets
      → Keeps store targets rows
  all_kept rows [] starts all id s = cc
  all_kept rows (t ∷ targets) starts all id s = elim (Bool-cases (str_eq (id_of t) id)) [
    | inl e ↦
        subst (λ i. seen rows i ≡ true) ((eq_iff (id_of t) id).0 e) (Taken-seen rows t starts all.0)
    | inr e ↦ all_kept rows targets starts all.1 id (ground (arith, s, e))
  ]

  All-front :
      (rows xs ys : List (Target F Time)) → All (Taken rows) (xs ++ ys) → All (Taken rows) xs
  All-front rows [] ys h = tt
  All-front rows (x ∷ xs) ys h = (h.0, All-front rows xs ys h.1)

  CitersIn-more :
      (rows more : List (Target F Time)) (t : Target F Time)
      → Keeps store rows more
      → CitersIn store rows t
      → CitersIn store more t
  CitersIn-more rows more (Target.memory space r from) k c = tt
  CitersIn-more rows more (Target.episode space detail) k c =
      λ d. let (citers, e, has) = c d in (citers, e, Has-more store rows more citers k has)

  -- Where the walk of a chain comes back with the claim that it started from: the rows of a purge
  -- that is not refused hold every version of each claim selected and each episode selected, and,
  -- with `cascade` or without, every live claim that cites a document selected. Nothing is said of the
  -- claims that cite an episode that is no document.
  pub purge_takes :
      (cascade : Bool) (targets result : List (Target F Time))
      → StartsChains
      → expand store true cascade targets ≡ done result
      → All (Taken result) targets × All (CitersIn store result) targets
  unfolding expand cascade_documents expand_chains
  purge_takes cascade targets result starts h =
      elim (Outcome-cases (cascade_from store cascade targets [] targets)) [
        | inr (e, k) ↦ cc (rw k at h)
        | inl (pulled, k) ↦
            let (keeps, cited) = cascade_from_lem store cascade targets [] targets pulled k in
            let (kept, taken) = expand_from_lem [] (targets ++ pulled) result (rw k at h) in
            let stays = all_kept result (targets ++ pulled) starts taken in
            (
              All-front result targets pulled taken,
              All-map (CitersIn store (targets ++ pulled)) (CitersIn store result) targets
                  (λ t. CitersIn-more (targets ++ pulled) result t stays) cited,
            )
      ]
