-- ===== src/Forget/Pulled.antt =====
-- What `cascade_documents` of tools/forget.rs pulls in: the claims that cite a document.
use agmem.Prelude.{
  String, ◌≡◌, refl, subst, inl, inr, Bool, true, false, ◌||◌, List, [], ◌∷◌, ◌++◌, map, any, arith,
  All, All-map, Bool-cases, eq_iff,
}
use agmem.Model.{SpaceName, EpisodeId, MemoryRecord, is_document}
use agmem.Service.{done, Outcome-cases}
use agmem.Forget.{ForgetStore, Target, seen}
use agmem.Forget.Chains.{cascade_from, pull, fresh_citers, pull_citers}

pub any-append {ℓ} :
    {A : Type ℓ} (p : A → Bool) (xs ys : List A) → any p (xs ++ ys) ≡ (any p xs || any p ys)
any-append p [] ys = refl
any-append p (x ∷ xs) ys = ground (arith, any-append p xs ys)

module _ {F Time : Type 0} (store : ForgetStore F Time) where
  -- Each of the claims is one of the rows.
  abbrev pub Has : List (Target F Time) → List (MemoryRecord F Time) → Type 0
  Has rows claims = All (λ r. seen rows r.id ≡ true) claims

  -- The rows keep what they had.
  abbrev pub Keeps : List (Target F Time) → List (Target F Time) → Type 0
  Keeps rows more = (id : String) → seen rows id ≡ true → seen more id ≡ true

  -- The claims that cite a document are among the rows; other rows have none.
  abbrev pub CitersIn : List (Target F Time) → Target F Time → Type 0
  CitersIn rows (Target.memory space r from) = Unit
  CitersIn rows (Target.episode space detail) =
      is_document detail.episode ≡ true
      → (citers : List (MemoryRecord F Time)) × (store.document_citers space detail.episode.id
          ≡ done citers)
        × Has rows citers

  pub seen-append :
      (xs ys : List (Target F Time)) (id : String) → seen (xs ++ ys) id ≡ (seen xs id || seen ys id)
  seen-append xs ys id = any-append _ xs ys

  pub Has-more :
      (rows more : List (Target F Time)) (claims : List (MemoryRecord F Time))
      → Keeps rows more
      → Has rows claims
      → Has more claims
  Has-more rows more claims k h =
      All-map (λ r. seen rows r.id ≡ true) (λ r. seen more r.id ≡ true) claims (λ r. k r.id) h

  seen-pull :
      (space : SpaceName) (doc : EpisodeId) (claims : List (MemoryRecord F Time))
      → Has (map (pull store space doc) claims) claims
  seen-pull space doc [] = tt
  seen-pull space doc (r ∷ rs) = (
    ground (arith, eq_iff r.id r.id),
    Has-more (map (pull store space doc) rs) (map (pull store space doc) (r ∷ rs)) rs
        (λ id h. ground (arith, h)) (seen-pull space doc rs),
  )

  -- A citer is a target, or was pulled in before, or is fresh.
  citers_in :
      (targets pulled more : List (Target F Time)) (citers : List (MemoryRecord F Time))
      → Keeps pulled more
      → Has more (fresh_citers store targets pulled citers)
      → Has (targets ++ more) citers
  citers_in targets pulled more [] k h = tt
  citers_in targets pulled more (c ∷ cs) k h = elim (Bool-cases (seen targets c.id)) [
    | inl old ↦ (
      ground (arith, seen-append targets more c.id, old),
      citers_in targets pulled more cs k (rw old at h),
    )
    | inr other ↦ elim (Bool-cases (seen pulled c.id)) [
      | inl before ↦ (
        ground (arith, seen-append targets more c.id, k c.id before),
        citers_in targets pulled more cs k (rw (other, before) at h),
      )
      | inr fresh ↦
          let both = rw (other, fresh) at h in
          (
            ground (arith, seen-append targets more c.id, both.0),
            citers_in targets pulled more cs k both.1,
          )
    ]
  ]

  pulled_all :
      (cascade : Bool) (space : SpaceName) (doc : EpisodeId) (pulled pulled2 : List (Target F Time))
      (fresh : List (MemoryRecord F Time))
      → pull_citers store cascade space doc pulled fresh ≡ done pulled2
      → Keeps pulled pulled2 × Has pulled2 fresh
  pulled_all cascade space doc pulled pulled2 [] h =
      let same : pulled ≡ pulled2 = cc in ((λ id k. subst (λ p. seen p id ≡ true) same k), tt)
  pulled_all false space doc pulled pulled2 (c ∷ cs) h = cc
  pulled_all true space doc pulled pulled2 (c ∷ cs) h =
      let extra = map (pull store space doc) (c ∷ cs) in
      let same : pulled ++ extra ≡ pulled2 = cc in
      subst (λ p. Keeps pulled p × Has p (c ∷ cs)) same
        (
          (λ id k. ground (arith, seen-append pulled extra id, k)),
          Has-more extra (pulled ++ extra) (c ∷ cs)
              (λ id k. ground (arith, seen-append pulled extra id, k))
              (seen-pull space doc (c ∷ cs)),
        )

  pub cascade_from_lem :
      (cascade : Bool) (targets pulled rest final : List (Target F Time))
      → cascade_from store cascade targets pulled rest ≡ done final
      → Keeps pulled final × All (CitersIn (targets ++ final)) rest
  unfolding cascade_from
  cascade_from_lem cascade targets pulled [] final h =
      let same : pulled ≡ final = cc in ((λ id k. subst (λ p. seen p id ≡ true) same k), tt)
  cascade_from_lem cascade targets pulled (Target.memory space r from ∷ rest) final h =
      let (keeps, all) = cascade_from_lem cascade targets pulled rest final h in (keeps, (tt, all))
  cascade_from_lem cascade targets pulled (Target.episode space detail ∷ rest) final h =
      elim (Bool-cases (is_document detail.episode)) [
        | inr text ↦
            let (keeps, all) =
              cascade_from_lem cascade targets pulled rest final (rw (cascade_from, text) at h) in
            (keeps, ((λ d. cc), all))
        | inl document ↦
            let id = detail.episode.id in
            elim (Outcome-cases (store.document_citers space id)) [
              | inr (e, k) ↦ cc (rw (cascade_from, document, k) at h)
              | inl (citers, k) ↦
                  let fresh = fresh_citers store targets pulled citers in
                  elim (Outcome-cases (pull_citers store cascade space id pulled fresh)) [
                    | inr (e, l) ↦ cc (rw (cascade_from, document, k, l) at h)
                    | inl (pulled2, l) ↦
                        let (keeps2, has) = pulled_all cascade space id pulled pulled2 fresh l in
                        let (keeps, all) =
                          cascade_from_lem cascade targets pulled2 rest final
                            (rw (cascade_from, document, k, l) at h) in
                        (
                          (λ i s. keeps i (keeps2 i s)),
                          (
                            (λ d. (
                              citers,
                              k,
                              citers_in targets pulled final citers (λ i s. keeps i (keeps2 i s))
                                  (Has-more pulled2 final fresh keeps has),
                            )),
                            all,
                          ),
                        )
                  ]
            ]
      ]
