-- ===== src/Reflect/Evidence.antt =====
-- What an answer of tools/reflect.rs says of its evidence.
use agmem.Prelude.{
  ◌<◌, ◌≡◌, refl, subst, String, true, false, Option, List, [], length, arith, length-map,
}
use agmem.Model.{Text, SpaceName, MemoryId, Derivation, Writer}
use agmem.Model.Names.{derivation_to_string}
use agmem.Words.{is_blank}
use agmem.Service.{done, bind_lift, if_lift, failed_not, done_inj}
use agmem.Float.{Float}
use agmem.Store.{NewMemory, BatchOutcome, Written, created, duplicate, got}
use agmem.Store.Insert.{insert_batch}
use agmem.Remember.Validate.{resolve_space}
use agmem.Remember.Request.{stored}
use agmem.Reflect.{
  Reflecting, ReflectParams, ReflectResult, RelatedClaim, Probed, batch_of_one, restated, fresh,
  resolve, replaced, embed_one, near, first_written, answer, send, conclude, run,
}
use agmem.Reflect.Cited.{resolve_exact}

-- A written insight has evidence; one that was not written reports none, and no claims near it.
abbrev pub Evident : {F : Type 0} → ReflectResult F → Type 0
Evident result =
    (result.created ≡ true → 0 < length result.derived_from)
    × (result.created ≡ false → (result.derived_from ≡ []) × (result.related ≡ []))

module _ {fl : Float} {Time : Type 0} (reflecting : Reflecting fl Time) (writer : Writer) where
  open fl use {F}

  answer-Evident :
      (space : SpaceName) (insight : Text) (cited : List Derivation)
      (related : List (RelatedClaim F)) (outcome : BatchOutcome) (w : Written MemoryId)
      → 0 < length cited
      → Evident (answer reflecting writer space insight cited related outcome w)
  answer-Evident space insight cited related outcome (created id) h = (
    λ _. omega (arith, h, length-map cited derivation_to_string),
    λ no. absurd (ground (arith, no)),
  )
  answer-Evident space insight cited related outcome (duplicate id) h =
      (λ yes. absurd (ground (arith, yes)), λ _. (refl, refl))

  send-Evident :
      (space : SpaceName) (m : NewMemory F Time) (cited : List Derivation) (p : Probed F)
      (result : ReflectResult F)
      → 0 < length cited
      → send reflecting writer space m cited p ≡ done result
      → Evident result
  unfolding send
  send-Evident space m cited (restated n) result h e =
      subst Evident (done_inj _ result e) (λ yes. absurd (ground (arith, yes)), λ _. (refl, refl))
  send-Evident space m cited (fresh related) result h e =
      bind_lift Evident
        (stored reflecting.writing.message
          (insert_batch reflecting.writing.engine (batch_of_one reflecting writer space m)))
        _ result e
        (λ outcome _ rest.
          bind_lift Evident (first_written outcome.memories) _ result rest (λ w _ last.
            subst Evident (done_inj _ result last)
              (answer-Evident space m.content cited related outcome w h)))

  -- With a store that answers one slot for each id that is looked up: an insight that is written is
  -- reported with at least one citation, and one that is not written with none and no related claims.
  pub run-Evident :
      (params : ReflectParams) (result : ReflectResult F)
      → ((names : List SpaceName) (ids : List String) (slots : List (Option Derivation))
          → reflecting.locate names ids ≡ got slots
          → length slots ≡ length ids)
      → run reflecting writer params ≡ done result
      → Evident result
  unfolding run conclude
  run-Evident params result one_each h =
      bind_lift Evident (resolve_space reflecting.writing params.space) _ result h (λ space _ rest.
        if_lift Evident (is_blank params.insight) _ _ result rest (λ blank. failed_not _ result)
          (λ text h1.
            bind_lift Evident (resolve reflecting writer space params.derived_from) _ result h1
              (λ cited found h2.
                let (asked, reads, slots, told, matched, once, exact, many) =
                  resolve_exact reflecting writer space params.derived_from cited one_each found in
                bind_lift Evident (replaced 0 [] params.supersedes) _ result h2 (λ ids _ h3.
                  bind_lift Evident (embed_one reflecting writer params.insight) _ result h3
                    (λ vector _ h4.
                      bind_lift Evident (near reflecting writer space vector _) _ result h4
                        (λ neighbours _ h5. send-Evident space _ cited _ result many h5))))))
