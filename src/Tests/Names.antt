-- ===== src/Tests/Names.antt =====
-- Texts that the enums and citations of crates/agmem-core/src/model.rs read and write.
use agmem.Prelude.{◌≡◌, ◌↔◌, true}
use agmem.Model.{ok, memory}
use agmem.Model.Names.{derivation_from_str, derivation_to_string, is_ulid}
use agmem.Model.Citation.{derivation_exact, cited_id}

derivation_exact_example :
    (derivation_from_str "memory:01ARZ3NDEKTSV4RRFFQ69G5FAV"
      ≡ ok (memory "01ARZ3NDEKTSV4RRFFQ69G5FAV"))
    ↔ (("memory:01ARZ3NDEKTSV4RRFFQ69G5FAV"
          ≡ derivation_to_string (memory "01ARZ3NDEKTSV4RRFFQ69G5FAV"))
        × (is_ulid (cited_id (memory "01ARZ3NDEKTSV4RRFFQ69G5FAV")) ≡ true))
derivation_exact_example =
    derivation_exact "memory:01ARZ3NDEKTSV4RRFFQ69G5FAV" (memory "01ARZ3NDEKTSV4RRFFQ69G5FAV")
