-- ===== src/Tests/Chunks.antt =====
-- Texts that crates/agmem-core/src/chunk.rs cuts.
use agmem.Prelude.{◌≤◌, ◌<◌, ◌≡◌, ◌⊎◌, refl, false, [], ◌∷◌, length, any, All}
use agmem.Words.{chars, is_white}
use agmem.Model.{Text}
use agmem.Chunk.{
  chunk, target_chars, units, units_of, paragraphs, paragraphs_from, lines_from, pack, trim_start,
  trim_end,
}
use agmem.Chunk.Ink.{ink, inks}
use agmem.Chunk.Lossless.{chunk_lossless}
use agmem.Chunk.Bounds.{chunk_bounds}

abbrev text : Text
text = chars "First para.\n\nSecond para.\n"

chunk-text : chunk text ≡ chars "First para. Second para." ∷ []
unfolding chunk units units_of paragraphs paragraphs_from lines_from pack trim_start trim_end chars
    is_white
chunk-text = refl

chunk_lossless_example : inks (chunk text) ≡ ink text
chunk_lossless_example = chunk_lossless text

chunk_bounds_example :
    All (λ c. (0 < length c) × ((length c ≤ target_chars) ⊎ (any is_white c ≡ false))) (chunk text)
chunk_bounds_example = chunk_bounds text
