-- ===== src/Model/Names.antt =====
-- Names and ids, and what a summary cites: `SpaceName`, the `record_id!` types and `Derivation` of
-- crates/agmem-core/src/model.rs.
use Prim.Native.Char.{code}
use Prim.Native.String.{[], ◌∷◌, ◌++◌, len}
use agmem.Prelude.{
  ℕ, String, Bool, true, ◌&&◌, ◌||◌, not, Option, none, some, leb, ◌==◌, str_eq, if◌then◌else◌,
}
use agmem.Model.{
  invalid_space_name, invalid_record_id, unknown_variant, Result, ok, err, SpaceName, Derivation,
  memory, Source, agent, external,
}

-- `name.chars().all(…)`
unfoldable pub all_chars : (ℕ → Bool) → String → Bool
all_chars p [] = true
all_chars p (c ∷ s) = p (code c) && all_chars p s

is_lower : ℕ → Bool
is_lower c = leb b'a' c && leb c b'z'

is_upper : ℕ → Bool
is_upper c = leb b'A' c && leb c b'Z'

is_digit : ℕ → Bool
is_digit c = leb b'0' c && leb c b'9'

abbrev pub max_len : ℕ
max_len = 64

unfoldable pub is_space_char : ℕ → Bool
unfolding is_lower is_digit
is_space_char c = is_lower c || is_digit c || c == b'-' || c == b'_'

unfoldable pub new_space : String → Result SpaceName
unfolding all_chars is_space_char
new_space name =
    if not (str_eq name "") && leb (len name) max_len && all_chars is_space_char name
    then ok name
    else err (invalid_space_name name)

abbrev pub ulid_len : ℕ
ulid_len = 26

unfoldable pub is_ulid_char : ℕ → Bool
unfolding is_digit is_upper
is_ulid_char c = is_digit c || is_upper c

unfoldable pub is_ulid : String → Bool
unfolding all_chars is_ulid_char
is_ulid candidate = len candidate == ulid_len && all_chars is_ulid_char candidate

-- `MemoryId::new`, `EpisodeId::new` and `ChunkId::new`, one macro's.
unfoldable pub new_id : String → Result String
new_id id = if is_ulid id then ok id else err (invalid_record_id id)

-- `s.split_once(':')`
unfoldable pub split_once : String → Option (String × String)
split_once [] = none
split_once (c ∷ s) =
    let rest = split_once s in
    if code c == b':'
    then some ("", s)
    else elim rest [ none ↦ none | some (head, tail) ↦ some (c ∷ head, tail) ]

unfoldable pub derivation_to_string : Derivation → String
derivation_to_string (memory id) = "memory:" ++ id
derivation_to_string (Derivation.episode id) = "episode:" ++ id

abbrev tagged : (String → Derivation) → Result String → Result Derivation
tagged wrap (ok id) = ok (wrap id)
tagged wrap (err e) = err e

unfoldable pub derivation_from_str : String → Result Derivation
derivation_from_str s = elim (split_once s) [
  | some (head, id) ↦
      if str_eq head "memory"
      then tagged memory (new_id id)
      else if str_eq head "episode"
      then tagged Derivation.episode (new_id id)
      else err (unknown_variant "derivation" s)
  | none ↦ err (unknown_variant "derivation" s)
]

-- `tools::provenance`: the text of a source.
unfoldable pub provenance : Source → String
provenance agent = "agent"
provenance (Source.episode id) = "episode:" ++ id
provenance (external origin) = "external:" ++ origin
