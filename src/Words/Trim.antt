-- ===== src/Words/Trim.antt =====
-- Rust's `str::trim` on native texts.
use Prim.Native.Char.{code}
use Prim.Native.String.{[], ◌∷◌}
use agmem.Prelude.{String, true, false, str_eq, ◌&&◌, if◌then◌else◌}
use agmem.Words.{is_white}

unfoldable pub trim_start : String → String
trim_start [] = ""
trim_start (c ∷ s) = elim (is_white (code c)) [ true ↦ trim_start s | false ↦ c ∷ s ]

unfoldable pub trim_end : String → String
trim_end [] = ""
trim_end (c ∷ s) =
    let rest = trim_end s in if str_eq rest "" && is_white (code c) then "" else c ∷ rest

unfoldable pub trim_str : String → String
unfolding trim_start trim_end is_white
trim_str s = trim_end (trim_start s)
