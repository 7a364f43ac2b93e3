-- ===== src/Words/Chars.antt =====
-- A native text as its characters: Rust's `str::chars`.
use Prim.Native.Char.{code}
use Prim.Native.String.{[], ◌∷◌}
use agmem.Prelude.{ℕ, String, List}
use mathlib.Core.List.{[] as no_char, ◌∷◌ as char_then}

unfoldable pub chars : String → List ℕ
chars [] = no_char
chars (c ∷ s) = char_then (code c) (chars s)
