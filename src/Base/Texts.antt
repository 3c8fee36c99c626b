-- ===== src/Base/Texts.antt =====
-- String literals as the bytes of C strings.
use Prim.Native.Nat.{ℕ}
use Prim.Native.Char.{code}
use Prim.Native.String.{String, [], ◌∷◌}
use mathlib.Core.List.{List}

-- The literals of the sources are ASCII.
abbrev pub characters_of : String → List ℕ
characters_of [] = List.[]
characters_of (c ∷ s) = List.◌∷◌ (code c) (characters_of s)
