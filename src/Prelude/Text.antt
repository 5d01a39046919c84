-- ===== src/Prelude/Text.antt =====
-- Texts: the parts of an f-string, and the length that a field's constraint measures.
use Prim.Native.Nat.{ℕ, suc}
use Prim.Native.String.{String, ◌++◌}
use mathlib.Core.Bool.{Bool, ◌&&◌}
use mathlib.Core.List.{List, [], ◌∷◌}
use open_data_gov.Prelude.Tests.{leb}

-- f"{a}{b}…" of the texts of its parts.
unfoldable pub f_string : List String → String
f_string [] = ""
f_string (s ∷ parts) = s ++ f_string parts

-- len(s), in characters
unfoldable pub text_length : String → ℕ
text_length String.[] = 0
text_length (String.◌∷◌ c s) = suc (text_length s)

-- Field(min_length=lo, max_length=hi)
unfoldable pub has_length : ℕ → ℕ → String → Bool
has_length lo hi s = leb lo (text_length s) && leb (text_length s) hi
