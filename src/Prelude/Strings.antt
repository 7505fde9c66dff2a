-- ===== src/Prelude/Strings.antt =====
-- Text as bytes, and the functions of <cstring> on it.
use prefill_opt.Prelude.Tests.{◌==◌, if◌then◌else◌}
use Prim.Native.Nat.{ℕ}
use Prim.Native.Char.{code}
use Prim.Native.String.{String}
use mathlib.Core.Bool.{Bool, true, false, ◌&&◌, ◌||◌}
use mathlib.Core.List.{List, [], ◌∷◌}

-- What a `char *` reads as: it ends at the first zero.
unfoldable pub c_string : List ℕ → List ℕ
c_string [] = []
c_string (c ∷ cs) = let rest = c_string cs in if c == 0 then [] else c ∷ rest

-- `strncmp(word, piece, length) == 0`, for a word of this length without zero bytes
abbrev pub starts_with : List ℕ → List ℕ → Bool
starts_with [] piece = true
starts_with (w ∷ ws) [] = false
starts_with (w ∷ ws) (c ∷ cs) = (w == c) && starts_with ws cs

-- `strstr`
unfoldable pub contains : List ℕ → List ℕ → Bool
contains needle [] = starts_with needle []
contains needle (c ∷ text) = starts_with needle (c ∷ text) || contains needle text

-- Whether two texts are the same, `==` of `std::string`
unfoldable pub same_text : List ℕ → List ℕ → Bool
same_text [] [] = true
same_text [] (b ∷ bs) = false
same_text (a ∷ as') [] = false
same_text (a ∷ as') (b ∷ bs) = (a == b) && same_text as' bs

-- The bytes of an ASCII text
abbrev pub codes : String → List ℕ
codes String.[] = []
codes (String.◌∷◌ c s) = code c ∷ codes s
