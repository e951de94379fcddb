-- ===== src/Prelude/Text.antt =====
-- Texts as keys. Go compares strings byte by byte, and UTF-8 keeps the order of the code points.
use Prim.Native.Char.{code}
use Prim.Native.String.{String}
use text.Mathlib.Text.{◌==◌ as str_eq}
use text.Mathlib.TextEquality.{eq_iff, Char-path}
use mathlib.Core.Path.{◌≡◌, refl, ap₂}
use mathlib.Core.Logic.{◌⊎◌, inl, inr}
use mathlib.Core.Bool.{Bool, true, false}
use native.Mathlib.Omega.{arith}
use effective_next.Prelude.Tests.{dec_of_iff, ltb, ◌==◌, if◌then◌else◌}

unfoldable pub str_dec : Discrete String
str_dec s t = dec_of_iff (str_eq s t) (eq_iff s t)

-- `a <= b` on Go strings.
unfoldable pub str_le : String → String → Bool
str_le String.[] t = true
str_le (String.◌∷◌ c s) String.[] = false
str_le (String.◌∷◌ c s) (String.◌∷◌ d t) =
    if ltb (code c) (code d) then true else if code c == code d then str_le s t else false

pub str_le_refl : (s : String) → str_le s s ≡ true
unfolding str_le
str_le_refl String.[] = refl
str_le_refl (String.◌∷◌ c s) = ground (arith, str_le_refl s)

pub str_le_total : (s t : String) → (str_le s t ≡ true) ⊎ (str_le t s ≡ true)
unfolding str_le
str_le_total String.[] t = inl refl
str_le_total (String.◌∷◌ c s) String.[] = inr refl
str_le_total (String.◌∷◌ c s) (String.◌∷◌ d t) = ground (arith, str_le_total s t)

pub str_le_trans : (s t u : String) → str_le s t ≡ true → str_le t u ≡ true → str_le s u ≡ true
unfolding str_le
str_le_trans String.[] t u h k = refl
str_le_trans (String.◌∷◌ c s) String.[] u h k = cc
str_le_trans (String.◌∷◌ c s) (String.◌∷◌ d t) String.[] h k = cc
str_le_trans (String.◌∷◌ c s) (String.◌∷◌ d t) (String.◌∷◌ e u) h k =
    ground (arith, str_le_trans s t u)

pub str_le_antisymm : (s t : String) → str_le s t ≡ true → str_le t s ≡ true → s ≡ t
unfolding str_le
str_le_antisymm String.[] String.[] h k = refl
str_le_antisymm String.[] (String.◌∷◌ d t) h k = cc
str_le_antisymm (String.◌∷◌ c s) String.[] h k = cc
str_le_antisymm (String.◌∷◌ c s) (String.◌∷◌ d t) h k =
    ap₂ String.◌∷◌ (Char-path c d (ground arith))
      (str_le_antisymm s t (ground arith) (ground arith))
