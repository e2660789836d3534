-- ===== src/Base/Text.antt =====
-- Text literals as bytes: the code points, which are the bytes of an ASCII text.
use Prim.Native.Char.{code}
use Prim.Native.String.{String}
use mathlib.Core.List.{[], ◌∷◌}
use gosh.Base.Lists.{Bytes}

abbrev pub codes : String → Bytes
codes String.[] = []
codes (String.◌∷◌ c s) = code c ∷ codes s
