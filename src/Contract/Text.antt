-- ===== src/Contract/Text.antt =====
-- Texts as code points.
use highgarden.Base.{ℕ, List, [], ◌∷◌}
use Prim.Native.Char.{code}
use Prim.Native.String.{String}

abbrev pub codes : String → List ℕ
codes String.[] = []
codes (String.◌∷◌ c s) = code c ∷ codes s
