-- ===== src/Prelude/Text.antt =====
-- Equality of texts, under a name of its own beside the equality of numbers.
use Prim.Native.String.{String}
use text.Mathlib.Text.{◌==◌}
use mathlib.Core.Bool.{Bool}

unfoldable pub same_text : String → String → Bool
same_text s t = s == t
