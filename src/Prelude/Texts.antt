-- ===== src/Prelude/Texts.antt =====
-- Python's `str`, as far as the program uses it.
use Prim.Native.String.{String, [], ◌∷◌}
use mathlib.Core.Bool.{Bool, true, false}
use text.Mathlib.Text.{◌==◌}
use alteryx_server_maintenan.Prelude.Tests.{if◌then◌else◌}

-- `s.startswith(prefix)`.
unfoldable pub starts_with : String → String → Bool
starts_with [] s = true
starts_with (c ∷ p) [] = false
starts_with (c ∷ p) (d ∷ s) =
    let rest = starts_with p s in if (c ∷ []) == (d ∷ []) then rest else false
