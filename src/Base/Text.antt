-- ===== src/Base/Text.antt =====
-- C string literals: their bytes, without the terminator.
use Prim.Native.Char.{code}
use Prim.Native.String.{String}
use mathlib.Core.List.{[], ◌∷◌}
use ecu_platform.Base.Memory.{Bytes}

abbrev pub literal : String → Bytes
literal String.[] = []
literal (String.◌∷◌ c s) = code c ∷ literal s
