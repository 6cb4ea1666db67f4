-- ===== src/Prelude/Checks.antt =====
-- Tests that handlers of several modules make on strings.
use Prim.Native.Nat.{ℕ, ◌%◌, ◌^◌}
use mathlib.Core.Bool.{Bool, false, ◌||◌}
use mathlib.Core.List.{List, [], ◌∷◌}
use energychain_node.Prelude.Tests.{ltb}
use energychain_node.Prelude.Lists.{length}
use energychain_node.Prelude.Classes.{◌==◌, list_eq, ℕ_eq}
use energychain_node.Prelude.Text.{Bytes}

-- Whether a string is in a list: a loop over a slice, or a Go map from strings to true.
abbrev pub listed : Bytes → List Bytes → Bool
listed a [] = false
listed a (x ∷ xs) = x == a || listed a xs

-- `uint32(len(metadata)) > cap`
abbrev pub exceeds : Bytes → ℕ → Bool
exceeds metadata cap = ltb cap (length metadata % 2 ^ 32)
