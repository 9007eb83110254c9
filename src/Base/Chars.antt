-- ===== src/Base/Chars.antt =====
-- Strings as lists of the codes of their characters, and signed integers over the native numbers.
use Prim.Native.Nat.{ℕ}
use Prim.Native.Char.{code}
use Prim.Native.String.{String, [] as no_text, ◌∷◌ as ◌in_front◌}
use mathlib.Core.List.{List, [], ◌∷◌}

abbrev pub chars : String → List ℕ
chars no_text = []
chars (c in_front s) = code c ∷ chars s

pub data ℤ : Type 0 where
  pos : ℕ → ℤ
  negsuc : ℕ → ℤ
