-- ===== src/Prelude/ByteStrings.antt =====
-- Byte strings: a byte is a number below 256, a Go []byte or string is a list of them.
use Prim.Native.Nat.{ℕ, ◌<◌}
use mathlib.Core.Path.{◌≡◌}
use mathlib.Core.Logic.{◌↔◌}
use Prim.Native.Char.{code}
use Prim.Native.String.{String}
use mathlib.Core.Bool.{Bool, true, false, ◌&&◌}
use mathlib.Core.List.{List, [], ◌∷◌}
use native.Mathlib.Omega.{arith}
use go_rsync_receiver.Prelude.Tests.{◌==◌}
use go_rsync_receiver.Prelude.Lists.{All}

abbrev pub Bytes : Type 0
Bytes = List ℕ

abbrev pub IsByte : ℕ → Type 0
IsByte b = b < 256

abbrev pub AreBytes : Bytes → Type 0
AreBytes = All IsByte

-- A string literal, of ASCII characters
abbrev pub codes : String → Bytes
codes String.[] = []
codes (String.◌∷◌ c text) = code c ∷ codes text

-- `bytes.Equal`, and `==` on strings.
unfoldable pub equal : Bytes → Bytes → Bool
equal [] [] = true
equal (x ∷ xs) (y ∷ ys) = x == y && equal xs ys
equal _ _ = false

pub equal_iff : (p q : Bytes) → (equal p q ≡ true) ↔ (p ≡ q)
unfolding equal
equal_iff [] q = ground arith
equal_iff (b ∷ p) [] = ground arith
equal_iff (b ∷ p) (c ∷ q) = ground (arith, equal_iff p q)
