-- ===== src/Sender/Roll.antt =====
-- The rolling checksum in the loop of rsyncsender/match.go.
pub mod Laws
use go_rsync_receiver.Prelude.{ℕ, ◌-◌, ◌%◌, ◌^◌, Option, none, some}
use go_rsync_receiver.Prelude.Words.{add32, sub32, mul32, shr}
use go_rsync_receiver.Checksum.{Sums, sign_extend}
use Prim.Native.Nat.{bit_and}

-- `readChunk` splits the checksum of the window: the low half, and the high half.
unfoldable pub halves : ℕ → Sums
halves sum = record { s1 = bit_and sum 0xffff; s2 = shr sum 16 }

-- The window's first byte leaves.
unfoldable pub remove_oldest : ℕ → ℕ → Sums → Sums
remove_oldest k oldest s = record {
  s1 = sub32 s.s1 (sign_extend oldest);
  s2 = sub32 s.s2 (mul32 (k % 2 ^ 32) (sign_extend oldest));
}

-- The byte behind the window enters.
unfoldable pub add_newest : ℕ → Sums → Sums
add_newest newest s =
    let s1' = add32 s.s1 (sign_extend newest) in record { s1 = s1'; s2 = add32 s.s2 s1' }

-- `uint32(uint16(s))` of both.
unfoldable pub low_halves : Sums → Sums
low_halves s = record { s1 = s.s1 % 2 ^ 16; s2 = s.s2 % 2 ^ 16 }

-- One step of the window: its length and its sums. There is no newest byte at the end of the file,
-- where the window shrinks.
unfoldable pub roll : ℕ → ℕ → Option ℕ → Sums → ℕ × Sums
roll k oldest (some newest) s = (k, low_halves (add_newest newest (remove_oldest k oldest s)))
roll k oldest none s = (k - 1, low_halves (remove_oldest k oldest s))
