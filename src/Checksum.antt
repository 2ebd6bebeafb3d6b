-- ===== src/Checksum.antt =====
-- rsyncchecksum/rsyncchecksum.go: the weak checksum, and the tags of the sender's table. The strong
-- one is MD4 (github.com/mmcloughlin/md4), a parameter of the model.
pub mod Exact
use go_rsync_receiver.Prelude.{ℕ, ◌+◌, ◌-◌, ◌*◌, ◌/◌, ◌%◌, ◌^◌, List, [], ◌∷◌, ◌++◌, Bytes}
use go_rsync_receiver.Prelude.Int.{ℤ}
use go_rsync_receiver.Prelude.Words.{to_u32, to_i32, add32, mul32, shl32, shr, sar}
use go_rsync_receiver.Wire.{le_bytes}
use Prim.Native.Nat.{bit_and}

-- `s1 + s2` of two uint16, masked.
unfoldable pub tag2 : ℕ → ℕ → ℕ
tag2 s1 s2 = bit_and ((s1 + s2) % 2 ^ 16) 0xffff

-- `Tag2(uint16(sum&0xFFFF), uint16(sum>>16))`
unfoldable pub tag_of : ℕ → ℕ
tag_of sum = tag2 (bit_and sum 0xffff % 2 ^ 16) (shr sum 16 % 2 ^ 16)

-- `uint32(int32(val<<24) >> 24)`
unfoldable pub sign_extend : ℕ → ℕ
sign_extend b = to_u32 (sar (to_i32 (shl32 b 24)) 24)

-- The two sums of Checksum1.
pub record Sums : Type 0 where
  pub s1 : ℕ
  pub s2 : ℕ

-- One round of the loop over four bytes.
unfoldable pub add_four : Sums → ℕ → ℕ → ℕ → ℕ → Sums
add_four s a b c d = record {
  s2 = add32 s.s2 (
      add32
        (add32 (add32 (mul32 4 (add32 s.s1 (sign_extend a))) (mul32 3 (sign_extend b)))
          (mul32 2 (sign_extend c)))
        (sign_extend d));
  s1 =
      add32 s.s1
        (add32 (add32 (add32 (sign_extend a) (sign_extend b)) (sign_extend c)) (sign_extend d));
}

-- One round of the loop over single bytes.
unfoldable pub add_one : Sums → ℕ → Sums
add_one s a = let s1' = add32 s.s1 (sign_extend a) in record { s1 = s1'; s2 = add32 s.s2 s1' }

-- The bytes are those from `i` on. The first loop runs while more than four are left.
unfoldable pub singles : Sums → Bytes → Sums
singles s [] = s
singles s (a ∷ rest) = singles (add_one s a) rest

unfoldable pub quads : Sums → Bytes → Sums
quads s (a ∷ b ∷ c ∷ d ∷ e ∷ rest) = quads (add_four s a b c d) (e ∷ rest)
quads s rest = singles s rest

-- `(s1 & 0xffff) + (s2 << 16)`
unfoldable pub pack : Sums → ℕ
pack s = add32 (bit_and s.s1 0xffff) (shl32 s.s2 16)

unfoldable pub checksum1 : Bytes → ℕ
checksum1 buf = pack (quads (record { s1 = 0; s2 = 0 }) buf)

-- The hash of the block and the seed.
unfoldable pub checksum2 : (Bytes → Bytes) → ℤ → Bytes → Bytes
checksum2 md4 seed buf = md4 (buf ++ le_bytes 4 (to_u32 seed))
