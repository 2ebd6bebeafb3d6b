-- ===== src/Checksum/Exact.antt =====
-- Checksum1 against its definition: with x the signed bytes and n their number, the low half is the
-- sum of the x_i and the high half the sum of the (n - i) * x_i, each modulo 2 ^ 16.
use go_rsync_receiver.Prelude.{
  ℕ, ◌+◌, ◌-◌, ◌*◌, ◌%◌, ◌^◌, ◌≡◌, refl, [], ◌∷◌, arith, Bytes, length, ltb, if◌then◌else◌, IsByte,
}
use go_rsync_receiver.Prelude.Bits.{bit_and_mask}
use go_rsync_receiver.Checksum.{
  sign_extend, Sums, add_four, add_one, singles, quads, pack, checksum1,
}

-- The sum of the bytes, and the sum with weights from the length down to 1.
unfoldable pub sum_of : Bytes → ℕ
sum_of [] = 0
sum_of (a ∷ rest) = sign_extend a + sum_of rest

unfoldable pub weighted : Bytes → ℕ
weighted [] = 0
weighted (a ∷ rest) = length (a ∷ rest) * sign_extend a + weighted rest

-- SignExtend adds 2 ^ 32 to the signed value of a byte from 128 on.
pub sign_extend_lem :
    (b : ℕ) → IsByte b → sign_extend b ≡ (if ltb b 128 then b else 2 ^ 32 - 256 + b)
unfolding sign_extend
sign_extend_lem b h = ground arith

-- The state of the loops agrees with exact sums, modulo 2 ^ 32.
record Agrees (s : Sums) (a b : ℕ) : Type 0 where
  first : s.s1 ≡ a % 2 ^ 32
  second : s.s2 ≡ b % 2 ^ 32

singles-Agrees :
    (s : Sums) (a b : ℕ) (buf : Bytes)
    → Agrees s a b
    → Agrees (singles s buf) (a + sum_of buf) (b + length buf * a + weighted buf)
unfolding singles sum_of weighted
singles-Agrees s a b [] g = record { first = ground arith; second = ground arith }
singles-Agrees s a b (x ∷ rest) g =
    let next =
      singles-Agrees (add_one s x) (a + sign_extend x) (b + (a + sign_extend x)) rest
        (unfold add_one in record { first = ground arith; second = ground arith }) in
    record { first = ground arith; second = ground arith }

-- A round of the unrolled loop is four rounds of the plain one.
add_four-add_one :
    (s : Sums) (a b c d : ℕ) → add_four s a b c d ≡ add_one (add_one (add_one (add_one s a) b) c) d
unfolding add_four add_one
add_four-add_one s a b c d = ground arith

-- The unrolled loop and the plain one give the same sums.
pub quads-singles : (s : Sums) (buf : Bytes) → quads s buf ≡ singles s buf
unfolding quads singles
quads-singles s (a ∷ b ∷ c ∷ d ∷ e ∷ rest) =
    rw (← add_four-add_one s a b c d) (quads-singles (add_four s a b c d) (e ∷ rest))
quads-singles s _ = refl

-- The two halves of Checksum1 are the sum of the signed bytes, and their sum with weights that fall
-- from the length to 1, each modulo 2 ^ 16.
pub checksum1_exact :
    (buf : Bytes) → checksum1 buf ≡ sum_of buf % 2 ^ 16 + weighted buf % 2 ^ 16 * 2 ^ 16
unfolding checksum1 pack
checksum1_exact buf =
    let start : Sums = record { s1 = 0; s2 = 0 } in
    let g = singles-Agrees start 0 0 buf (record { first = refl; second = refl }) in
    rw quads-singles (ground (arith, bit_and_mask 16 (singles start buf).s1, g.first, g.second))
