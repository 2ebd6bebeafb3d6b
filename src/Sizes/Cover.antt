-- ===== src/Sizes/Cover.antt =====
-- The blocks cover the file.
use go_rsync_receiver.Prelude.{
  ℕ, zero, suc, ◌+◌, ◌-◌, ◌*◌, ◌/◌, ◌%◌, ◌^◌, ◌≤◌, ◌<◌, ◌≡◌, refl, arith, if◌then◌else◌, ◌==◌,
}
use go_rsync_receiver.Prelude.Int.{pos}
use go_rsync_receiver.Prelude.Words.{IsI32, wrap_i32, to_i32-to_u32}
use go_rsync_receiver.Rsync.{SumHead}
use go_rsync_receiver.Rsync.Heads.{IsValid}
use go_rsync_receiver.Sizes.{block_length_of, sum_sizes_sqroot}

-- The length of the last of `count` blocks.
abbrev pub last_length : ℕ → ℕ → ℕ
last_length block remainder = if remainder == 0 then block else remainder

-- `count` is a rounded-up quotient.
ceiling :
    (len block : ℕ) → 0 < block → 0 < len → (len + (block - 1)) / block ≡ suc ((len - 1) / block)
ceiling len block h k = grind arith

split_length :
    (len block : ℕ)
    → 0 < block
    → 0 < len
    → (len - 1) / block * block + last_length block (len % block) ≡ len
split_length len block h k = grind arith

block-pos : (root : ℕ → ℕ) (len : ℕ) → 700 ≤ block_length_of root len
unfolding block_length_of
block-pos root len = omega arith

wrap_small : (n : ℕ) → n < 2 ^ 31 → wrap_i32 (pos n) ≡ pos n
wrap_small n h = to_i32-to_u32 (pos n) h

quotient_small : (len block : ℕ) → 700 ≤ block → len ≤ 700 * 2 ^ 30 → len / block ≤ 2 ^ 30
quotient_small len block h k = grind arith

remainder_small : (len block : ℕ) → 700 ≤ block → len % block < block
remainder_small len block h = grind arith

count_small :
    (len block : ℕ) → 700 ≤ block → len ≤ 700 * 2 ^ 30 → (len + (block - 1)) / block < 2 ^ 31
count_small zero block h k = grind arith
count_small (suc len) block h k =
    rw (ceiling (suc len) block (omega arith) (omega arith))
      (omega (arith, quotient_small (suc len - 1) block h (omega arith)))

-- The bytes in `count` blocks of which the last has `remainder` bytes, or is full if that is 0.
abbrev pub covered : ℕ → ℕ → ℕ → ℕ
covered zero block remainder = 0
covered (suc n) block remainder = n * block + last_length block remainder

-- The head describes a file of `len` bytes.
pub record Describes (sh : SumHead) (len : ℕ) : Type 0 where
  pub count : ℕ
  pub block : ℕ
  pub remainder : ℕ
  pub count_is : sh.checksum_count ≡ pos count
  pub block_is : sh.block_length ≡ pos block
  pub remainder_is : sh.remainder_length ≡ pos remainder
  pub short_end : remainder < block
  pub total : covered count block remainder ≡ len

covered_all :
    (len block : ℕ) → 700 ≤ block → covered ((len + (block - 1)) / block) block (len % block) ≡ len
covered_all zero block h =
    let e : (block - 1) / block ≡ 0 = grind arith in
    let z : zero + (block - 1) ≡ block - 1 = omega arith in rw (z, e)
covered_all (suc len) block h =
    rw (ceiling (suc len) block (omega arith) (omega arith))
      (split_length (suc len) block (omega arith) (omega arith))

module _ (root : ℕ → ℕ) (len : ℕ) (short : len ≤ 700 * 2 ^ 30) (fits : root len ≤ 2 ^ 29) where
  block-le : block_length_of root len ≤ 2 ^ 29
  unfolding block_length_of
  block-le = omega arith

  -- The blocks of SumSizesSqroot are exactly the file's bytes: all but the last are full, and no
  -- conversion to int32 loses anything, for files up to 700 * 2 ^ 30 bytes and a square root that
  -- is computed as at most 2 ^ 29.
  pub sum_sizes_sqroot-Describes : Describes (sum_sizes_sqroot root len) len
  unfolding sum_sizes_sqroot
  sum_sizes_sqroot-Describes =
      let b = block_length_of root len in
      let lo = block-pos root len in
      record {
        count = (len + (b - 1)) / b;
        block = b;
        remainder = len % b;
        count_is = wrap_small _ (count_small len b lo short);
        block_is = refl;
        remainder_is = wrap_small _ (omega (arith, remainder_small len b lo, block-le));
        short_end = remainder_small len b lo;
        total = covered_all len b lo;
      }

  -- The head that SumSizesSqroot makes is in the range that ReadFrom accepts, for files up to
  -- 700 * 2 ^ 30 bytes and a square root that is computed as at most 2 ^ 29.
  pub sum_sizes_sqroot-IsValid : IsValid (sum_sizes_sqroot root len)
  unfolding sum_sizes_sqroot
  sum_sizes_sqroot-IsValid =
      let b = block_length_of root len in
      let lo = block-pos root len in
      let e = wrap_small _ (count_small len b lo short) in
      let m = remainder_small len b lo in
      let r = wrap_small (len % b) (omega (arith, m, block-le)) in
      record {
        count_lo = rw e (omega arith);
        block_lo = omega arith;
        block_hi = omega (arith, block-le);
        checksum_lo = omega arith;
        checksum_hi = omega arith;
        remainder_lo = rw r (omega arith);
        remainder_hi = rw r (omega (arith, m));
      }

  pub sum_sizes_sqroot-IsI32 : IsI32 (sum_sizes_sqroot root len).checksum_count
  unfolding sum_sizes_sqroot
  sum_sizes_sqroot-IsI32 =
      let b = block_length_of root len in
      let small = count_small len b (block-pos root len) short in rw (wrap_small _ small) small
