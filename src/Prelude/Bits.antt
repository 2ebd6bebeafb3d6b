-- ===== src/Prelude/Bits.antt =====
-- The bit operations of the source as arithmetic: a field under a low mask, disjoint fields joined
-- by `|`, and rounding up by `|` with a low mask. Each law recurs on the number of bits.
use Prim.Native.Nat.{ℕ, zero, suc, ◌+◌, ◌-◌, ◌*◌, ◌/◌, ◌%◌, ◌^◌, ◌≤◌, ◌<◌, min, max}
use Prim.Native.Nat.{digits, bit_and, bit_or, bit_and-bitwise, bit_or-bitwise}
use mathlib.Core.Path.{◌≡◌, refl, ap}
use native.Mathlib.Nat.{pow-suc, one-le-pow}
use native.Mathlib.Omega.{arith}

-- The count of digits that the native operations recur on does not matter once it is enough.
module _ (rest : ℕ → ℕ) (digit : ℕ → ℕ → ℕ) where
  digits_enough :
      (fuel more m n : ℕ)
      → m ≤ fuel
      → m ≤ more
      → digits rest digit fuel m n ≡ digits rest digit more m n
  digits_enough zero zero m n p q = refl
  digits_enough (suc fuel) zero zero n p q = refl
  digits_enough (suc fuel) zero (suc m) n p q = elim q [ ]
  digits_enough zero (suc more) zero n p q = refl
  digits_enough zero (suc more) (suc m) n p q = elim p [ ]
  digits_enough (suc fuel) (suc more) zero n p q = refl
  digits_enough (suc fuel) (suc more) (suc m) n p q =
      let shrink : suc m / 2 ≤ m = omega arith in
      rw (
        digits_enough fuel more (suc m / 2) (n / 2) (omega (arith, shrink)) (omega (arith, shrink)))

or_low : (m n : ℕ) → bit_or m n ≡ max (m % 2) (n % 2) + 2 * bit_or (m / 2) (n / 2)
or_low zero n = simp bit_or-bitwise (omega arith)
or_low (suc m) n =
    let half = suc m / 2 in
    simp bit_or-bitwise
      (rw (digits_enough (λ y. y) max m half half (n / 2) (omega arith) (omega arith)) omega arith)

and_low : (m n : ℕ) → bit_and m n ≡ min (m % 2) (n % 2) + 2 * bit_and (m / 2) (n / 2)
and_low zero n = simp bit_and-bitwise (omega arith)
and_low (suc m) n =
    let half = suc m / 2 in
    simp bit_and-bitwise
      (rw (digits_enough (λ y. 0) min m half half (n / 2) (omega arith) (omega arith)) omega arith)

or_nothing : (n a : ℕ) → a ≤ n → bit_or a 0 ≡ a
or_nothing n zero h = refl
or_nothing zero (suc a) h = elim h [ ]
or_nothing (suc n) (suc a) h =
    omega (arith, or_low (suc a) 0, or_nothing n (suc a / 2) (omega arith))

and_nothing : (n a : ℕ) → a ≤ n → bit_and a 0 ≡ 0
and_nothing n zero h = refl
and_nothing zero (suc a) h = elim h [ ]
and_nothing (suc n) (suc a) h =
    omega (arith, and_low (suc a) 0, and_nothing n (suc a / 2) (omega arith))

nothing_or : (a : ℕ) → bit_or 0 a ≡ a
nothing_or a = simp bit_or-bitwise refl

double_field : (q k : ℕ) → q * 2 ^ suc k ≡ 2 * (q * 2 ^ k)
double_field q k = omega (arith, ap (λ (t : ℕ). q * t) (pow-suc 2 k))

module _ (q : ℕ) where
  -- `q << k | r` is a sum when `r` fits `k` bits.
  pub bit_or_field : (k r : ℕ) → r < 2 ^ k → bit_or (q * 2 ^ k) r ≡ q * 2 ^ k + r
  bit_or_field zero r h = ground (arith, or_nothing q q)
  bit_or_field (suc k) r h =
      ground
        (arith, or_low (q * 2 ^ suc k) r, double_field q k, bit_or_field k (r / 2) (omega arith))

  -- `r | q << k` is the same sum.
  pub bit_or_high_field : (k r : ℕ) → r < 2 ^ k → bit_or r (q * 2 ^ k) ≡ r + q * 2 ^ k
  bit_or_high_field zero r h = ground (arith, nothing_or q)
  bit_or_high_field (suc k) r h =
      ground (
        arith,
        or_low r (q * 2 ^ suc k),
        double_field q k,
        bit_or_high_field k (r / 2) (omega arith),
      )

  -- `|` with `k` ones raises the low field to its largest value.
  bit_or_ones : (k r : ℕ) → r < 2 ^ k → bit_or (q * 2 ^ k + r) (2 ^ k - 1) ≡ q * 2 ^ k + (2 ^ k - 1)
  bit_or_ones zero r h = ground (arith, or_nothing q q)
  bit_or_ones (suc k) r h = ground (
    arith,
    or_low (q * 2 ^ suc k + r) (2 ^ suc k - 1),
    double_field q k,
    pow-suc 2 k,
    one-le-pow k 2,
    bit_or_ones k (r / 2) (omega arith),
  )

  bit_and_ones : (k r : ℕ) → r < 2 ^ k → bit_and (q * 2 ^ k + r) (2 ^ k - 1) ≡ r
  bit_and_ones zero r h = ground (arith, and_nothing q q)
  bit_and_ones (suc k) r h = ground (
    arith,
    and_low (q * 2 ^ suc k + r) (2 ^ suc k - 1),
    double_field q k,
    pow-suc 2 k,
    one-le-pow k 2,
    bit_and_ones k (r / 2) (omega arith),
  )

-- `a & (1 << k - 1)` is the remainder.
pub bit_and_mask : (k a : ℕ) → bit_and a (2 ^ k - 1) ≡ a % 2 ^ k
bit_and_mask k a = ground (arith, one-le-pow k 2, bit_and_ones (a / 2 ^ k) k (a % 2 ^ k))

-- `a | (1 << k - 1)` is the last number of the block of `2 ^ k` that holds `a`.
pub bit_or_mask : (k a : ℕ) → bit_or a (2 ^ k - 1) ≡ a / 2 ^ k * 2 ^ k + (2 ^ k - 1)
bit_or_mask k a = ground (arith, one-le-pow k 2, bit_or_ones (a / 2 ^ k) k (a % 2 ^ k))
