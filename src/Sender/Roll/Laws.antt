-- ===== src/Sender/Roll/Laws.antt =====
-- A rolled checksum is the checksum of the new window.
use go_rsync_receiver.Prelude.{
  ℕ, suc, ◌+◌, ◌*◌, ◌%◌, ◌^◌, ◌<◌, ◌≡◌, ap, ◌∙◌, [], ◌∷◌, ◌++◌, none, some, arith, Bytes, length,
  length-append,
}
use native.Mathlib.Nat.{div-add-mod}
use go_rsync_receiver.Prelude.Bits.{bit_and_mask}
use go_rsync_receiver.Checksum.{Sums, sign_extend, checksum1}
use go_rsync_receiver.Checksum.Exact.{sum_of, weighted, checksum1_exact}
use go_rsync_receiver.Sender.Roll.{halves, remove_oldest, add_newest, low_halves, roll}

halves-checksum1 :
    (buf : Bytes)
    → halves (checksum1 buf) ≡ record { s1 = sum_of buf % 2 ^ 16; s2 = weighted buf % 2 ^ 16 }
unfolding halves
halves-checksum1 buf = ground (arith, bit_and_mask 16 (checksum1 buf), checksum1_exact buf)

sum_of-append : (buf : Bytes) (y : ℕ) → sum_of (buf ++ y ∷ []) ≡ sum_of buf + sign_extend y
unfolding sum_of
sum_of-append [] y = omega arith
sum_of-append (x ∷ buf) y = omega (arith, sum_of-append buf y)

weighted-append :
    (buf : Bytes) (y : ℕ) → weighted (buf ++ y ∷ []) ≡ weighted buf + sum_of buf + sign_extend y
unfolding weighted sum_of
weighted-append [] y = omega arith
weighted-append (x ∷ buf) y = omega (arith, weighted-append buf y, length-append buf (y ∷ []), grow)
  where
    grow : length (buf ++ y ∷ []) * sign_extend x ≡ length buf * sign_extend x + sign_extend x
    grow = ap (λ (n : ℕ). n * sign_extend x) (length-append buf (y ∷ [])) ∙ omega arith

sign_extend-lt : (x : ℕ) → sign_extend x < 2 ^ 32
unfolding sign_extend
sign_extend-lt x = ground arith

mod_factor : (a e : ℕ) → a % 2 ^ 32 * e % 2 ^ 32 ≡ a * e % 2 ^ 32
mod_factor a e = omega (arith, ap (λ (t : ℕ). t * e) (div-add-mod a (2 ^ 32)))

-- One step over the exact sums: `x` leaves the window `x ∷ buf`, whose rest has the sums `s` and `w`.
module _ (x n s w : ℕ) where
  old : Sums
  old = record { s1 = (sign_extend x + s) % 2 ^ 16; s2 = (suc n * sign_extend x + w) % 2 ^ 16 }

  roll-some :
      (y : ℕ)
      → roll (suc n) x (some y) old ≡ (
        suc n,
        record { s1 = (s + sign_extend y) % 2 ^ 16; s2 = (w + s + sign_extend y) % 2 ^ 16 },
      )
  unfolding roll low_halves add_newest remove_oldest old
  roll-some y = ground (arith, sign_extend-lt x, mod_factor (suc n) (sign_extend x))

  roll-none : roll (suc n) x none old ≡ (n, record { s1 = s % 2 ^ 16; s2 = w % 2 ^ 16 })
  unfolding roll low_halves remove_oldest old
  roll-none = ground (arith, sign_extend-lt x, mod_factor (suc n) (sign_extend x))

-- After a step the sums are those that readChunk would compute of the window one byte further on,
-- and the length is that window's.
pub roll-checksum1 :
    (x y : ℕ) (buf : Bytes)
    → roll (length (x ∷ buf)) x (some y) (halves (checksum1 (x ∷ buf)))
      ≡ (length (buf ++ y ∷ []), halves (checksum1 (buf ++ y ∷ [])))
unfolding sum_of weighted old
roll-checksum1 x y buf =
    rw (halves-checksum1, halves-checksum1)
      (roll-some x (length buf) (sum_of buf) (weighted buf) y
        ∙ rw (sum_of-append, weighted-append, length-append)
            (let e : suc (length buf) ≡ length buf + 1 = omega arith in
              λ i. (
                e i,
                record {
                  s1 = (sum_of buf + sign_extend y) % 2 ^ 16;
                  s2 = (weighted buf + sum_of buf + sign_extend y) % 2 ^ 16;
                },
              )))

-- At the end of the file the window loses its first byte.
pub roll-checksum1_end :
    (x : ℕ) (buf : Bytes)
    → roll (length (x ∷ buf)) x none (halves (checksum1 (x ∷ buf)))
      ≡ (length buf, halves (checksum1 buf))
unfolding sum_of weighted old
roll-checksum1_end x buf =
    rw (halves-checksum1, halves-checksum1) (roll-none x (length buf) (sum_of buf) (weighted buf))
