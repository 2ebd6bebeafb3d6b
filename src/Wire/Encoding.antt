-- ===== src/Wire/Encoding.antt =====
-- encoding/binary with LittleEndian, as wire.go uses it: `n` bytes of a number, lowest first.
use go_rsync_receiver.Prelude.{
  ℕ, zero, suc, ◌+◌, ◌*◌, ◌/◌, ◌%◌, ◌^◌, ◌<◌, ◌≡◌, refl, ap, [], ◌∷◌, arith, length, Bytes,
  AreBytes,
}
use native.Mathlib.Nat.{pow-suc}

unfoldable pub le_bytes : ℕ → ℕ → Bytes
le_bytes zero w = []
le_bytes (suc n) w = w % 256 ∷ le_bytes n (w / 256)

unfoldable pub le_value : Bytes → ℕ
le_value [] = 0
le_value (b ∷ bs) = b + 256 * le_value bs

pub length-le_bytes : (n w : ℕ) → length (le_bytes n w) ≡ n
unfolding le_bytes
length-le_bytes zero w = refl
length-le_bytes (suc n) w = ap suc (length-le_bytes n (w / 256))

pub le_bytes-AreBytes : (n w : ℕ) → AreBytes (le_bytes n w)
unfolding le_bytes
le_bytes-AreBytes zero w = tt
le_bytes-AreBytes (suc n) w = (omega arith, le_bytes-AreBytes n (w / 256))

pub le_value-le_bytes : (n w : ℕ) → w < 256 ^ n → le_value (le_bytes n w) ≡ w
unfolding le_bytes le_value
le_value-le_bytes zero w h = omega arith
le_value-le_bytes (suc n) w h =
    omega (arith, le_value-le_bytes n (w / 256) (omega (arith, pow-suc 256 n)))

pub le_value-lt : (bs : Bytes) → AreBytes bs → le_value bs < 256 ^ length bs
unfolding le_value
le_value-lt [] h = omega arith
le_value-lt (b ∷ bs) h = omega (arith, le_value-lt bs h.1, pow-suc 256 (length bs))
