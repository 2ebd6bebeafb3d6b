-- ===== src/Wire/Received.antt =====
-- Programs that only read: what they return on an input that begins with given bytes. Every integer
-- is read back as it was written.
use go_rsync_receiver.Prelude.{
  ℕ, ◌+◌, ◌≡◌, refl, ◌∙◌, [], ◌∷◌, ◌++◌, append_assoc, arith, Bytes, length, length-append,
  take-length-append, drop-length-append, ◌<◌, ◌^◌, true, false, leb, Bool-cases, inl, inr,
}
use go_rsync_receiver.Prelude.Int.{ℤ, pos, negsuc, ◌==ℤ◌}
use go_rsync_receiver.Prelude.Words.{IsI32, IsI64, to_u32, to_u64, to_i32-to_u32, to_i64-to_u64}
use go_rsync_receiver.Outcome.{ok, Prog, ◌>>=◌, ◌>>◌}
use go_rsync_receiver.Wire.Encoding.{le_bytes, length-le_bytes, le_value-le_bytes}
use go_rsync_receiver.Wire.Stream.{Conn, read_full}
use go_rsync_receiver.Wire.Numbers.{
  fits_i32, int32_bytes, int64_bytes, read_byte, read_int32, read_long, read_int64,
}

-- The connection after `n` bytes were read and `rest` is left.
unfoldable pub received : ℕ → Bytes → Conn → Conn
received n rest c = record c { input = rest; bytes_read = c.bytes_read + n }

pub received-input : (n : ℕ) (rest : Bytes) (c : Conn) → (received n rest c).input ≡ rest
unfolding received
received-input n rest c = refl

pub received-received :
    (n m : ℕ) (rest more : Bytes) (c : Conn)
    → received m rest (received n more c) ≡ received (n + m) rest c
unfolding received
received-received n m rest more c =
    let e : c.bytes_read + n + m ≡ c.bytes_read + (n + m) = omega arith in
    λ i. record c { input = rest; bytes_read = e i }

-- On an input that begins with `p` the program reads just that, and returns `a`.
abbrev pub Reads : {A : Type 0} → Prog Conn A → Bytes → A → Type 0
Reads m p a =
    (c : Conn) (rest : Bytes) → c.input ≡ p ++ rest → m c ≡ (ok a, received (length p) rest c)

pub Reads-bind :
    {A B : Type 0} (m : Prog Conn A) (f : A → Prog Conn B) (p q : Bytes) (a : A) (b : B)
    → Reads m p a
    → Reads (f a) q b
    → Reads (m >>= f) (p ++ q) b
Reads-bind m f p q a b h k c rest e = rw (h c (q ++ rest) (e ∙ append_assoc p q rest)) (
    k (received (length p) (q ++ rest) c) rest (received-input _ _ c)
    ∙ rw (received-received, length-append))

pub Reads-then :
    {A B : Type 0} (m : Prog Conn A) (n : Prog Conn B) (p q : Bytes) (a : A) (b : B)
    → Reads m p a
    → Reads n q b
    → Reads (m >> n) (p ++ q) b
Reads-then m n p q a b h k = Reads-bind m (λ _. n) p q a b h k

pub Reads-return : {A : Type 0} (a : A) → Reads (λ s. (ok a, s)) [] a
unfolding received
Reads-return a c rest e =
    let z : c.bytes_read ≡ c.bytes_read + 0 = omega arith in
    λ i. (ok a, record c { input = e i; bytes_read = z i })

-- A last step that only computes.
pub Reads-map :
    {A B : Type 0} (m : Prog Conn A) (f : A → Prog Conn B) (p : Bytes) (a : A) (b : B)
    → Reads m p a
    → ((c : Conn) → f a c ≡ (ok b, c))
    → Reads (m >>= f) p b
Reads-map m f p a b h k c rest e = rw (h c rest e) (k (received (length p) rest c))

leb-length-append : (p rest : Bytes) → leb (length p) (length (p ++ rest)) ≡ true
leb-length-append p rest = ground (arith, length-append p rest)

read_full-Reads-length : (p : Bytes) → Reads (read_full (length p)) p p
unfolding read_full received
read_full-Reads-length p c rest e = rw (
  e,
  leb-length-append p rest,
  take-length-append (length p) p rest refl,
  drop-length-append (length p) p rest refl,
)

pub read_full-Reads : (n : ℕ) (p : Bytes) → length p ≡ n → Reads (read_full n) p p
read_full-Reads n p h = rw (← h) (read_full-Reads-length p)

pub read_byte-Reads : (b : ℕ) → Reads read_byte (b ∷ []) b
unfolding read_byte
read_byte-Reads b =
    Reads-map (read_full 1) _ (b ∷ []) (b ∷ []) b (read_full-Reads 1 (b ∷ []) refl) (λ c. refl)

pub length-int32_bytes : (z : ℤ) → length (int32_bytes z) ≡ 4
unfolding int32_bytes
length-int32_bytes z = length-le_bytes 4 (to_u32 z)

to_u32-lt : (z : ℤ) → to_u32 z < 256 ^ 4
to_u32-lt (pos n) = omega arith
to_u32-lt (negsuc n) = omega arith

to_u64-lt : (z : ℤ) → to_u64 z < 256 ^ 8
to_u64-lt (pos n) = omega arith
to_u64-lt (negsuc n) = omega arith

-- Conn.ReadInt32 takes the four bytes of WriteInt32, and returns the number written.
pub read_int32-int32_bytes : (z : ℤ) → IsI32 z → Reads read_int32 (int32_bytes z) z
unfolding read_int32 int32_bytes
read_int32-int32_bytes z h =
    let bs = le_bytes 4 (to_u32 z) in
    Reads-map (read_full 4) _ bs bs z (read_full-Reads 4 bs (length-le_bytes 4 (to_u32 z)))
      (λ c. rw (le_value-le_bytes 4 (to_u32 z) (to_u32-lt z), to_i32-to_u32 z h))

read_long-le_bytes : (z : ℤ) → IsI64 z → Reads read_long (le_bytes 8 (to_u64 z)) z
unfolding read_long
read_long-le_bytes z h =
    let bs = le_bytes 8 (to_u64 z) in
    Reads-map (read_full 8) _ bs bs z (read_full-Reads 8 bs (length-le_bytes 8 (to_u64 z)))
      (λ c. rw (le_value-le_bytes 8 (to_u64 z) (to_u64-lt z), to_i64-to_u64 z h))

-- A number that fits is never -1, which announces the long form.
fits_i32-IsI32 : (z : ℤ) → fits_i32 z ≡ true → IsI32 z × ((z ==ℤ negsuc 0) ≡ false)
fits_i32-IsI32 (pos n) h = (ground arith, ground arith)
fits_i32-IsI32 (negsuc n) h = cc

-- Conn.ReadInt64 takes the bytes of WriteInt64, four of them or twelve, and returns the number
-- written, for every int64.
pub read_int64-int64_bytes : (z : ℤ) → IsI64 z → Reads read_int64 (int64_bytes z) z
unfolding read_int64 int64_bytes
read_int64-int64_bytes z h = elim (Bool-cases (fits_i32 z)) [
  | inl short ↦
      let (range, other) = fits_i32-IsI32 z short in
      rw short (
        Reads-map read_int32 _ (int32_bytes z) z z (read_int32-int32_bytes z range) (λ c. rw other))
  | inr long ↦ rw long (
      Reads-bind read_int32 _ (int32_bytes (negsuc 0)) _ (negsuc 0) z
        (read_int32-int32_bytes (negsuc 0) (omega arith)) (read_long-le_bytes z h))
]
