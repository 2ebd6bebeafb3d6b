-- ===== src/Wire/Numbers.antt =====
-- The integers of rsyncwire.Conn and of rsyncwire.Buffer.
use go_rsync_receiver.Prelude.{ℕ, Bool, false, [], ◌∷◌, ◌++◌, Bytes, leb, if◌then◌else◌}
use go_rsync_receiver.Prelude.Int.{ℤ, pos, negsuc, ◌==ℤ◌}
use go_rsync_receiver.Prelude.Words.{to_u32, to_i32, to_u64, to_i64}
use go_rsync_receiver.Outcome.{Prog, return, ◌>>=◌, ◌>>◌}
use go_rsync_receiver.Wire.Encoding.{le_bytes, le_value}
use go_rsync_receiver.Wire.Stream.{Conn, write, read_full}

-- `data <= 0x7FFFFFFF && data >= 0`
abbrev pub fits_i32 : ℤ → Bool
fits_i32 (pos n) = leb n 0x7fff_ffff
fits_i32 (negsuc n) = false

-- The bytes that Buffer.WriteInt32 appends.
unfoldable pub int32_bytes : ℤ → Bytes
int32_bytes z = le_bytes 4 (to_u32 z)

-- The bytes that Buffer.WriteInt64 appends: four, or -1 and eight.
unfoldable pub int64_bytes : ℤ → Bytes
int64_bytes z =
    if fits_i32 z then int32_bytes z else int32_bytes (negsuc 0) ++ le_bytes 8 (to_u64 z)

unfoldable pub write_byte : ℕ → Prog Conn (Unit {0})
write_byte b = write (b ∷ [])

unfoldable pub write_int32 : ℤ → Prog Conn (Unit {0})
unfolding int32_bytes
write_int32 z = write (le_bytes 4 (to_u32 z))

unfoldable pub write_int64 : ℤ → Prog Conn (Unit {0})
write_int64 z =
    if fits_i32 z then write_int32 z else (do write_int32 (negsuc 0); write (le_bytes 8 (to_u64 z)))

-- Conn.WriteString
unfoldable pub write_string : Bytes → Prog Conn (Unit {0})
write_string s = write s

-- `buf[0]` of the one byte read
abbrev first_byte : Bytes → ℕ
first_byte [] = 0
first_byte (b ∷ bs) = b

unfoldable pub read_byte : Prog Conn ℕ
read_byte = do buf ← read_full 1; return (first_byte buf)

unfoldable pub read_int32 : Prog Conn ℤ
read_int32 = do buf ← read_full 4; return (to_i32 (le_value buf))

-- The eight bytes behind the -1.
unfoldable pub read_long : Prog Conn ℤ
read_long = do buf ← read_full 8; return (to_i64 (le_value buf))

unfoldable pub read_int64 : Prog Conn ℤ
unfolding read_long
read_int64 = do short ← read_int32; if short ==ℤ negsuc 0 then read_long else return short
