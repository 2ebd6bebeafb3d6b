-- ===== src/Sender/Search.antt =====
-- rsyncsender/match.go and rsyncsender/token.go: the search for the receiver's blocks in a file.
pub mod Slices
pub mod Tokens
pub mod Rolling
use go_rsync_receiver.Prelude.{
  ℕ, zero, suc, ◌+◌, ◌-◌, ◌*◌, ◌/◌, ◌%◌, ◌^◌, min, Bool, true, false, not, ◌&&◌, List, [], ◌∷◌,
  ◌++◌, Option, none, some, Bytes, equal, length, take, drop, get_elem?, leb, ltb, ◌==◌,
  if◌then◌else◌,
}
use go_rsync_receiver.Prelude.Int.{ℤ, pos, negsuc, pos_part, ◌+ℤ◌, ◌-ℤ◌, ◌==ℤ◌}
use go_rsync_receiver.Prelude.Words.{to_u32, wrap_i32, shl32}
use go_rsync_receiver.Outcome.{
  Outcome, ok, panic, out_of_fuel, Error, Prog, return, fail, ◌>>=◌, ◌>>◌,
}
use go_rsync_receiver.Wire.{Conn, le_bytes, write, write_int32}
use go_rsync_receiver.Rsync.{SumBuf, SumHead, write_to}
use go_rsync_receiver.Checksum.{Sums, tag2, checksum1, checksum2}
use go_rsync_receiver.Sender.Roll.{halves, roll}
use Prim.Native.Nat.{bit_and, bit_or}

pub record Target : Type 0 where
  pub index : ℕ
  pub tag : ℕ

-- The variables of one search: the connection, what was written to the hash, the window into the
-- file, `st.lastMatch`, and `offset`, `k`, `s1` and `s2` of the loop. They are not negative: lengths
-- of blocks come from ReadFrom, which refuses negative ones.
pub record Search (M : Type 0) : Type 0 where
  pub conn : Conn
  pub hashed : Bytes
  pub map : M
  pub last_match : ℕ
  pub offset : ℕ
  pub k : ℕ
  pub sums : Sums

-- The token that simpleSendToken is given: a block, -1 or -2.
pub data Token : Type 0 where
  block : ℕ → Token
  last flush : Token

abbrev pub chunk_size : ℕ
chunk_size = 256 * 1024

-- The rounds of a loop over `n` bytes in chunks.
abbrev pub rounds_of : ℕ → ℕ
rounds_of n = (n + (chunk_size - 1)) / chunk_size

unfoldable pub token_number : Token → Prog Conn (Unit {0})
token_number (block i) = write_int32 (negsuc i)
token_number last = write_int32 (pos 0)
token_number flush = return tt

-- `head.Sums[i]` panics out of range.
unfoldable pub sum_at : {S : Type 0} → Option SumBuf → Prog S SumBuf
sum_at none s = (panic, s)
sum_at (some sb) s = (ok sb, s)

-- The bytes that a match adds: the block's.
unfoldable pub token_length : {S : Type 0} → List SumBuf → Token → Prog S ℕ
token_length sums (block i) = do sb ← sum_at (get_elem? sums i); return (pos_part sb.len)
token_length sums last = return 0
token_length sums flush = return 0

-- The rolled sums of the window `update`, whose first byte is the oldest; `update[0]` and `update[k]`
-- panic if they are not there.
unfoldable pub newest_of : Bool → Option ℕ → Outcome (Option ℕ)
newest_of false b = ok none
newest_of true none = panic
newest_of true (some b) = ok (some b)

module _ {M : Type 0} where
  unfoldable pub on_wire : Prog Conn (Unit {0}) → Prog (Search M) (Unit {0})
  on_wire m s = let r = m s.conn in (r.0, record s { conn = r.1 })

  unfoldable pub add_hash : Bytes → Prog (Search M) (Unit {0})
  add_hash chunk s = (ok tt, record s { hashed = s.hashed ++ chunk })

  unfoldable pub set_last : ℕ → Prog (Search M) (Unit {0})
  set_last n s = (ok tt, record s { last_match = n })

  unfoldable pub set_window : ℕ → Bytes → Prog (Search M) (Unit {0})
  set_window k chunk s = (ok tt, record s { k = k; sums = halves (checksum1 chunk) })

  -- `update[backup:]`
  unfoldable pub behind : ℕ → Bytes → Prog (Search M) Bytes
  behind backup update s =
      if leb backup (length update) then (ok (drop backup update), s) else (panic, s)

  unfoldable pub roll_by : ℕ → Outcome (Option ℕ) → Prog (Search M) (Unit {0})
  roll_by oldest (ok newest) s =
      let (k, sums) = roll s.k oldest newest s.sums in (ok tt, record s { k = k; sums = sums })
  roll_by oldest r s = (panic, s)

  unfoldable pub roll_window : Bool → Bytes → Prog (Search M) (Unit {0})
  roll_window more [] s = (panic, s)
  roll_window more (oldest ∷ update) s =
      roll_by oldest (newest_of more (get_elem? (oldest ∷ update) s.k)) s

  unfoldable pub next_offset : ℕ → Prog (Search M) Bool
  next_offset end s = (ok (ltb (s.offset + 1) end), record s { offset = s.offset + 1 })

  -- `offset += Len - 1`. An offset of -1 finds no file position: the next ptr gives nothing, and the
  -- index behind it panics.
  unfoldable pub skip_block : ℕ → Prog (Search M) (Unit {0})
  skip_block len s =
      if s.offset + len == 0 then (panic, s) else (ok tt, record s { offset = s.offset + len - 1 })

module _ {M : Type 0} (ptr : ℕ → ℤ → M → Bytes × M) where
  -- `ms.ptr(offset, int32(n))`
  unfoldable pub ask : ℕ → ℕ → Prog (Search M) Bytes
  ask offset n s = let r = ptr offset (wrap_i32 (pos n)) s.map in (ok r.0, record s { map = r.1 })

  -- The loop of simpleSendToken, and the loop of matched.
  unfoldable pub send_chunks : ℕ → ℕ → ℕ → Prog (Search M) (Unit {0})
  send_chunks zero offset n = return tt
  send_chunks (suc rounds) offset n = do
    chunk ← ask offset (min chunk_size n)
    on_wire (write_int32 (wrap_i32 (pos (min chunk_size n))))
    on_wire (write chunk)
    send_chunks rounds (offset + min chunk_size n) (n - min chunk_size n)

  unfoldable pub hash_chunks : ℕ → ℕ → ℕ → Prog (Search M) (Unit {0})
  hash_chunks zero offset n = return tt
  hash_chunks (suc rounds) offset n = do
    chunk ← ask offset (min chunk_size n)
    add_hash chunk
    hash_chunks rounds (offset + min chunk_size n) (n - min chunk_size n)

  unfoldable pub simple_send_token : Token → ℕ → ℕ → Prog (Search M) (Unit {0})
  simple_send_token token offset n = do
    send_chunks (rounds_of n) offset n
    on_wire (token_number token)

  unfoldable pub matched : SumHead → ℕ → Token → Prog (Search M) (Unit {0})
  matched head offset token s =
      (do
        simple_send_token token s.last_match (offset - s.last_match)
        len ← token_length head.sums token
        hash_chunks (rounds_of (offset - s.last_match + len)) s.last_match
            (offset - s.last_match + len)
        set_last (offset + len))
        s

  unfoldable pub read_chunk : SumHead → ℕ → Prog (Search M) (Unit {0})
  read_chunk head size s =
      (do
        chunk ← ask s.offset (min (pos_part head.block_length) (size - s.offset))
        set_window (min (pos_part head.block_length) (size - s.offset)) chunk)
        s

  unfoldable pub update_sums : ℕ → Prog (Search M) (Unit {0})
  update_sums size s =
      (do
        update ←
            ask (s.offset - (s.offset - s.last_match))
              (s.k + (if ltb (s.offset + s.k) size then 1 else 0) + (s.offset - s.last_match))
        window ← behind (s.offset - s.last_match) update
        roll_window (ltb (s.offset + s.k) size) window)
        s

  -- A run of unmatched bytes is flushed when it has grown long, but not near the end.
  unfoldable pub flush_run : SumHead → ℕ → ℕ → Prog (Search M) (Unit {0})
  flush_run head end backup s =
      if leb (pos_part head.block_length + chunk_size) backup && ltb (s.offset + chunk_size) end
      then matched head (s.offset - pos_part head.block_length) flush s
      else (ok tt, s)

  -- The round from `backup := …` on; it says whether the loop goes on.
  unfoldable pub advance : SumHead → ℕ → ℕ → Prog (Search M) Bool
  advance head size end s =
      (do update_sums size; flush_run head end (s.offset - s.last_match); next_offset end) s
