-- ===== src/Wire/Stream.antt =====
-- The connection: rsyncwire.Conn over the network, with the byte counters of CounterPair.
use go_rsync_receiver.Prelude.{
  ℕ, ◌+◌, ◌*◌, ◌%◌, ◌^◌, [], ◌∷◌, ◌++◌, Option, none, some, Bytes, length, take, drop, leb,
  if◌then◌else◌,
}
use go_rsync_receiver.Outcome.{
  Error, eof, unexpected_eof, write_failed, ok, err, Outcome, Prog, ◌>>◌,
}
use Prim.Native.Nat.{bit_or}
use go_rsync_receiver.Wire.Encoding.{le_bytes}

-- What Conn.Writer holds: the counting writer, or a MultiplexWriter around it.
pub data Writer : Type 0 where
  plain multiplexed : Writer

-- `input` is what the peer has sent or will send and is not read yet; `output` is what was written
-- to the peer. `faults out p` is the network's choice for a write of `p` after `out`: none if the
-- write succeeds, `some k` if it fails after `k` bytes. `bytes_read` is CountingReader.BytesRead;
-- CountingWriter.BytesWritten is the length of `output`.
pub record Conn : Type 0 where
  pub input : Bytes
  pub output : Bytes
  pub writer : Writer
  pub faults : Bytes → Bytes → Option ℕ
  pub bytes_read : ℕ

-- CountingWriter.BytesWritten
abbrev pub bytes_written : Conn → ℕ
bytes_written c = length c.output

-- What becomes of a write, by the network's choice.
write_result : Option ℕ → Bytes → Conn → Outcome (Unit {0}) × Conn
write_result none p c = (ok tt, record c { output = c.output ++ p })
write_result (some k) p c = (err write_failed, record c { output = c.output ++ take k p })

-- CountingWriter.Write
unfoldable pub raw_write : Bytes → Prog Conn (Unit {0})
unfolding write_result
raw_write p c = write_result (c.faults c.output p) p c

abbrev pub mplex_base : ℕ
mplex_base = 7

abbrev pub msg_data : ℕ
msg_data = 0

abbrev pub msg_error : ℕ
msg_error = 1

abbrev pub msg_info : ℕ
msg_info = 2

-- `uint32(mplexBase+tag)<<24 | uint32(len(p))`; the sum is a uint8.
unfoldable pub msg_header : ℕ → ℕ → ℕ
msg_header tag len = bit_or ((mplex_base + tag) % 256 * 2 ^ 24 % 2 ^ 32) (len % 2 ^ 32)

-- MultiplexWriter.WriteMsg
unfoldable pub write_msg : ℕ → Bytes → Prog Conn (Unit {0})
write_msg tag p = do raw_write (le_bytes 4 (msg_header tag (length p))); raw_write p

-- `c.Writer.Write(p)`; MultiplexWriter.Write sends a data message.
unfoldable pub write_by : Writer → Bytes → Prog Conn (Unit {0})
write_by plain p = raw_write p
write_by multiplexed p = write_msg msg_data p

unfoldable pub write : Bytes → Prog Conn (Unit {0})
unfolding write_by
write p c = write_by c.writer p c

-- The error of io.ReadFull on a stream that ends: io.EOF if it read nothing.
short_read : Bytes → Error
short_read [] = eof
short_read (b ∷ bs) = unexpected_eof

-- io.ReadFull on the counting reader: `n` bytes, or an error once all is read.
unfoldable pub read_full : ℕ → Prog Conn Bytes
unfolding short_read
read_full n c =
    if leb n (length c.input)
    then (ok (take n c.input), record c { input = drop n c.input; bytes_read = c.bytes_read + n })
    else (
      err (short_read c.input),
      record c { input = []; bytes_read = c.bytes_read + length c.input },
    )
