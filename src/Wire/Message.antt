-- ===== src/Wire/Message.antt =====
-- rsyncwire.MultiplexReader, over the connection's input.
use go_rsync_receiver.Prelude.{
  ℕ, ◌+◌, ◌-◌, ◌*◌, ◌/◌, ◌%◌, ◌^◌, not, Bytes, length, ltb, ◌==◌, if◌then◌else◌,
}
use go_rsync_receiver.Outcome.{
  panic, Prog, too_long, remote, unexpected_tag, return, reject_if, ◌>>=◌, ◌>>◌,
}
use Prim.Native.Nat.{bit_and}
use go_rsync_receiver.Wire.Encoding.{le_value}
use go_rsync_receiver.Wire.Stream.{Conn, read_full, mplex_base, msg_data, msg_error}

-- ioBufferSize, which is maxMessageSize too
abbrev pub max_message_size : ℕ
max_message_size = 256 * 1024

-- `uint8(header>>24) - mplexBase`
abbrev pub header_tag : ℕ → ℕ
header_tag header = (header / 2 ^ 24 % 256 + 256 - mplex_base) % 256

abbrev pub header_length : ℕ → ℕ
header_length header = bit_and header 0x00ff_ffff

-- What follows the header.
unfoldable pub read_payload : ℕ → Prog Conn (ℕ × Bytes)
read_payload header = do
  reject_if (ltb max_message_size (header_length header)) (too_long (header_length header))
  p ← read_full (header_length header)
  return (header_tag header, p)

unfoldable pub read_msg : Prog Conn (ℕ × Bytes)
read_msg = do buf ← read_full 4; read_payload (le_value buf)

abbrev pub halt : {S A : Type 0} → Prog S A
halt s = (panic, s)

-- MultiplexReader.Read into a buffer of `room` bytes; the payload is what it copies there. An info
-- message is logged, and then refused by the test of the tag.
unfoldable pub mplex_read : ℕ → Prog Conn Bytes
mplex_read room = do
  (tag, payload) ← read_msg
  reject_if (tag == msg_error) (remote payload)
  reject_if (not (tag == msg_data)) (unexpected_tag tag)
  if ltb room (length payload) then halt else return payload
