-- ===== src/Wire/Frames.antt =====
-- One message of the multiplexed protocol, from WriteMsg to ReadMsg.
use go_rsync_receiver.Prelude.{
  ℕ, ◌+◌, ◌*◌, ◌%◌, ◌^◌, ◌≤◌, ◌<◌, ◌≡◌, ◌≢◌, refl, ◌∙◌, ◌++◌, arith, Bytes, length, ltb, true,
  false, ◌==◌, if◌then◌else◌, append_assoc,
}
use go_rsync_receiver.Prelude.Bits.{bit_or_field, bit_and_mask}
use go_rsync_receiver.Outcome.{err, too_long, remote, unexpected_tag}
use go_rsync_receiver.Wire.Encoding.{le_bytes, le_value, length-le_bytes, le_value-le_bytes}
use go_rsync_receiver.Wire.Stream.{Conn, msg_header, msg_data, msg_error}
use go_rsync_receiver.Wire.Message.{
  max_message_size, header_tag, header_length, read_payload, read_msg, mplex_read,
}
use go_rsync_receiver.Wire.Stream.{read_full}
use go_rsync_receiver.Wire.Sent.{frame}
use go_rsync_receiver.Wire.Received.{Reads, Reads-bind, Reads-map, read_full-Reads, received}

-- The header of a message whose length fits 24 bits.
pub msg_header_lem :
    (tag len : ℕ) → tag < 249 → len < 2 ^ 24 → msg_header tag len ≡ (7 + tag) * 2 ^ 24 + len
unfolding msg_header
msg_header_lem tag len h k =
    let e : (7 + tag) % 256 * 2 ^ 24 % 2 ^ 32 ≡ (7 + tag) * 2 ^ 24 = omega arith in
    let f : len % 2 ^ 32 ≡ len = omega arith in rw (e, f) (bit_or_field (7 + tag) 24 len k)

header_length_lem : (q len : ℕ) → len < 2 ^ 24 → header_length (q * 2 ^ 24 + len) ≡ len
header_length_lem q len k = bit_and_mask 24 (q * 2 ^ 24 + len) ∙ omega arith

header_tag_lem :
    (tag len : ℕ) → tag < 249 → len < 2 ^ 24 → header_tag ((7 + tag) * 2 ^ 24 + len) ≡ tag
header_tag_lem tag len h k = omega arith

unfoldable pub message : ℕ → Bytes → Bytes
message tag p = le_bytes 4 (msg_header tag (length p)) ++ p

header_fits : (tag len : ℕ) → tag < 249 → len < 2 ^ 24 → msg_header tag len < 256 ^ 4
header_fits tag len h k = rw (msg_header_lem tag len h k) (omega arith)

-- What ReadMsg makes of the header.
module _ (tag : ℕ) (p : Bytes) (h : tag < 249) (k : length p < 2 ^ 24) where
  header : ℕ
  header = le_value (le_bytes 4 (msg_header tag (length p)))

  header_lem : header ≡ (7 + tag) * 2 ^ 24 + length p
  unfolding header
  header_lem =
      le_value-le_bytes 4 _ (header_fits tag (length p) h k) ∙ msg_header_lem tag (length p) h k

  header_parts : (header_tag header ≡ tag) × (header_length header ≡ length p)
  header_parts =
      rw header_lem (header_tag_lem tag (length p) h k, header_length_lem (7 + tag) (length p) k)

  read_payload-Reads : length p ≤ max_message_size → Reads (read_payload header) p (tag, p)
  unfolding read_payload
  read_payload-Reads short =
      rw (header_parts.1, header_parts.0, small)
        (Reads-map (read_full (length p)) _ p p (tag, p) (read_full-Reads (length p) p refl)
          (λ c. refl))
    where
      small : ltb max_message_size (length p) ≡ false
      small = ground arith

  read_payload_too_long :
      (c : Conn)
      → max_message_size < length p
      → read_payload header c ≡ (err (too_long (length p)), c)
  unfolding read_payload
  read_payload_too_long c long = rw (header_parts.1, big)
    where
      big : ltb max_message_size (length p) ≡ true
      big = ground arith

  pub read_msg-message : length p ≤ max_message_size → Reads read_msg (message tag p) (tag, p)
  unfolding read_msg message header
  read_msg-message short =
      Reads-bind (read_full 4) _ (le_bytes 4 (msg_header tag (length p))) p _ (tag, p)
        (read_full-Reads 4 _ (length-le_bytes 4 _)) (read_payload-Reads short)

  pub read_msg_too_long :
      (c : Conn) (rest : Bytes)
      → c.input ≡ message tag p ++ rest
      → max_message_size < length p
      → read_msg c ≡ (err (too_long (length p)), received 4 (p ++ rest) c)
  unfolding read_msg message header
  read_msg_too_long c rest e long = rw (
    read_full-Reads 4 _ (length-le_bytes 4 _) c (p ++ rest) (e ∙ append_assoc _ p rest),
    length-le_bytes 4 _,
    read_payload_too_long (received 4 (p ++ rest) c) long,
  )

-- A data message is handed to the caller, if its buffer has room.
pub mplex_read-frame :
    (room : ℕ) (p : Bytes)
    → length p ≤ max_message_size
    → length p ≤ room
    → Reads (mplex_read room) (frame p) p
unfolding mplex_read frame message
mplex_read-frame room p short fits =
    Reads-map read_msg _ (frame p) (msg_data, p) p
      (read_msg-message msg_data p (omega arith) (omega arith) short) (λ c. rw has_room)
  where
    has_room : ltb room (length p) ≡ false
    has_room = ground arith

-- An error message becomes the error, a message of another kind is refused.
pub mplex_read_refuses :
    (room tag : ℕ) (p : Bytes) (c : Conn) (rest : Bytes)
    → tag < 249
    → tag ≢ msg_data
    → length p ≤ max_message_size
    → c.input ≡ message tag p ++ rest
    → (mplex_read room c).0 ≡ err (if tag == msg_error then remote p else unexpected_tag tag)
unfolding mplex_read
mplex_read_refuses room tag p c rest h other short e =
    rw (read_msg-message tag p h (omega arith) short c rest e) (ground arith)
