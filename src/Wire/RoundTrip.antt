-- ===== src/Wire/RoundTrip.antt =====
-- What one side of a connection writes, the other side reads: numbers on a plain connection,
-- messages on a multiplexed one.
use go_rsync_receiver.Prelude.{
  ℕ, zero, suc, ◌^◌, ◌≤◌, ◌<◌, ◌≡◌, ◌≢◌, refl, ap, ◌∙◌, List, [], ◌∷◌, ◌++◌, map, append-nil, arith,
  Bytes, length, concat, All, leb, ◌==◌, if◌then◌else◌, Bool-cases, inl, inr,
}
use go_rsync_receiver.Prelude.Int.{ℤ}
use go_rsync_receiver.Prelude.Words.{IsI32, IsI64}
use go_rsync_receiver.Outcome.{ok, err, too_long, remote, unexpected_tag, Prog, ◌>>=◌, ◌>>◌, return}
use go_rsync_receiver.Wire.Stream.{plain, multiplexed, Conn, msg_data, msg_error, write_msg, write}
use go_rsync_receiver.Wire.Numbers.{
  write_int32, write_int64, read_int32, read_int64, int32_bytes, int64_bytes,
}
use go_rsync_receiver.Wire.Message.{max_message_size, read_msg, mplex_read}
use go_rsync_receiver.Wire.Sent.{
  IsReliable, Sends, Sends-then, Sends-return, write-Sends, sent, framed, frame, write_msg-reliable,
  write_int32-Sends, write_int64-Sends, concat-int64_writes,
}
use go_rsync_receiver.Wire.Received.{
  Reads, Reads-bind, Reads-map, Reads-return, received-input, read_int32-int32_bytes,
  read_int64-int64_bytes,
}
use go_rsync_receiver.Wire.Frames.{
  message, read_msg-message, read_msg_too_long, mplex_read-frame, mplex_read_refuses,
}

-- A plain connection on which nothing was written and no write fails.
pub record IsFresh (c : Conn) : Type 0 where
  pub is_plain : c.writer ≡ plain
  pub nothing : c.output ≡ []
  pub reliable : IsReliable c

pub sent-output : (ps : List Bytes) (c : Conn) → IsFresh c → (sent ps c).output ≡ concat ps
unfolding sent framed
sent-output ps c f = rw (f.nothing, f.is_plain)

-- ReadInt32 returns the int32 that WriteInt32 wrote over a plain, unused connection that takes every
-- write, and leaves what follows.
pub read_int32-write_int32 :
    (z : ℤ) (c d : Conn) (rest : Bytes)
    → IsI32 z
    → IsFresh c
    → d.input ≡ (write_int32 z c).1.output ++ rest
    → ((read_int32 d).0 ≡ ok z) × ((read_int32 d).1.input ≡ rest)
read_int32-write_int32 z c d rest h f e =
    rw (read_int32-int32_bytes z h d rest (e ∙ ap (λ (o : Bytes). o ++ rest) written))
      (refl, received-input _ rest d)
  where
    written : (write_int32 z c).1.output ≡ int32_bytes z
    written = rw (write_int32-Sends z c f.reliable) (sent-output _ c f ∙ append-nil _)

-- ReadInt64 returns the int64 that WriteInt64 wrote over a plain, unused connection that takes every
-- write, whichever of its two forms it chose, and leaves what follows.
pub read_int64-write_int64 :
    (z : ℤ) (c d : Conn) (rest : Bytes)
    → IsI64 z
    → IsFresh c
    → d.input ≡ (write_int64 z c).1.output ++ rest
    → ((read_int64 d).0 ≡ ok z) × ((read_int64 d).1.input ≡ rest)
read_int64-write_int64 z c d rest h f e =
    rw (read_int64-int64_bytes z h d rest (e ∙ ap (λ (o : Bytes). o ++ rest) written))
      (refl, received-input _ rest d)
  where
    written : (write_int64 z c).1.output ≡ int64_bytes z
    written = rw (write_int64-Sends z c f.reliable) (sent-output _ c f ∙ concat-int64_writes z)

-- ReadMsg on what WriteMsg wrote returns the tag and the payload of a message of at most
-- maxMessageSize bytes, and refuses a longer one (of less than 2 ^ 24 bytes), for tags below 249 and
-- a connection that is unused and takes every write.
pub read_msg-write_msg :
    (tag : ℕ) (p : Bytes) (c d : Conn) (rest : Bytes)
    → tag < 249
    → length p < 2 ^ 24
    → IsFresh c
    → d.input ≡ (write_msg tag p c).1.output ++ rest
    → (read_msg d).0
      ≡ (if leb (length p) max_message_size then ok (tag, p) else err (too_long (length p)))
unfolding message
read_msg-write_msg tag p c d rest h k f e = elim (Bool-cases (leb (length p) max_message_size)) [
  | inl short ↦ rw (
    short,
    read_msg-message tag p h k (ground arith) d rest (e ∙ ap (λ (o : Bytes). o ++ rest) written),
  )
  | inr long ↦ rw (
    long,
    read_msg_too_long tag p h k d rest (e ∙ ap (λ (o : Bytes). o ++ rest) written) (ground arith),
  )
]
  where
    written : (write_msg tag p c).1.output ≡ message tag p
    written = rw (write_msg-reliable tag p c f.reliable) (rw f.nothing)

-- The reader's loop: `n` calls of MultiplexReader.Read with a buffer of `room` bytes.
unfoldable pub read_messages : ℕ → ℕ → Prog Conn Bytes
read_messages zero room = return []
read_messages (suc n) room = do p ← mplex_read room; more ← read_messages n room; return (p ++ more)

-- A message that the reader accepts.
abbrev pub Fits : ℕ → Bytes → Type 0
Fits room p = (length p ≤ max_message_size) × (length p ≤ room)

read_messages-framed :
    (ps : List Bytes) (room : ℕ)
    → All (Fits room) ps
    → Reads (read_messages (length ps) room) (framed multiplexed ps) (concat ps)
unfolding read_messages framed
read_messages-framed [] room h = Reads-return []
read_messages-framed (p ∷ ps) room ((short, fits), hs) =
    Reads-bind (mplex_read room) _ (frame p) _ p (p ++ concat ps)
      (mplex_read-frame room p short fits)
      (Reads-map (read_messages (length ps) room) _ (concat (map frame ps)) (concat ps)
        (p ++ concat ps) (read_messages-framed ps room hs) (λ c. refl))

-- Several writes, one after the other.
unfoldable pub write_each : List Bytes → Prog Conn (Unit {0})
write_each [] = return tt
write_each (p ∷ ps) = do write p; write_each ps

pub write_each-Sends : (ps : List Bytes) → Sends (write_each ps) ps tt
unfolding write_each
write_each-Sends [] = Sends-return tt
write_each-Sends (p ∷ ps) =
    Sends-then (write p) (write_each ps) (p ∷ []) ps tt tt (write-Sends p) (write_each-Sends ps)

-- The stream that a multiplexed connection carries is the stream that a plain one carries: reading
-- the messages of any writes that fit gives the written bytes in order, and leaves what follows. The
-- connection is unused and takes every write; a write fits if it is no longer than maxMessageSize and
-- the reader's buffer.
pub read_messages-write_each :
    (ps : List Bytes) (room : ℕ) (c d : Conn) (rest : Bytes)
    → All (Fits room) ps
    → c.writer ≡ multiplexed
    → c.output ≡ []
    → IsReliable c
    → d.input ≡ (write_each ps c).1.output ++ rest
    → ((read_messages (length ps) room d).0 ≡ ok (concat ps))
      × ((read_messages (length ps) room d).1.input ≡ rest)
read_messages-write_each ps room c d rest h w o r e =
    rw (read_messages-framed ps room h d rest (e ∙ ap (λ (o : Bytes). o ++ rest) written))
      (refl, received-input _ rest d)
  where
    written : (write_each ps c).1.output ≡ framed multiplexed ps
    written = rw (write_each-Sends ps c r) (unfold sent in rw (o, w))

-- MultiplexReader.Read turns an error message into the error, and refuses every message that is
-- neither data nor an error, an info message too. The tag is below 249, the message no longer than
-- maxMessageSize, and the connection it was written to unused and without faults.
pub mplex_read-write_msg :
    (room tag : ℕ) (p : Bytes) (c d : Conn) (rest : Bytes)
    → tag < 249
    → tag ≢ msg_data
    → length p ≤ max_message_size
    → IsFresh c
    → d.input ≡ (write_msg tag p c).1.output ++ rest
    → (mplex_read room d).0 ≡ err (if tag == msg_error then remote p else unexpected_tag tag)
unfolding message
mplex_read-write_msg room tag p c d rest h other short f e =
    mplex_read_refuses room tag p d rest h other short (e ∙ ap (λ (o : Bytes). o ++ rest) written)
  where
    written : (write_msg tag p c).1.output ≡ message tag p
    written = rw (write_msg-reliable tag p c f.reliable) (rw f.nothing)
