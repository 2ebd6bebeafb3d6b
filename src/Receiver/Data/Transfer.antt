-- ===== src/Receiver/Data/Transfer.antt =====
-- receiveData on a whole transfer: the head, the tokens, and the checksum of the file.
use go_rsync_receiver.Prelude.{
  ◌+◌, ◌≡◌, refl, ◌∙◌, Bool, true, false, not, List, [], ◌++◌, Option, Bytes, length, equal,
  if◌then◌else◌,
}
use go_rsync_receiver.Prelude.Int.{ℤ}
use go_rsync_receiver.Prelude.Words.{IsI32, to_u32}
use go_rsync_receiver.Outcome.{ok, err, file_corruption, reject_if, Outcome}
use go_rsync_receiver.Wire.{le_bytes}
use go_rsync_receiver.Wire.Received.{received, received-input, received-received, read_full-Reads}
use go_rsync_receiver.Rsync.{SumHead, zero_head, head_bytes}
use go_rsync_receiver.Rsync.Heads.{IsValid, read_from-Reads}
use go_rsync_receiver.Files.{LocalFile}
use go_rsync_receiver.Receiver.Data.{Receiving, close_pipe, check_sum, start_hash, receive_data}
use go_rsync_receiver.Receiver.Data.Stream.{Op, stream, Means, took, took-conn, tokens-stream}

-- The bytes by which a checksum starts.
abbrev pub seeded : ℤ → Bytes
seeded seed = le_bytes 4 (to_u32 seed)

abbrev pub verdict : (Bytes → Bytes) → Bytes → Bytes → Bytes → Outcome (Unit {0})
verdict md4 hashed sum name = if equal (md4 hashed) sum then ok tt else err (file_corruption name)

check_sum_lem :
    (md4 : Bytes → Bytes) (name sum rest : Bytes) (s : Receiving)
    → length sum ≡ length (md4 s.hashed)
    → s.conn.input ≡ sum ++ rest
    → check_sum md4 name s
      ≡ (verdict md4 s.hashed sum name, record s { conn = received (length sum) rest s.conn })
unfolding check_sum
check_sum_lem md4 name sum rest s h e =
    rw (read_full-Reads _ sum h s.conn rest e) (split (equal (md4 s.hashed) sum) _)
  where
    split :
        (b : Bool) (t : Receiving)
        → reject_if (not b) (file_corruption name) t
          ≡ (if b then ok tt else err (file_corruption name), t)
    split true t = refl
    split false t = refl

-- The state at the end.
unfoldable pub finished : SumHead → List Op → ℤ → Bytes → Bytes → Bytes → Receiving → Receiving
finished sh ops seed bytes sum rest s = record s {
  conn = received (length (head_bytes sh) + (length (stream ops) + length sum)) rest s.conn;
  hashed = seeded seed ++ bytes;
  piped = s.piped ++ bytes;
  closed = true;
}

module _ (md4 : Bytes → Bytes) (seed : ℤ) (name : Bytes) (local : Option LocalFile) where
  receive_data-finished :
      (sh : SumHead) (ops : List Op) (bytes sum rest : Bytes) (s : Receiving)
      → IsValid sh
      → IsI32 sh.checksum_count
      → Means (record sh { sums = [] }) local ops bytes
      → length sum ≡ length (md4 (seeded seed ++ bytes))
      → s.conn.input ≡ head_bytes sh ++ (stream ops ++ (sum ++ rest))
      → receive_data md4 seed name local s
        ≡ (verdict md4 (seeded seed ++ bytes) sum name, finished sh ops seed bytes sum rest s)
  unfolding receive_data start_hash close_pipe took
  receive_data-finished sh ops bytes sum rest s v r m l e =
      let after = stream ops ++ (sum ++ rest) in
      let n = length (head_bytes sh) in
      let started : Receiving = record s { conn = received n after s.conn; hashed = seeded seed } in
      let ended : Receiving = record (took (length (stream ops)) (sum ++ rest) bytes started) {
        closed = true;
      } in
      rw (read_from-Reads zero_head sh v r s.conn after e) (
        rw
          (tokens-stream (record sh { sums = [] }) local ops bytes (sum ++ rest) started m
            (received-input n after s.conn))
          (check_sum_lem md4 name sum rest ended l (took-conn _ (sum ++ rest) bytes started)
            ∙ unfold finished in rw (received-received, received-received)))

  -- From a head in range, with a count that is an int32, tokens that stand for `bytes`, and a checksum of the digest's length, receiveData hands exactly
  -- `bytes` to the file system and closes the pipe; it succeeds if the checksum is that of the seed
  -- and `bytes`, and reports corruption otherwise. What follows on the connection is left there.
  pub receive_data-stream :
      (sh : SumHead) (ops : List Op) (bytes sum rest : Bytes) (s : Receiving)
      → IsValid sh
      → IsI32 sh.checksum_count
      → Means (record sh { sums = [] }) local ops bytes
      → length sum ≡ length (md4 (seeded seed ++ bytes))
      → s.conn.input ≡ head_bytes sh ++ (stream ops ++ (sum ++ rest))
      → ((receive_data md4 seed name local s).0 ≡ verdict md4 (seeded seed ++ bytes) sum name)
        × ((receive_data md4 seed name local s).1.piped ≡ s.piped ++ bytes)
        × ((receive_data md4 seed name local s).1.closed ≡ true)
        × ((receive_data md4 seed name local s).1.conn.input ≡ rest)
  receive_data-stream sh ops bytes sum rest s v r m l e =
      rw (receive_data-finished sh ops bytes sum rest s v r m l e)
        (unfold finished in (refl, refl, refl, received-input _ rest s.conn))
