-- ===== src/Stats/RoundTrip.antt =====
-- The statistics from the sender to the receiver.
use go_rsync_receiver.Prelude.{
  ◌+◌, ◌≡◌, refl, ap, ◌∙◌, ◌++◌, append_assoc, Bytes, length, length-append, append_left_cancel,
}
use go_rsync_receiver.Prelude.Int.{ℤ, pos}
use go_rsync_receiver.Prelude.Words.{IsI64}
use go_rsync_receiver.Outcome.{ok}
use go_rsync_receiver.Wire.{Conn, plain, bytes_written, write_int64, read_int64, int64_bytes}
use go_rsync_receiver.Wire.Sent.{IsReliable, sent, framed, concat-int64_writes, write_int64-Sends}
use go_rsync_receiver.Wire.Received.{
  Reads, Reads-bind, Reads-map, received-input, read_int64-int64_bytes,
}
use go_rsync_receiver.Stats.{TransferStats, count_read, count_written, send_numbers, report}

-- Three numbers, as they stand on the wire.
abbrev stats_bytes : TransferStats → Bytes
stats_bytes s = int64_bytes s.read ++ (int64_bytes s.written ++ int64_bytes s.size)

report-Reads :
    (s : TransferStats)
    → IsI64 s.read
    → IsI64 s.written
    → IsI64 s.size
    → Reads report (stats_bytes s) s
unfolding report
report-Reads s r w z =
    Reads-bind read_int64 _ (int64_bytes s.read) (int64_bytes s.written ++ int64_bytes s.size)
      s.read s (read_int64-int64_bytes s.read r)
      (Reads-bind read_int64 _ (int64_bytes s.written) (int64_bytes s.size) s.written s
        (read_int64-int64_bytes s.written w)
        (Reads-map read_int64 _ (int64_bytes s.size) s.size s (read_int64-int64_bytes s.size z)
          (λ c. refl)))

write_int64-plain :
    (z : ℤ) (c : Conn)
    → c.writer ≡ plain
    → IsReliable c
    → write_int64 z c ≡ (ok tt, record c { output = c.output ++ int64_bytes z })
unfolding sent framed
write_int64-plain z c p r = rw (write_int64-Sends z c r, p, concat-int64_writes z) refl

-- The numbers that the sender gives: the second counts the bytes of the first.
abbrev pub stats_of : Conn → ℤ → TransferStats
stats_of c total_size = record {
  read = pos c.bytes_read;
  written = pos (bytes_written c + length (int64_bytes (pos c.bytes_read)));
  size = total_size;
}

send_numbers-output :
    (total_size : ℤ) (c : Conn)
    → c.writer ≡ plain
    → IsReliable c
    → (send_numbers total_size c).1.output ≡ c.output ++ stats_bytes (stats_of c total_size)
unfolding send_numbers count_read count_written
send_numbers-output total_size c p r =
    let first = int64_bytes (pos c.bytes_read) in
    let c1 : Conn = record c { output = c.output ++ first } in
    let second = int64_bytes (pos (bytes_written c1)) in
    let c2 : Conn = record c { output = (c.output ++ first) ++ second } in
    rw (write_int64-plain (pos c.bytes_read) c p r) (
      rw (write_int64-plain (pos (bytes_written c1)) c1 p r) (
        rw (write_int64-plain total_size c2 p r)
          (rw (append_assoc, append_assoc) rw (length-append c.output first) refl)))

-- The receiver's report, of the numbers that the sender writes at the end over a plain connection
-- that takes every write: the bytes that the sender had read, the bytes that it had written when it
-- came to the second number, and the size of the files, if all three are int64. What follows is left.
pub report-send_numbers :
    (total_size : ℤ) (c d : Conn) (rest : Bytes)
    → c.writer ≡ plain
    → IsReliable c
    → IsI64 (stats_of c total_size).read
    → IsI64 (stats_of c total_size).written
    → IsI64 total_size
    → c.output ++ d.input ≡ (send_numbers total_size c).1.output ++ rest
    → ((report d).0 ≡ ok (stats_of c total_size)) × ((report d).1.input ≡ rest)
report-send_numbers total_size c d rest p r i j k e =
    rw
      (report-Reads (stats_of c total_size) i j k d rest (
        append_left_cancel c.output (
          e
          ∙ ap (λ (o : Bytes). o ++ rest) (send_numbers-output total_size c p r)
          ∙ append_assoc c.output _ rest)))
      (refl, received-input _ rest d)
