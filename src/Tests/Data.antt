-- ===== src/Tests/Data.antt =====
-- Runs of one file's data and of its block checksums.
use go_rsync_receiver.Prelude.{
  ◌≡◌, ◌≢◌, refl, true, false, List, [], ◌∷◌, ◌++◌, none, some, arith, Bytes, replicate, drop,
  concat, equal,
}
use go_rsync_receiver.Prelude.Int.{pos}
use go_rsync_receiver.Outcome.{ok, panic, out_of_fuel}
use go_rsync_receiver.Wire.{write_int32, read_int32, int32_bytes}
use go_rsync_receiver.Wire.{read_full, le_value}
use go_rsync_receiver.Rsync.{SumHead, checked_int32, read_from, write_to}
use go_rsync_receiver.Sizes.{sum_sizes_sqroot}
use go_rsync_receiver.Sizes.Cover.{Describes}
use go_rsync_receiver.Rsync.{head_bytes}
use go_rsync_receiver.Files.{ReadStep, going, at_eof, opened}
use go_rsync_receiver.Receiver.Data.{Receiving, receive_data}
use go_rsync_receiver.Receiver.Data.Stream.{stream}
use go_rsync_receiver.Receiver.Data.Transfer.{seeded, verdict, receive_data-stream}
use go_rsync_receiver.Receiver.Data.Safety.{receive_data_settles, receive_data_integrity}
use go_rsync_receiver.Wire.{le_bytes, write, raw_write, write_string}
use go_rsync_receiver.Sizes.{block_length_of}
use go_rsync_receiver.Receiver.Data.{
  start_hash, tokens, token_loop, token_step, recv_token, consume, close_pipe, check_sum,
}
use go_rsync_receiver.Receiver.Generator.{generate_and_send_sums}
use go_rsync_receiver.Sender.Whole.{send_chunk, send_read, send_reads, send_opened, send_file}
use go_rsync_receiver.Sender.Whole.Written.{chunks_of}
use go_rsync_receiver.Sender.Whole.Delivery.{receive_data-send_file}
use go_rsync_receiver.Sender.Blocks.{receive_sums}
use go_rsync_receiver.Sender.Blocks.RoundTrip.{SignatureOf, receive_sums-generate_and_send_sums}
use go_rsync_receiver.Tests.Common.{
  conn_of, conn_of-IsFresh, tag, no_root, one_block, one_block-IsValid, file_of, seven_hundred,
  two_ops, two_ops_bytes, two_ops-Means, three_bytes, file_of-IsContent,
}

abbrev start_of : Bytes → Receiving
start_of input = record { conn = conn_of input; hashed = []; piped = []; closed = false }

abbrev two_ops_input : Bytes
two_ops_input =
    head_bytes one_block ++ (stream two_ops ++ (tag (seeded (pos 5) ++ two_ops_bytes) ++ (8 ∷ [])))

receive_data-stream_example :
    let r = receive_data tag (pos 5) [] (some (file_of seven_hundred)) (start_of two_ops_input) in
    (r.0 ≡ verdict tag (seeded (pos 5) ++ two_ops_bytes) (tag (seeded (pos 5) ++ two_ops_bytes)) [])
    × (r.1.piped ≡ two_ops_bytes)
    × (r.1.closed ≡ true)
    × (r.1.conn.input ≡ 8 ∷ [])
receive_data-stream_example =
    receive_data-stream tag (pos 5) [] (some (file_of seven_hundred)) one_block two_ops
      two_ops_bytes (tag (seeded (pos 5) ++ two_ops_bytes)) (8 ∷ []) (start_of two_ops_input)
      one_block-IsValid (omega arith) two_ops-Means refl refl

receive_data_settles_example :
    ((receive_data tag (pos 5) [] none (start_of (1 ∷ 2 ∷ []))).0 ≢ panic)
    × ((receive_data tag (pos 5) [] none (start_of (1 ∷ 2 ∷ []))).0 ≢ out_of_fuel)
receive_data_settles_example = receive_data_settles tag (pos 5) [] none (start_of (1 ∷ 2 ∷ []))

-- A head of no blocks, the literal bytes 1 and 2, the end, and the checksum of seed and bytes.
abbrev small_input : Bytes
small_input =
    0
    ∷ 0
    ∷ 0
    ∷ 0
    ∷ 188
    ∷ 2
    ∷ 0
    ∷ 0
    ∷ 16
    ∷ 0
    ∷ 0
    ∷ 0
    ∷ 0
    ∷ 0
    ∷ 0
    ∷ 0
    ∷ 2
    ∷ 0
    ∷ 0
    ∷ 0
    ∷ 1
    ∷ 2
    ∷ 0
    ∷ 0
    ∷ 0
    ∷ 0
    ∷ 6
    ∷ replicate 15 0

abbrev small_end : Receiving
small_end = record {
  conn = record (conn_of []) { bytes_read = 42 };
  hashed = 5 ∷ 0 ∷ 0 ∷ 0 ∷ 1 ∷ 2 ∷ [];
  piped = 1 ∷ 2 ∷ [];
  closed = true;
}

small_run : receive_data tag (pos 5) [] none (start_of small_input) ≡ (ok tt, small_end)
unfolding receive_data read_from checked_int32 read_int32 read_full le_value le_bytes start_hash
    tokens token_loop token_step recv_token consume close_pipe check_sum equal
small_run = refl

receive_data_integrity_example :
    (true ≡ true)
    × (front : Bytes) × (small_input ≡ front ++ (tag (seeded (pos 5) ++ (1 ∷ 2 ∷ [])) ++ []))
receive_data_integrity_example =
    receive_data_integrity tag (pos 5) [] none (start_of small_input) refl small_run

-- Two reads of a file of three bytes.
abbrev two_reads : List ReadStep
two_reads =
    (record { chunk = 1 ∷ 2 ∷ []; status = going })
    ∷ (record { chunk = 3 ∷ []; status = at_eof })
    ∷ []

abbrev sent_input : Bytes
sent_input =
    drop 4
      (send_file tag no_root (pos 5) (pos 1) (opened three_bytes two_reads) (conn_of [])).1.output
    ++ (8 ∷ [])

sent_input_lem :
    int32_bytes (pos 1) ++ sent_input
    ≡ (send_file tag no_root (pos 5) (pos 1) (opened three_bytes two_reads) (conn_of [])).1.output
      ++ (8 ∷ [])
unfolding send_file send_opened send_reads send_read send_chunk sum_sizes_sqroot block_length_of
    write_to write_string write_int32 write raw_write head_bytes int32_bytes le_bytes
sent_input_lem = refl

receive_data-send_file_example :
    let r = receive_data tag (pos 5) [] none (start_of sent_input) in
    (r.0 ≡ ok tt)
    × (r.1.piped ≡ concat (chunks_of two_reads))
    × (r.1.closed ≡ true)
    × (r.1.conn.input ≡ 8 ∷ [])
receive_data-send_file_example =
    receive_data-send_file tag no_root (pos 5) (pos 1) three_bytes two_reads [] (8 ∷ []) none
      (conn_of []) (start_of sent_input) (omega arith) (omega arith)
      (tt, omega arith, (tt, omega arith, tt)) conn_of-IsFresh sent_input_lem

abbrev signed_input : Bytes
signed_input =
    (generate_and_send_sums tag no_root (pos 5) (file_of (7 ∷ 9 ∷ [])) 2 (conn_of [])).1.output
    ++ (8 ∷ [])

receive_sums-generate_and_send_sums_example :
    (head : SumHead) × ((receive_sums (conn_of signed_input)).0 ≡ ok head)
    × Describes head 2
    × SignatureOf tag (pos 5) (record head { sums = [] }) 0 0 head.sums (7 ∷ 9 ∷ [])
    × ((receive_sums (conn_of signed_input)).1.input ≡ 8 ∷ [])
receive_sums-generate_and_send_sums_example =
    receive_sums-generate_and_send_sums tag no_root (pos 5) (file_of (7 ∷ 9 ∷ [])) (7 ∷ 9 ∷ [])
      (8 ∷ []) (conn_of []) (conn_of signed_input) (λ x. refl) (file_of-IsContent (7 ∷ 9 ∷ []))
      (omega arith) (omega arith) conn_of-IsFresh refl
