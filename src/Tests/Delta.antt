-- ===== src/Tests/Delta.antt =====
-- A run of the whole exchange: the receiver's request, and the sender's answer.
use go_rsync_receiver.Prelude.{
  ℕ, zero, suc, ◌≤◌, ◌≡◌, refl, ap, true, false, [], ◌∷◌, ◌++◌, some, arith, Bytes, replicate, take,
  equal,
}
use go_rsync_receiver.Prelude.Int.{pos, negsuc}
use go_rsync_receiver.Outcome.{ok, path_error}
use go_rsync_receiver.Wire.{
  le_bytes, write_int32, write, raw_write, write_string, int32_bytes, write_by,
}
use go_rsync_receiver.Rsync.{SumHead, head_bytes, write_to}
use go_rsync_receiver.Checksum.{
  tag_of, add_four, add_one, checksum1, checksum2, pack, quads, sign_extend, singles, tag2,
}
use go_rsync_receiver.Receiver.Data.{receive_data}
use go_rsync_receiver.Sender.Roll.{add_newest, halves, low_halves, remove_oldest, roll}
use go_rsync_receiver.Sender.Search.{
  on_wire, sum_at, read_chunk, ask, set_window, add_hash, advance, behind, flush_run, hash_chunks,
  matched, newest_of, next_offset, roll_by, roll_window, send_chunks, set_last, simple_send_token,
  skip_block, token_length, token_number, update_sums,
}
use go_rsync_receiver.Sender.Search.Slices.{slice}
use go_rsync_receiver.Sender.HashSearch.{
  size_is, hash_search, search_file, searching, last_of, search_from, search_loop, round, look,
  at_end, compare_sum2, look_from, lookup_tag, read_size, search_end, sum_of_halves, take_match,
  try_sum, try_target, try_targets, window_sum, write_sum,
}
use go_rsync_receiver.Sender.Requests.{
  search_source, build_targets, targets_from, table_from, build_table,
}
use go_rsync_receiver.Sender.Window.{
  map_file, aligned_length, aligned_overshoot, rounded, grown, written, window_start, size_to_end,
  window_size, grow, overlaps, keep, seek_done, read_done, cut, seek_to, read_loop, read_window,
  fill, slide, ptr,
}
use go_rsync_receiver.Files.{unopened}
use go_rsync_receiver.Tests.Common.{conn_of, conn_of-IsFresh, file_of, no_root}
use go_rsync_receiver.Prelude.{length, drop, length-append, length-take, length-drop}
use go_rsync_receiver.Receiver.Generator.{generate_and_send_sums, send_sums, send_sum}
use go_rsync_receiver.Sender.Blocks.{receive_sums, read_sums, make_sum, sum_len}
use go_rsync_receiver.Rsync.{read_from, checked_int32}
use go_rsync_receiver.Wire.{read_int32, read_full, le_value}
use go_rsync_receiver.Sizes.{sum_sizes_sqroot, block_length_of}
use go_rsync_receiver.Sender.Delta.{receive_data-generate_and_send_sums}
use go_rsync_receiver.Tests.Common.{file_of-IsContent}
use go_rsync_receiver.Tests.Cursor.{
  five_seven, seven, seek_to_cursor, read_one, AtCursor, as_given, one_by_one-IsFile,
}

-- In place of md4: the length and the first bytes.
abbrev stamp : Bytes → Bytes
stamp x = take 16 (length x ∷ (x ++ replicate 16 0))

sixteen : (x : Bytes) → length (stamp x) ≡ 16
sixteen x =
    omega
      (arith, length-take 16 (length x ∷ (x ++ replicate 16 0)), length-append x (replicate 16 0))

abbrev at_or_zero : Bytes → ℕ → ℕ
at_or_zero [] n = 0
at_or_zero (b ∷ l) zero = b
at_or_zero (b ∷ l) (suc n) = at_or_zero l n

-- Two byte strings of two bytes at most that `stamp` does not tell apart are the same.
stamp_lem :
    (p q : Bytes)
    → length p ≤ 2
    → length q ≤ 2
    → checksum2 stamp (pos 5) p ≡ checksum2 stamp (pos 5) q
    → p ≡ q
unfolding checksum2 le_bytes
stamp_lem [] [] h k e = refl
stamp_lem [] (y ∷ []) h k e = absurd (ground (arith, ap (λ (x : Bytes). at_or_zero x 0) e))
stamp_lem [] (y ∷ z ∷ []) h k e = absurd (ground (arith, ap (λ (x : Bytes). at_or_zero x 0) e))
stamp_lem (x ∷ []) [] h k e = absurd (ground (arith, ap (λ (x : Bytes). at_or_zero x 0) e))
stamp_lem (x ∷ []) (y ∷ []) h k e = ap (λ (b : ℕ). b ∷ []) (ap (λ (l : Bytes). at_or_zero l 1) e)
stamp_lem (x ∷ []) (y ∷ z ∷ []) h k e =
    absurd (ground (arith, ap (λ (x : Bytes). at_or_zero x 0) e))
stamp_lem (x ∷ w ∷ []) [] h k e = absurd (ground (arith, ap (λ (x : Bytes). at_or_zero x 0) e))
stamp_lem (x ∷ w ∷ []) (y ∷ []) h k e =
    absurd (ground (arith, ap (λ (x : Bytes). at_or_zero x 0) e))
stamp_lem (x ∷ w ∷ []) (y ∷ z ∷ []) h k e =
    (λ i. ap (λ (l : Bytes). at_or_zero l 1) e i ∷ ap (λ (l : Bytes). at_or_zero l 2) e i ∷ [])
stamp_lem (x ∷ w ∷ v ∷ p) q h k e = absurd (omega (arith, h))
stamp_lem p (y ∷ z ∷ u ∷ q) h k e = absurd (omega (arith, k))

length-slice_most : (content : Bytes) (at n : ℕ) → length (slice content at n) ≤ length content
length-slice_most content at n =
    omega (arith, length-take n (drop at content), length-drop at content)

abbrev asked_head : SumHead
asked_head = record {
  checksum_count = pos 1;
  block_length = pos 700;
  checksum_length = pos 16;
  remainder_length = pos 1;
  sums =
      record {
        offset = pos 0;
        len = pos 1;
        index = pos 0;
        sum1 = 458759;
        sum2 = stamp (7 ∷ 5 ∷ 0 ∷ 0 ∷ 0 ∷ []);
      }
      ∷ [];
}

abbrev request : Bytes
request =
    (generate_and_send_sums stamp no_root (pos 5) (file_of seven) 1 (conn_of [])).1.output ++ []

abbrev answer : Bytes
answer =
    (search_source (ptr seek_to_cursor (read_one five_seven)) stamp no_root (pos 5) as_given (pos 3)
      asked_head (record { whole = unopened path_error; stat = size_is 2; map = map_file 0 })
      (conn_of [])).1.output

known : (receive_sums (conn_of request)).0 ≡ ok asked_head
unfolding generate_and_send_sums send_sums send_sum receive_sums read_sums make_sum sum_len
    read_from checked_int32 read_int32 read_full le_value sum_sizes_sqroot block_length_of add_four
    add_one checksum1 checksum2 pack quads sign_extend singles le_bytes write_int32 write raw_write
    write_string int32_bytes write_by head_bytes write_to
known = refl

-- What is behind the file's index: the head, the literal byte 5, block 0, the end, and the checksum.
abbrev answer_input : Bytes
answer_input =
    head_bytes asked_head
    ++ (int32_bytes (pos 1)
        ++ ((5 ∷ [])
            ++ (int32_bytes (negsuc 0)
                ++ (int32_bytes (pos 0) ++ (6 ∷ 5 ∷ 0 ∷ 0 ∷ 0 ∷ 5 ∷ 7 ∷ replicate 9 0)))))

answer_lem : int32_bytes (pos 3) ++ answer_input ≡ answer ++ []
unfolding hash_search search_file searching last_of search_from search_loop round look at_end
    compare_sum2 look_from lookup_tag read_size search_end sum_of_halves take_match try_sum
    try_target try_targets window_sum write_sum on_wire sum_at read_chunk ask set_window add_hash
    advance behind flush_run hash_chunks matched newest_of next_offset roll_by roll_window
    send_chunks set_last simple_send_token skip_block token_length token_number update_sums add_four
    add_one checksum1 checksum2 pack quads sign_extend singles tag2 add_newest halves low_halves
    remove_oldest roll le_bytes write_int32 write raw_write write_string int32_bytes write_by equal
    head_bytes write_to tag_of map_file aligned_length aligned_overshoot rounded grown written
    window_start size_to_end window_size grow overlaps keep seek_done read_done cut seek_to
    read_loop read_window fill slide ptr search_source build_targets targets_from table_from
    build_table
answer_lem = refl

receive_data-generate_and_send_sums_example :
    let r =
      receive_data stamp
        (pos 5)
        []
        (some (file_of seven))
        (record { conn = conn_of answer_input; hashed = []; piped = []; closed = false }) in
    (r.0 ≡ ok tt) × (r.1.piped ≡ five_seven) × (r.1.closed ≡ true) × (r.1.conn.input ≡ [])
receive_data-generate_and_send_sums_example =
    receive_data-generate_and_send_sums seek_to_cursor (read_one five_seven) five_seven seven
      AtCursor 0 stamp no_root (pos 5) asked_head (file_of seven) as_given (pos 3)
      (unopened path_error) [] [] [] (conn_of []) (conn_of request) (conn_of [])
      (record { conn = conn_of answer_input; hashed = []; piped = []; closed = false })
      (one_by_one-IsFile five_seven) refl (omega arith) (omega arith) (file_of-IsContent seven)
      (omega arith) (omega arith) (omega arith) sixteen
      (λ offset at n e.
        stamp_lem (slice five_seven offset n) (slice seven at n)
          (length-slice_most five_seven offset n) (omega (arith, length-slice_most seven at n)) e)
      (λ P ts h. h) conn_of-IsFresh refl known conn_of-IsFresh answer_lem
