-- ===== src/Tests/Search.antt =====
-- Runs of the search.
use go_rsync_receiver.Sender.HashSearch.Complete.{Finds, look-Finds}
use go_rsync_receiver.Prelude.{
  ℕ, zero, suc, ◌+◌, ◌≤◌, ◌⊎◌, ◌≡◌, ◌≢◌, refl, subst, ap, true, false, List, [], ◌∷◌, ◌++◌, Option,
  none, some, arith, Bytes, replicate, take, equal, get_elem?, All, concat,
}
use go_rsync_receiver.Prelude.Int.{ℤ, pos, negsuc, pos_part}
use go_rsync_receiver.Prelude.Words.{to_u32}
use go_rsync_receiver.Outcome.{ok, path_error}
use go_rsync_receiver.Wire.{
  le_bytes, write_int32, write, raw_write, write_string, int32_bytes, write_by,
}
use go_rsync_receiver.Wire.Sent.{sent}
use go_rsync_receiver.Rsync.{SumBuf, SumHead, head_bytes, write_to}
use go_rsync_receiver.Rsync.Heads.{IsValid}
use go_rsync_receiver.Checksum.{
  tag_of, add_four, add_one, checksum1, checksum2, pack, quads, sign_extend, singles, tag2,
}
use go_rsync_receiver.Receiver.Data.{receive_data}
use go_rsync_receiver.Receiver.Data.Stream.{Op, stream, Means}
use go_rsync_receiver.Receiver.Data.Lengths.{no_remainder}
use go_rsync_receiver.Sender.Roll.{add_newest, halves, low_halves, remove_oldest, roll}
use go_rsync_receiver.Sender.Search.{
  Target, Search, on_wire, sum_at, read_chunk, ask, set_window, add_hash, advance, behind,
  flush_run, hash_chunks, matched, newest_of, next_offset, roll_by, roll_window, send_chunks,
  set_last, simple_send_token, skip_block, token_length, token_number, update_sums,
}
use go_rsync_receiver.Sender.Search.Slices.{slice}
use go_rsync_receiver.Sender.Search.Tokens.{Serves}
use go_rsync_receiver.Sender.Search.Rolling.{Stepped, update_sums-Rolled}
use go_rsync_receiver.Sender.HashSearch.{
  size_is, hash_search, search_file, searching, last_of, search_from, search_loop, round, look,
  at_end, compare_sum2, look_from, lookup_tag, read_size, search_end, sum_of_halves, take_match,
  try_sum, try_target, try_targets, window_sum, write_sum,
}
use go_rsync_receiver.Sender.HashSearch.Ready.{Signed}
use go_rsync_receiver.Sender.HashSearch.Sound.{hash_search-stream}
use go_rsync_receiver.Sender.Requests.{
  search_source, build_targets, targets_from, table_from, build_table,
}
use go_rsync_receiver.Sender.Requests.Tables.{IsFirst, lookup_tag-build_table}
use go_rsync_receiver.Sender.Window.{
  MapStruct, map_file, aligned_length, aligned_overshoot, rounded, grown, written, window_start,
  size_to_end, window_size, grow, overlaps, keep, seek_done, read_done, cut, seek_to, read_loop,
  read_window, fill, slide, ptr,
}
use go_rsync_receiver.Sender.Window.Loading.{Holds}
use go_rsync_receiver.Sender.Window.Serving.{ptr-Serves, map_file-Holds}
use go_rsync_receiver.Sender.Window.Delivery.{receive_data-search_source}
use go_rsync_receiver.Files.{unopened}
use go_rsync_receiver.Tests.Common.{conn_of, conn_of-IsFresh, file_of, no_root}
use go_rsync_receiver.Tests.Cursor.{
  five_seven, seven, seek_to_cursor, read_one, AtCursor, as_given, one_by_one-IsFile,
}

-- A window that is the whole file.
abbrev whole : Bytes → ℕ → ℤ → Unit {0} → Bytes × Unit {0}
whole content offset n m = (slice content offset (pos_part n), m)

abbrev Always : Unit {0} → Type 0
Always m = Unit {0}

whole-Serves : (content : Bytes) → Serves (whole content) content Always
whole-Serves content offset n m g h = (refl, tt)

-- In place of md4: the first 16 bytes.
abbrev front : Bytes → Bytes
front x = take 16 (x ++ replicate 16 0)

abbrev seven_sum : SumBuf
seven_sum = record {
  offset = pos 0;
  len = pos 1;
  index = pos 0;
  sum1 = checksum1 seven;
  sum2 = checksum2 front (pos 5) seven;
}

abbrev seven_head : SumHead
seven_head = record {
  checksum_count = pos 1;
  block_length = pos 1;
  checksum_length = pos 16;
  remainder_length = pos 0;
  sums = seven_sum ∷ [];
}

seven_head-IsValid : IsValid seven_head
seven_head-IsValid = record {
  count_lo = omega arith;
  block_lo = omega arith;
  block_hi = omega arith;
  checksum_lo = omega arith;
  checksum_hi = omega arith;
  remainder_lo = omega arith;
  remainder_hi = omega arith;
}

abbrev get_or : {A : Type 0} → A → Option A → A
get_or a none = a
get_or a (some b) = b

differ :
    take 16 (checksum2 front (pos 5) (slice five_seven 0 1))
    ≢ take 16 (checksum2 front (pos 5) seven)
unfolding checksum2
differ e = absurd (ground (arith, ap (λ (x : Bytes). get_or 0 (get_elem? x 0)) e))

seven_sum-Signed : Signed front (pos 5) seven_head (some (file_of seven)) five_seven 0 seven_sum
seven_sum-Signed = record {
  len = 1;
  p = seven;
  some_bytes = omega arith;
  listed = refl;
  copies = record {
    file = file_of seven;
    block_len = 1;
    number = omega arith;
    there = refl;
    blocks = refl;
    long = no_remainder refl refl;
    read = refl;
  };
  signed = refl;
  alone = alone;
}
  where
    alone :
        (offset : ℕ)
        → offset + 1 ≤ 2
        → take 16 (checksum2 front (pos 5) (slice five_seven offset 1))
          ≡ take 16 (checksum2 front (pos 5) seven)
        → slice five_seven offset 1 ≡ seven
    alone zero h e = absurd (differ e)
    alone (suc zero) h e = refl
    alone (suc (suc n)) h e = absurd (omega arith)

seven_head-Signed :
    (i : ℕ) (sb : SumBuf)
    → get_elem? seven_head.sums i ≡ some sb
    → Signed front (pos 5) seven_head (some (file_of seven)) five_seven i sb
seven_head-Signed zero sb e =
    subst (Signed front (pos 5) seven_head (some (file_of seven)) five_seven 0)
      (ap (get_or seven_sum) e) seven_sum-Signed
seven_head-Signed (suc i) sb e = absurd (ground (arith, e))

abbrev seven_output : Bytes
seven_output =
    (search_source (ptr seek_to_cursor (read_one five_seven)) front no_root (pos 5) as_given (pos 3)
      seven_head (record { whole = unopened path_error; stat = size_is 2; map = map_file 0 })
      (conn_of [])).1.output

-- What is behind the file's index: the head, the literal byte 5, block 0, the end, and the checksum.
abbrev seven_input : Bytes
seven_input =
    head_bytes seven_head
    ++ (int32_bytes (pos 1)
        ++ ((5 ∷ [])
            ++ (int32_bytes (negsuc 0)
                ++ (int32_bytes (pos 0) ++ (5 ∷ 0 ∷ 0 ∷ 0 ∷ 5 ∷ 7 ∷ replicate 10 0)))))

seven_output_lem : int32_bytes (pos 3) ++ seven_input ≡ seven_output ++ []
unfolding hash_search search_file searching last_of search_from search_loop round look at_end
    compare_sum2 look_from lookup_tag read_size search_end sum_of_halves take_match try_sum
    try_target try_targets window_sum write_sum on_wire sum_at read_chunk ask set_window add_hash
    advance behind flush_run hash_chunks matched newest_of next_offset roll_by roll_window
    send_chunks set_last simple_send_token skip_block token_length token_number update_sums add_four
    add_one checksum1 checksum2 pack quads sign_extend singles tag2 add_newest halves low_halves
    remove_oldest roll le_bytes write_int32 write raw_write write_string int32_bytes write_by equal
    head_bytes write_to tag_of map_file aligned_length aligned_overshoot rounded grown written
    window_start size_to_end window_size grow overlaps keep seek_done read_done cut seek_to
    read_loop read_window fill slide ptr search_source build_targets targets_from table_from
    build_table
seven_output_lem = refl

receive_data-search_source_example :
    let r =
      receive_data front
        (pos 5)
        []
        (some (file_of seven))
        (record { conn = conn_of seven_input; hashed = []; piped = []; closed = false }) in
    (r.0 ≡ ok tt) × (r.1.piped ≡ five_seven) × (r.1.closed ≡ true) × (r.1.conn.input ≡ [])
receive_data-search_source_example =
    receive_data-search_source seek_to_cursor (read_one five_seven) five_seven AtCursor 0 front
      (pos 5) seven_head (some (file_of seven)) no_root as_given (pos 3) (unopened path_error)
      seven_sum [] [] (conn_of [])
      (record { conn = conn_of seven_input; hashed = []; piped = []; closed = false })
      (one_by_one-IsFile five_seven) refl (omega arith) (omega arith) (omega arith)
      seven_head-Signed (λ P ts h. h) (unfold last_of in refl) seven_head-IsValid (omega arith)
      conn_of-IsFresh seven_output_lem

hash_search-stream_example :
    (ops : List Op) × (ws : List Bytes) × (hash_search
        (whole five_seven)
        front
        (pos 5)
        (λ size n b. tt)
        (pos 3)
        seven_head
        []
        []
        (size_is 2)
        (conn_of [])
      ≡ (ok tt, sent ws (conn_of [])))
    × (concat ws
        ≡ int32_bytes (pos 3)
          ++ (head_bytes seven_head
              ++ (stream ops ++ front (le_bytes 4 (to_u32 (pos 5)) ++ five_seven))))
    × Means (record seven_head { sums = [] }) (some (file_of seven)) ops five_seven
hash_search-stream_example =
    hash_search-stream (whole five_seven) five_seven Always (whole-Serves five_seven) (omega arith)
      front (pos 5) seven_head (some (file_of seven)) (omega arith) seven_head-Signed [] tt []
      (λ size n b. tt) (pos 3) seven_sum (conn_of []) tt (omega arith) (unfold last_of in refl)
      conn_of-IsFresh.reliable

abbrev two_window : MapStruct ℕ
two_window = map_file 0 2 262144 1

two_window-Holds :
    Holds seek_to_cursor
      (read_one five_seven)
      five_seven
      AtCursor
      (one_by_one-IsFile five_seven)
      two_window
two_window-Holds =
    map_file-Holds seek_to_cursor (read_one five_seven) five_seven AtCursor
      (one_by_one-IsFile five_seven) 0 262144 1 refl
      (unfold map_file rounded aligned_length in omega arith)

ptr-Serves_example :
    ((ptr seek_to_cursor (read_one five_seven) 1 (pos 1) two_window).0 ≡ slice five_seven 1 1)
    × Holds seek_to_cursor
        (read_one five_seven)
        five_seven
        AtCursor
        (one_by_one-IsFile five_seven)
        (ptr seek_to_cursor (read_one five_seven) 1 (pos 1) two_window).1
ptr-Serves_example =
    ptr-Serves seek_to_cursor (read_one five_seven) five_seven AtCursor
      (one_by_one-IsFile five_seven) 1 1 two_window two_window-Holds (omega arith)

abbrev two_targets : List Target
two_targets =
    record { index = 1; tag = 4 }
    ∷ record { index = 0; tag = 9 }
    ∷ record { index = 2; tag = 9 }
    ∷ []

lookup_tag-build_table_example :
    ((j : ℕ) × (lookup_tag 9 (build_table two_targets) ≡ some j) × IsFirst two_targets 9 j)
    ⊎ ((lookup_tag 9 (build_table two_targets) ≡ none)
        × All (λ (t : Target). t.tag ≢ 9) two_targets)
lookup_tag-build_table_example = lookup_tag-build_table two_targets 9

-- The search at the first byte, with no match yet.
abbrev at_five : Search (Unit {0})
at_five = record {
  conn = conn_of [];
  hashed = [];
  map = tt;
  last_match = 0;
  offset = 0;
  k = 1;
  sums = halves (checksum1 (slice five_seven 0 1));
}

update_sums-Rolled_example :
    Stepped
      (whole five_seven)
      five_seven
      Always
      (whole-Serves five_seven)
      (omega arith)
      1
      at_five
      (update_sums (whole five_seven) 2 at_five)
update_sums-Rolled_example =
    update_sums-Rolled (whole five_seven) five_seven Always (whole-Serves five_seven) (omega arith)
      1 at_five (omega arith) tt (record { inside = omega arith; window = refl; summed = refl })

-- The search at the second byte, which is the receiver's block.
abbrev at_seven : Search (Unit {0})
at_seven = record at_five { offset = 1; sums = halves (checksum1 (slice five_seven 1 1)) }

abbrev seven_targets : List Target
seven_targets = record { index = 0; tag = tag_of (checksum1 seven) } ∷ []

seven_targets_sorted :
    (a b : ℕ) (u v : Target)
    → a ≤ b
    → get_elem? seven_targets a ≡ some u
    → get_elem? seven_targets b ≡ some v
    → u.tag ≤ v.tag
seven_targets_sorted zero zero u v h e f = omega (arith, ap tag_or e, ap tag_or f)
  where
    tag_or : Option Target → ℕ
    tag_or none = 0
    tag_or (some t) = t.tag
seven_targets_sorted zero (suc b) u v h e f = absurd (ground (arith, f))
seven_targets_sorted (suc a) b u v h e f = absurd (ground (arith, e))

look-Finds_example : Finds (
    look
      (whole five_seven)
      front
      (pos 5)
      seven_head
      2
      seven_targets
      (build_table seven_targets)
      at_seven)
look-Finds_example =
    look-Finds (whole five_seven) five_seven Always (whole-Serves five_seven) (omega arith) front
      (pos 5) seven_head seven_targets 0 (record { index = 0; tag = tag_of (checksum1 seven) })
      seven_sum at_seven seven_targets_sorted ((seven_sum, refl), tt) (omega arith) refl refl refl
      tt (record { inside = omega arith; window = refl; summed = refl }) refl refl refl
