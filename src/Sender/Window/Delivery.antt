-- ===== src/Sender/Window/Delivery.antt =====
-- A file that hashSearch sends through the window of fileio.go reaches receiveData whole.
use go_rsync_receiver.Prelude.{
  ℕ, ◌*◌, ◌≤◌, ◌<◌, ◌≡◌, true, List, ◌++◌, Option, some, arith, Bytes, length, get_elem?, All,
}
use go_rsync_receiver.Prelude.Int.{ℤ, pos_part}
use go_rsync_receiver.Prelude.Words.{IsI32}
use go_rsync_receiver.Outcome.{ok, Error}
use go_rsync_receiver.Wire.{Conn, int32_bytes}
use go_rsync_receiver.Wire.RoundTrip.{IsFresh}
use go_rsync_receiver.Rsync.{SumBuf, SumHead}
use go_rsync_receiver.Rsync.Heads.{IsValid}
use go_rsync_receiver.Files.{LocalFile, Opened}
use go_rsync_receiver.Receiver.Data.{Receiving, receive_data}
use go_rsync_receiver.Sender.Search.{Target}
use go_rsync_receiver.Sender.HashSearch.{last_of, size_is, read_size}
use go_rsync_receiver.Sender.HashSearch.Ready.{Signed}
use go_rsync_receiver.Sender.HashSearch.Delivery.{receive_data-hash_search}
use go_rsync_receiver.Sender.Requests.{build_targets, build_table, search_source}
use go_rsync_receiver.Sender.Requests.Tables.{build_targets-HasBlock}
use go_rsync_receiver.Sender.Window.{FileRead, map_file, ptr}
use go_rsync_receiver.Sender.Window.Loading.{IsFile, Holds}
use go_rsync_receiver.Sender.Window.Serving.{ptr-Serves, map_file-Holds, map_file-def_window_size}

read_size_large : (head : SumHead) → 256 * 1024 ≤ read_size head
unfolding read_size
read_size_large head = omega arith

-- The tables, hashSearch, mapFile and ptr, against the receiver's blocks: a file of 1 to 256 * 1024 bytes
-- that is sent over a plain connection with no error reaches the receiver whole. Seek and Read do what
-- os.File documents, and a Read may be short; the file is at its start; sort.Slice adds no element. The head is in the ranges
-- that ReadFrom demands and has blocks; each block is in the receiver's file, with the
-- length and strong checksum that the sender has of it, which no other bytes of the file share.
-- receiveData, on the bytes behind the file's index, succeeds and closes the pipe, has handed to
-- the file system exactly the file's bytes, and leaves what follows on the connection.
pub receive_data-search_source :
    {F : Type 0} (seek : ℕ → F → Option Error × F) (read : ℕ → F → FileRead × F) (content : Bytes)
    (At : ℕ → F → Type 0) (f : F) (md4 : Bytes → Bytes) (seed : ℤ) (head : SumHead)
    (local : Option LocalFile) (root : ℕ → ℕ) (sort : List Target → List Target) (index : ℤ)
    (whole : Opened) (final : SumBuf) (name rest : Bytes) (c : Conn) (s : Receiving)
    → IsFile seek read content At
    → At 0 f
    → 0 < length content
    → length content ≤ 256 * 1024
    → 0 < pos_part head.block_length
    → ((i : ℕ) (sb : SumBuf)
        → get_elem? head.sums i ≡ some sb
        → Signed md4 seed head local content i sb)
    → ((P : Target → Type 0) (ts : List Target) → All P ts → All P (sort ts))
    → last_of head.sums ≡ some final
    → IsValid head
    → IsI32 head.checksum_count
    → IsFresh c
    → int32_bytes index ++ s.conn.input
      ≡ (search_source
          (ptr seek read)
          md4
          root
          seed
          sort
          index
          head
          (record { whole = whole; stat = size_is (length content); map = map_file f })
          c).1.output
        ++ rest
    → ((receive_data md4 seed name local s).0 ≡ ok tt)
      × ((receive_data md4 seed name local s).1.piped ≡ s.piped ++ content)
      × ((receive_data md4 seed name local s).1.closed ≡ true)
      × ((receive_data md4 seed name local s).1.conn.input ≡ rest)
unfolding search_source
receive_data-search_source seek read content At f md4 seed head local root sort index whole final
      name rest c s file at some_bytes short block signed keeps e valid counted fresh input =
    let wide =
      map_file-def_window_size f (length content) (read_size head) (pos_part head.block_length)
        (read_size_large head) in
    let begun =
      map_file-Holds seek read content At file f (read_size head) (pos_part head.block_length) at
        (omega (arith, wide)) in
    receive_data-hash_search (ptr seek read) content (Holds seek read content At file)
      (ptr-Serves seek read content At file) (omega arith) md4 seed head local block signed
      (build_targets sort head.sums) (build_targets-HasBlock sort head keeps)
      (build_table (build_targets sort head.sums)) (map_file f) index final name rest c s begun
      some_bytes e valid counted fresh input
