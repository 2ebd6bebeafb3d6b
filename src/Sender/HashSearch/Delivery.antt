-- ===== src/Sender/HashSearch/Delivery.antt =====
-- A file that hashSearch sends against the receiver's blocks reaches receiveData whole.
use go_rsync_receiver.Prelude.{
  ℕ, ◌^◌, ◌<◌, ◌≡◌, refl, ap, ◌∙◌, true, List, Option, some, Bytes, length, get_elem?, All,
}
use go_rsync_receiver.Prelude.Int.{ℤ, pos_part}
use go_rsync_receiver.Outcome.{ok, Outcome}
use go_rsync_receiver.Wire.{Conn}
use go_rsync_receiver.Rsync.{SumBuf, SumHead}
use go_rsync_receiver.Files.{LocalFile}
use go_rsync_receiver.Sender.Search.{Target}
use go_rsync_receiver.Sender.Search.Tokens.{Serves}
use go_rsync_receiver.Sender.HashSearch.{TagTable}
use go_rsync_receiver.Sender.HashSearch.Found.{HasBlock}
use go_rsync_receiver.Prelude.{◌++◌, append_left_cancel, append_assoc, equal_iff}
use go_rsync_receiver.Prelude.Words.{IsI32}
use go_rsync_receiver.Wire.{int32_bytes}
use go_rsync_receiver.Wire.RoundTrip.{IsFresh, sent-output}
use go_rsync_receiver.Rsync.{head_bytes}
use go_rsync_receiver.Rsync.Heads.{IsValid}
use go_rsync_receiver.Receiver.Data.{Receiving, receive_data}
use go_rsync_receiver.Receiver.Data.Stream.{stream}
use go_rsync_receiver.Receiver.Data.Transfer.{seeded, receive_data-stream}
use go_rsync_receiver.Sender.HashSearch.{last_of, hash_search, size_is, read_size}
use go_rsync_receiver.Sender.HashSearch.Ready.{Signed}
use go_rsync_receiver.Sender.HashSearch.Sound.{hash_search-stream}

module _ {M : Type 0} (ptr : ℕ → ℤ → M → Bytes × M) (content : Bytes) (Good : M → Type 0)
    (serves : Serves ptr content Good) (small : length content < 2 ^ 31) (md4 : Bytes → Bytes)
    (seed : ℤ) (head : SumHead) (local : Option LocalFile)
    (some_block : 0 < pos_part head.block_length)
    (signed : (i : ℕ) (sb : SumBuf)
      → get_elem? head.sums i ≡ some sb
      → Signed md4 seed head local content i sb)
    (targets : List Target) (all : All (HasBlock head) targets) (table : TagTable) where
  -- A file that hashSearch sends over a plain connection with no error reaches the receiver whole:
  -- receiveData on the bytes behind the file's index succeeds, closes the pipe, and has handed to the
  -- file system exactly the file's bytes; the next bytes on the connection are untouched. The head
  -- is in the ranges that ReadFrom demands and has blocks; the file is not empty and shorter than
  -- 2 ^ 31 bytes; the window serves its bytes; each block is in the receiver's file, with the
  -- length and strong checksum that the sender has of it, which no other bytes of the file share.
  pub receive_data-hash_search :
      (map_file : ℕ → ℕ → ℕ → M) (index : ℤ) (final : SumBuf) (name rest : Bytes) (c : Conn)
      (s : Receiving)
      → Good (map_file (length content) (read_size head) (pos_part head.block_length))
      → 0 < length content
      → last_of head.sums ≡ some final
      → IsValid head
      → IsI32 head.checksum_count
      → IsFresh c
      → int32_bytes index ++ s.conn.input
        ≡ (hash_search ptr md4 seed map_file index head targets table
            (size_is (length content))
            c).1.output
          ++ rest
      → ((receive_data md4 seed name local s).0 ≡ ok tt)
        × ((receive_data md4 seed name local s).1.piped ≡ s.piped ++ content)
        × ((receive_data md4 seed name local s).1.closed ≡ true)
        × ((receive_data md4 seed name local s).1.conn.input ≡ rest)
  receive_data-hash_search map_file index final name rest c s g h e valid counted f i =
      let sum = md4 (seeded seed ++ content) in
      let (ops, ws, result, wire, means) =
        hash_search-stream ptr content Good serves small md4 seed head local some_block signed
          targets all table map_file index final c g h e f.reliable in
      let output : (hash_search ptr md4 seed map_file index head targets table
            (size_is (length content)) c).1.output
          ≡ int32_bytes index ++ (head_bytes head ++ (stream ops ++ sum)) =
        ap (λ (x : Outcome (Unit {0}) × Conn). x.1.output) result ∙ sent-output ws c f ∙ wire in
      let input : s.conn.input ≡ head_bytes head ++ (stream ops ++ (sum ++ rest)) =
        append_left_cancel (int32_bytes index)
          (i ∙ ap (λ (o : Bytes). o ++ rest) output ∙ simp append_assoc) in
      let (ended, piped, closed, left) =
        receive_data-stream md4 seed name local head ops content sum rest s valid counted means refl
          input in
      (ended ∙ rw ((equal_iff sum sum).1 refl), piped, closed, left)
