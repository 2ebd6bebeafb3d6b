-- ===== src/Sender/Whole/Delivery.antt =====
-- From sendFile to receiveData: a file sent whole arrives as it was read.
use go_rsync_receiver.Prelude.{
  ℕ, ◌*◌, ◌^◌, ◌≤◌, ◌<◌, ◌≡◌, refl, ap, ◌∙◌, true, List, [], ◌∷◌, ◌++◌, map, append-nil,
  append_assoc, Option, arith, Bytes, length, concat, All, append_left_cancel, equal_iff,
}
use go_rsync_receiver.Prelude.Int.{ℤ, pos}
use go_rsync_receiver.Outcome.{ok}
use go_rsync_receiver.Wire.{Conn, int32_bytes}
use go_rsync_receiver.Wire.RoundTrip.{IsFresh, sent-output}
use go_rsync_receiver.Rsync.{SumHead, head_bytes}
use go_rsync_receiver.Sizes.{sum_sizes_sqroot}
use go_rsync_receiver.Sizes.Cover.{sum_sizes_sqroot-IsValid, sum_sizes_sqroot-IsI32}
use go_rsync_receiver.Files.{
  LocalFile, FileInfo, ReadStatus, going, at_eof, broken, ReadStep, opened,
}
use go_rsync_receiver.Receiver.Data.{Receiving, receive_data}
use go_rsync_receiver.Receiver.Data.Stream.{Op, literal, op_bytes, stream, Means, nil, cons_literal}
use go_rsync_receiver.Receiver.Data.Transfer.{seeded, receive_data-stream}
use go_rsync_receiver.Sender.Whole.{send_opened, send_file}
use go_rsync_receiver.Sender.Whole.Written.{
  AreClean, CleanRead, more_chunks, chunks_of, chunk_writes, file_writes, send_opened-Sends,
}

abbrev pub literals : List Bytes → List Op
literals ps = map literal ps

-- The chunks on the wire are a stream of literals.
pub chunk_writes-stream :
    (ps : List Bytes) (sum : Bytes)
    → concat (chunk_writes ps ++ (int32_bytes (pos 0) ∷ sum ∷ [])) ≡ stream (literals ps) ++ sum
unfolding chunk_writes stream op_bytes
chunk_writes-stream [] sum = rw append-nil
chunk_writes-stream (p ∷ ps) sum = rw (chunk_writes-stream ps sum, append_assoc, append_assoc)

-- A chunk is counted by an int32, and is not empty.
abbrev pub IsChunk : Bytes → Type 0
IsChunk p = (0 < length p) × (length p < 2 ^ 31)

chunks_of-IsChunk : (reads : List ReadStep) → AreClean reads → All IsChunk (chunks_of reads)
unfolding chunks_of
chunks_of-IsChunk [] c = tt
chunks_of-IsChunk (step ∷ rest) (n, l, c) = go step.status step.chunk n l (chunks_of-IsChunk rest c)
  where
    go :
        (status : ReadStatus) (p : Bytes)
        → CleanRead status
        → length p < 2 ^ 31
        → All IsChunk (chunks_of rest)
        → All IsChunk (more_chunks status p (chunks_of rest))
    go (broken e) p n l h = tt
    go going [] n l h = tt
    go going (b ∷ bs) n l h = ((omega arith, l), h)
    go at_eof [] n l h = tt
    go at_eof (b ∷ bs) n l h = ((omega arith, l), tt)

pub literals-Means :
    (sh : SumHead) (local : Option LocalFile) (ps : List Bytes)
    → All IsChunk ps
    → Means sh local (literals ps) (concat ps)
literals-Means sh local [] h = nil
literals-Means sh local (p ∷ ps) ((some', fits), h) =
    cons_literal some' fits (literals-Means sh local ps h)

-- The bytes of sendFile's writes, with what follows them.
file_writes-stream :
    (index : ℤ) (head : SumHead) (chunks : List Bytes) (sum rest : Bytes)
    → concat (file_writes index head chunks sum) ++ rest
      ≡ int32_bytes index ++ (head_bytes head ++ (stream (literals chunks) ++ (sum ++ rest)))
unfolding file_writes
file_writes-stream index head chunks sum rest =
    rw (chunk_writes-stream chunks sum) (simp append_assoc)

send_opened-output :
    (md4 : Bytes → Bytes) (root : ℕ → ℕ) (seed index : ℤ) (fi : FileInfo) (reads : List ReadStep)
    (c : Conn)
    → AreClean reads
    → IsFresh c
    → (send_opened md4 root seed index fi reads c).1.output
      ≡ concat (
          file_writes index
            (sum_sizes_sqroot root fi.size)
            (chunks_of reads)
            (md4 (seeded seed ++ concat (chunks_of reads))))
send_opened-output md4 root seed index fi reads c clean f =
    rw (send_opened-Sends md4 root seed index fi reads clean c f.reliable) (sent-output _ c f)

-- A file that sendFile sends, over a plain connection and with no error, reaches the receiver
-- whole: receiveData on the bytes behind the file's index succeeds, closes the pipe, and has handed
-- to the file system exactly the chunks that were read, in order; the next bytes on the connection
-- are untouched. The file's length as stat gave it need not be the number of bytes read; it is at
-- most 700 * 2 ^ 30, its square root as computed at most 2 ^ 29, and each read is of less than
-- 2 ^ 31 bytes.
pub receive_data-send_file :
    (md4 : Bytes → Bytes) (root : ℕ → ℕ) (seed index : ℤ) (fi : FileInfo) (reads : List ReadStep)
    (name rest : Bytes) (local : Option LocalFile) (c : Conn) (s : Receiving)
    → fi.size ≤ 700 * 2 ^ 30
    → root fi.size ≤ 2 ^ 29
    → AreClean reads
    → IsFresh c
    → int32_bytes index ++ s.conn.input
      ≡ (send_file md4 root seed index (opened fi reads) c).1.output ++ rest
    → ((receive_data md4 seed name local s).0 ≡ ok tt)
      × ((receive_data md4 seed name local s).1.piped ≡ s.piped ++ concat (chunks_of reads))
      × ((receive_data md4 seed name local s).1.closed ≡ true)
      × ((receive_data md4 seed name local s).1.conn.input ≡ rest)
unfolding send_file
receive_data-send_file md4 root seed index fi reads name rest local c s short fits clean f e =
    let head = sum_sizes_sqroot root fi.size in
    let bytes = concat (chunks_of reads) in
    let sum = md4 (seeded seed ++ bytes) in
    let (result, piped, closed, left) =
      receive_data-stream md4 seed name local head (literals (chunks_of reads)) bytes sum rest s
        (sum_sizes_sqroot-IsValid root fi.size short fits)
        (sum_sizes_sqroot-IsI32 root fi.size short fits)
        (literals-Means _ local (chunks_of reads) (chunks_of-IsChunk reads clean)) refl
        (append_left_cancel (int32_bytes index) (
          e
          ∙ ap (λ (o : Bytes). o ++ rest)
              (send_opened-output md4 root seed index fi reads c clean f)
          ∙ file_writes-stream index head (chunks_of reads) sum rest)) in
    (result ∙ rw ((equal_iff sum sum).1 refl), piped, closed, left)
