-- ===== src/Sender/Whole/Written.antt =====
-- What sendFile writes when no read and no write fails.
use go_rsync_receiver.Prelude.{
  ℕ, ◌^◌, ◌<◌, List, [], ◌∷◌, ◌++◌, append-nil, append_assoc, Bytes, length, concat,
}
use go_rsync_receiver.Prelude.Int.{ℤ, pos}
use go_rsync_receiver.Prelude.Words.{to_u32, to_i32-to_u32}
use go_rsync_receiver.Outcome.{return}
use go_rsync_receiver.Wire.{le_bytes, int32_bytes, write, write_int32, write_string}
use go_rsync_receiver.Wire.Sent.{
  Sends, Sends-bind, Sends-then, Sends-return, write-Sends, write_int32-Sends, write_string-Sends,
}
use go_rsync_receiver.Rsync.{SumHead, head_bytes, write_to}
use go_rsync_receiver.Sizes.{sum_sizes_sqroot}
use go_rsync_receiver.Files.{FileInfo, ReadStatus, going, at_eof, broken, ReadStep}
use go_rsync_receiver.Sender.Whole.{send_chunk, send_read, send_reads, send_opened}

-- The chunks that the loop sends.
abbrev pub more_chunks : ReadStatus → Bytes → List Bytes → List Bytes
more_chunks (broken e) chunk later = []
more_chunks going [] later = []
more_chunks going (b ∷ bs) later = (b ∷ bs) ∷ later
more_chunks at_eof [] later = []
more_chunks at_eof (b ∷ bs) later = (b ∷ bs) ∷ []

unfoldable pub chunks_of : List ReadStep → List Bytes
chunks_of [] = []
chunks_of (step ∷ rest) = more_chunks step.status step.chunk (chunks_of rest)

-- The reads give no error, and each fits an int32.
abbrev pub CleanRead : ReadStatus → Type 0
CleanRead (broken e) = ⊥
CleanRead going = Unit
CleanRead at_eof = Unit

abbrev pub AreClean : List ReadStep → Type 0
AreClean [] = Unit
AreClean (step ∷ rest) = CleanRead step.status × (length step.chunk < 2 ^ 31) × AreClean rest

-- The writes for the chunks: each behind its length.
unfoldable pub chunk_writes : List Bytes → List Bytes
chunk_writes [] = []
chunk_writes (p ∷ ps) = int32_bytes (pos (length p)) ∷ p ∷ chunk_writes ps

send_chunk-Sends :
    (p : Bytes)
    → length p < 2 ^ 31
    → Sends (send_chunk p) (int32_bytes (pos (length p)) ∷ p ∷ []) tt
unfolding send_chunk
send_chunk-Sends p h = rw (to_i32-to_u32 (pos (length p)) h) (
    Sends-then (write_int32 (pos (length p))) (write p) _ _ tt tt (write_int32-Sends _)
      (write-Sends p))

send_read-Sends :
    (status : ReadStatus) (p h : Bytes) (rest : List ReadStep)
    → CleanRead status
    → length p < 2 ^ 31
    → ((g : Bytes)
        → Sends (send_reads rest g) (chunk_writes (chunks_of rest)) (g ++ concat (chunks_of rest)))
    → Sends
        (send_read status p h (send_reads rest))
        (chunk_writes (more_chunks status p (chunks_of rest)))
        (h ++ concat (more_chunks status p (chunks_of rest)))
unfolding send_read chunk_writes
send_read-Sends (broken e) p h rest n l k = absurd n
send_read-Sends going [] h rest n l k = rw append-nil (Sends-return h)
send_read-Sends going (b ∷ bs) h rest n l k =
    rw (← append_assoc h (b ∷ bs) (concat (chunks_of rest))) (
      Sends-then (send_chunk (b ∷ bs)) (send_reads rest (h ++ (b ∷ bs))) _ _ tt _
        (send_chunk-Sends (b ∷ bs) l) (k (h ++ (b ∷ bs))))
send_read-Sends at_eof [] h rest n l k = rw append-nil (Sends-return h)
send_read-Sends at_eof (b ∷ bs) h rest n l k = rw append-nil (
    Sends-then (send_chunk (b ∷ bs)) (return (h ++ (b ∷ bs))) _ [] tt _
      (send_chunk-Sends (b ∷ bs) l) (Sends-return (h ++ (b ∷ bs))))

pub send_reads-Sends :
    (reads : List ReadStep) (h : Bytes)
    → AreClean reads
    → Sends (send_reads reads h) (chunk_writes (chunks_of reads)) (h ++ concat (chunks_of reads))
unfolding send_reads chunks_of
send_reads-Sends [] h c = unfold chunk_writes in rw append-nil (Sends-return h)
send_reads-Sends (step ∷ rest) h (n, l, c) =
    send_read-Sends step.status step.chunk h rest n l (λ g. send_reads-Sends rest g c)

-- All writes of one file.
unfoldable pub file_writes : ℤ → SumHead → List Bytes → Bytes → List Bytes
file_writes index head chunks sum =
    int32_bytes index ∷ head_bytes head ∷ (chunk_writes chunks ++ (int32_bytes (pos 0) ∷ sum ∷ []))

module _ (md4 : Bytes → Bytes) (root : ℕ → ℕ) (seed : ℤ) where
  pub send_opened-Sends :
      (index : ℤ) (fi : FileInfo) (reads : List ReadStep)
      → AreClean reads
      → Sends
          (send_opened md4 root seed index fi reads)
          (file_writes index
            (sum_sizes_sqroot root fi.size)
            (chunks_of reads)
            (md4 (le_bytes 4 (to_u32 seed) ++ concat (chunks_of reads))))
          tt
  unfolding send_opened write_to file_writes
  send_opened-Sends index fi reads c =
      let start = le_bytes 4 (to_u32 seed) in
      let head = head_bytes (sum_sizes_sqroot root fi.size) in
      Sends-then (write_int32 index) _ (int32_bytes index ∷ []) _ tt tt (write_int32-Sends index) (
        Sends-then (write_string head) _ (head ∷ []) _ tt tt (write_string-Sends head) (
          Sends-bind (send_reads reads start) _ (chunk_writes (chunks_of reads)) _ _ tt
            (send_reads-Sends reads start c)
            (Sends-then (write_int32 (pos 0)) (write _) (int32_bytes (pos 0) ∷ []) _ tt tt
              (write_int32-Sends (pos 0)) (write-Sends _))))
