-- ===== src/Receiver/Generator/Requests.antt =====
-- What GenerateFiles asks of the sender, against the state of the local files.
use go_rsync_receiver.Prelude.{
  ℕ, ◌+◌, ◌^◌, ◌<◌, ◌≤◌, ◌≡◌, ◌≢◌, ◌⊎◌, inl, inr, refl, sym, ◌∙◌, true, false, List, [], ◌∷◌, ◌++◌,
  arith, Bytes, length, concat, append-nil, ◌&&◌, Bool-cases,
}
use go_rsync_receiver.Prelude.Int.{pos, negsuc, pos_part, ◌==ℤ◌, ==ℤ_iff}
use go_rsync_receiver.Prelude.Words.{wrap_i32, to_i32-to_u32}
use go_rsync_receiver.Outcome.{ok, Error}
use go_rsync_receiver.Wire.{Conn, write_int32, int32_bytes, write_string}
use go_rsync_receiver.Wire.Sent.{
  Sends, Sends-then, Sends-return, write_int32-Sends, write_string-Sends, concat-append,
}
use go_rsync_receiver.Wire.RoundTrip.{IsFresh, sent-output}
use go_rsync_receiver.Rsync.{zero_head, head_bytes, write_to}
use go_rsync_receiver.Sizes.{sum_sizes_sqroot}
use go_rsync_receiver.Files.{
  Time, ReceiverFile, FileInfo, LocalFile, Present, absent, present, file_mode, is_regular,
}
use go_rsync_receiver.Receiver.Opts.{TransferOpts, Transfer, list_only}
use go_rsync_receiver.Receiver.Generator.{
  same_time, skip_file, generate_and_send_sums, request_full_file, request, recv_generator,
  generate_each, generate_files,
}
use go_rsync_receiver.Receiver.Generator.Sums.{
  IsContent, blocks, sum_writes, generate_and_send_sums-Sends,
}

-- The options by which a file is current if its size and its time are right.
pub record ByTime (opts : TransferOpts) : Type 0 where
  pub wet : opts.dry_run ≡ false
  pub unread : opts.always_checksum ≡ false
  pub timed : opts.ignore_times ≡ false
  pub both : opts.size_only ≡ false

same_time_refl : (t : Time) → same_time t t ≡ true
same_time_refl t = grind arith

same_time_sound : (a b : Time) → same_time a b ≡ true → a ≡ b
same_time_sound a b h =
    let e : a.seconds ≡ b.seconds = (==ℤ_iff a.seconds b.seconds).0 (ground arith) in
    let d : a.nanos ≡ b.nanos = ground arith in λ i. record { seconds = e i; nanos = d i }

skip_file-same :
    (opts : TransferOpts) (f : ReceiverFile) (st : FileInfo)
    → ByTime opts
    → pos st.size ≡ f.size
    → st.mod_time ≡ f.mod_time
    → skip_file opts f st ≡ true
unfolding skip_file
skip_file-same opts f st o e t =
    rw (o.unread, o.timed, o.both, sym e, sym t) (grind (arith, same_time_refl st.mod_time))

skip_file-other :
    (opts : TransferOpts) (f : ReceiverFile) (st : FileInfo)
    → ByTime opts
    → (pos st.size ≢ f.size) ⊎ (st.mod_time ≢ f.mod_time)
    → skip_file opts f st ≡ false
unfolding skip_file
skip_file-other opts f st o d =
    rw (o.unread, o.timed, o.both)
      (elim (Bool-cases ((pos st.size ==ℤ f.size) && same_time st.mod_time f.mod_time)) [
        | inl same ↦ absurd (elim d [
          | inl size ↦ size ((==ℤ_iff (pos st.size) f.size).0 (ground arith))
          | inr time ↦ time (same_time_sound st.mod_time f.mod_time (ground arith))
        ])
        | inr other ↦ other
      ])

wrap_index : (idx : ℕ) → idx < 2 ^ 31 → wrap_i32 (pos idx) ≡ pos idx
wrap_index idx h = to_i32-to_u32 (pos idx) h

module _ (md4 : Bytes → Bytes) (root : ℕ → ℕ) (rt : Transfer) (fs : Bytes → Present) where
  -- The writes of a file of which there is `content`, in blocks.
  abbrev pub sums_of : Bytes → List Bytes
  sums_of content =
      let sh = sum_sizes_sqroot root (length content) in
      head_bytes sh
      ∷ sum_writes md4 rt.seed
          (blocks (pos_part sh.checksum_count) (pos_part sh.block_length) content)

  -- What is to be asked for the files from index `idx` on: nothing if a file is not regular or is
  -- there with the size and the time of the list; the whole file, by an empty head, if it is not
  -- there; and else the difference to the blocks of what is there.
  pub data Asks : ℕ → List ReceiverFile → List Bytes → Type 0 where
    nil : {idx : ℕ} → Asks idx [] []
    irregular :
        {idx : ℕ} {rest : List ReceiverFile} {ps : List Bytes} (f : ReceiverFile)
        → is_regular (file_mode f.mode) ≡ false
        → Asks (idx + 1) rest ps
        → Asks idx (f ∷ rest) ps
    current :
        {idx : ℕ} {rest : List ReceiverFile} {ps : List Bytes} (f : ReceiverFile) (st : FileInfo)
        (file : LocalFile)
        → is_regular (file_mode f.mode) ≡ true
        → fs f.name ≡ present st file
        → pos st.size ≡ f.size
        → st.mod_time ≡ f.mod_time
        → Asks (idx + 1) rest ps
        → Asks idx (f ∷ rest) ps
    missing :
        {idx : ℕ} {rest : List ReceiverFile} {ps : List Bytes} (f : ReceiverFile) (e : Error)
        → is_regular (file_mode f.mode) ≡ true
        → fs f.name ≡ absent e
        → Asks (idx + 1) rest ps
        → Asks idx (f ∷ rest) (int32_bytes (pos idx) ∷ head_bytes zero_head ∷ ps)
    changed :
        {idx : ℕ} {rest : List ReceiverFile} {ps : List Bytes} (f : ReceiverFile) (st : FileInfo)
        (file : LocalFile) (content : Bytes)
        → is_regular (file_mode f.mode) ≡ true
        → fs f.name ≡ present st file
        → (pos st.size ≢ f.size) ⊎ (st.mod_time ≢ f.mod_time)
        → IsContent file content
        → st.size ≡ length content
        → Asks (idx + 1) rest ps
        → Asks idx (f ∷ rest) (int32_bytes (pos idx) ∷ (sums_of content ++ ps))

  request-missing :
      (idx : ℕ) (f : ReceiverFile) (e : Error)
      → ByTime rt.opts
      → idx < 2 ^ 31
      → Sends
          (request md4 root rt.seed rt.opts idx f (absent e))
          (int32_bytes (pos idx) ∷ head_bytes zero_head ∷ [])
          tt
  unfolding request request_full_file write_to
  request-missing idx f e o h =
      rw (o.wet, wrap_index idx h)
        (Sends-then (write_int32 _) (write_string _) _ _ tt tt (write_int32-Sends _)
          (write_string-Sends _))

  request-changed :
      (idx : ℕ) (f : ReceiverFile) (st : FileInfo) (file : LocalFile) (content : Bytes)
      → ByTime rt.opts
      → idx < 2 ^ 31
      → (pos st.size ≢ f.size) ⊎ (st.mod_time ≢ f.mod_time)
      → IsContent file content
      → st.size ≡ length content
      → Sends
          (request md4 root rt.seed rt.opts idx f (present st file))
          (int32_bytes (pos idx) ∷ sums_of content)
          tt
  unfolding request
  request-changed idx f st file content o h d whole e =
      rw (skip_file-other rt.opts f st o d, o.wet, wrap_index idx h, e)
        (Sends-then (write_int32 _) (generate_and_send_sums md4 root rt.seed file (length content))
          _ _ tt tt (write_int32-Sends _)
          (generate_and_send_sums-Sends md4 root rt.seed file content whole))

  recv_generator-request :
      (idx : ℕ) (f : ReceiverFile) (ps : List Bytes) (there : Present)
      → list_only rt ≡ false
      → is_regular (file_mode f.mode) ≡ true
      → fs f.name ≡ there
      → Sends (request md4 root rt.seed rt.opts idx f there) ps tt
      → Sends (recv_generator md4 root rt.seed rt fs idx f) ps tt
  unfolding recv_generator
  recv_generator-request idx f ps there l r e h = rw (l, r, e) h

  generate_each-Asks :
      (idx : ℕ) (files : List ReceiverFile) (ps : List Bytes)
      → ByTime rt.opts
      → list_only rt ≡ false
      → idx + length files ≤ 2 ^ 31
      → Asks idx files ps
      → Sends (generate_each md4 root rt.seed rt fs idx files) ps tt
  unfolding generate_each recv_generator request
  generate_each-Asks idx [] ps o l h nil = Sends-return tt
  generate_each-Asks idx (f ∷ rest) ps o l h (irregular _ r asks) =
      Sends-then (recv_generator md4 root rt.seed rt fs idx f) _ [] ps tt tt
        (rw (l, r) (Sends-return tt)) (generate_each-Asks (idx + 1) rest ps o l (omega arith) asks)
  generate_each-Asks idx (f ∷ rest) ps o l h (current _ st file r e same time asks) =
      Sends-then (recv_generator md4 root rt.seed rt fs idx f) _ [] ps tt tt
        (rw (l, r, e, skip_file-same rt.opts f st o same time) (Sends-return tt))
        (generate_each-Asks (idx + 1) rest ps o l (omega arith) asks)
  generate_each-Asks idx (f ∷ rest) _ o l h (missing {ps = ps} _ e r absent' asks) =
      Sends-then (recv_generator md4 root rt.seed rt fs idx f) _
        (int32_bytes (pos idx) ∷ head_bytes zero_head ∷ []) ps tt tt
        (recv_generator-request idx f _ (absent e) l r absent'
          (request-missing idx f e o (omega arith)))
        (generate_each-Asks (idx + 1) rest ps o l (omega arith) asks)
  generate_each-Asks idx (f ∷ rest) _ o l h
        (changed {ps = ps} _ st file content r e d whole size asks) =
      Sends-then (recv_generator md4 root rt.seed rt fs idx f) _
        (int32_bytes (pos idx) ∷ sums_of content) ps tt tt
        (recv_generator-request idx f _ (present st file) l r e
          (request-changed idx f st file content o (omega arith) d whole size))
        (generate_each-Asks (idx + 1) rest ps o l (omega arith) asks)

  -- GenerateFiles, with neither a dry run nor a test other than by size and time, over a plain
  -- connection that takes every write, for at most 2 ^ 31 files: it succeeds and writes exactly what
  -- `Asks` says of the local files, in the order of the list, and then the number -1 twice. A local
  -- file is read as it was when its size was taken.
  pub generate_files-Asks :
      (files : List ReceiverFile) (ps : List Bytes) (c : Conn)
      → ByTime rt.opts
      → list_only rt ≡ false
      → length files ≤ 2 ^ 31
      → Asks 0 files ps
      → IsFresh c
      → ((generate_files md4 root rt.seed rt fs files c).0 ≡ ok tt)
        × ((generate_files md4 root rt.seed rt fs files c).1.output
            ≡ concat ps ++ (int32_bytes (negsuc 0) ++ int32_bytes (negsuc 0)))
  unfolding generate_files
  generate_files-Asks files ps c o l h asks fresh =
      rw
        (Sends-then (generate_each md4 root rt.seed rt fs 0 files) _ ps
          (int32_bytes (negsuc 0) ∷ int32_bytes (negsuc 0) ∷ []) tt tt
          (generate_each-Asks 0 files ps o l (omega arith) asks)
          (Sends-then (write_int32 (negsuc 0)) (write_int32 (negsuc 0)) _ _ tt tt
            (write_int32-Sends (negsuc 0)) (write_int32-Sends (negsuc 0)))
          c fresh.reliable)
        (refl, sent-output _ c fresh ∙ concat-append ps _ ∙ rw append-nil)
