-- ===== src/Sender/FileList/Delivery.antt =====
-- The whole list, from SendFileList to ReceiveFileList.
use go_rsync_receiver.Prelude.{
  ℕ, zero, suc, ◌≤◌, ◌<◌, ◌≡◌, refl, subst, ap, Bool, true, false, ◌||◌, List, [], ◌∷◌, ◌++◌, Bytes,
  equal, length, length-append, arith, All, if◌then◌else◌, codes,
}
use go_rsync_receiver.Prelude.Int.{pos}
use go_rsync_receiver.Outcome.{Prog}
use go_rsync_receiver.Wire.{Conn, read_byte, read_int32, int32_bytes}
use go_rsync_receiver.Wire.Received.{
  Reads, Reads-bind, Reads-map, Reads-return, read_byte-Reads, read_int32-int32_bytes,
}
use go_rsync_receiver.Files.{FileInfo, ReceiverFile}
use go_rsync_receiver.Receiver.Opts.{TransferOpts}
use go_rsync_receiver.Receiver.FileList.{
  read_if, entry_step, entries_loop, receive_entries, no_file, IdMap, mapping_step, mapping_loop,
  recv_id_mapping, recv_id_list, receive_file_list,
}
use go_rsync_receiver.Sender.FileList.{bytes_if, sent_flags}
use go_rsync_receiver.Sender.FileList.Entry.{
  Said, IsSayable, said_bytes, heard, whole_entry, whole_entry-Reads, receive_file_entry-long,
  read_if-Reads,
}

-- The root's flags and the others'.
sent_flags-root :
    (info : FileInfo) → sent_flags info ≡ (if equal info.name (codes "/") then 65 else 64)
unfolding sent_flags
sent_flags-root info = refl

pub same_both : {A : Type 0} (b : Bool) (a : A) → (if b then a else a) ≡ a
same_both true a = refl
same_both false a = refl

abbrev zero_bytes : Bytes
zero_bytes = int32_bytes (pos 0)

module _ (opts : TransferOpts) where
  -- The entries of the list, and the byte behind them.
  abbrev pub entries_bytes : (FileInfo → Said) → List FileInfo → Bytes
  entries_bytes say [] = 0 ∷ []
  entries_bytes say (info ∷ infos) =
      (sent_flags info ∷ []) ++ (said_bytes opts (say info) ++ entries_bytes say infos)

  length-entries_bytes :
      (say : FileInfo → Said) (infos : List FileInfo)
      → length infos ≤ length (entries_bytes say infos)
  length-entries_bytes say [] = omega arith
  length-entries_bytes say (info ∷ infos) = omega (
    arith,
    length-entries_bytes say infos,
    length-append (said_bytes opts (say info)) (entries_bytes say infos),
  )

  -- The two maps, which are empty.
  abbrev pub maps_bytes : Bytes
  maps_bytes = bytes_if opts.preserve_uid zero_bytes ++ bytes_if opts.preserve_gid zero_bytes

module _ (clean : Bytes → Bytes) (opts : TransferOpts) where
  entry_step-Reads :
      (root : Bool) (last : ReceiverFile) (s : Said)
      (next : ReceiverFile → Prog Conn (List ReceiverFile)) (q : Bytes) (files : List ReceiverFile)
      → IsSayable s
      → Reads (next (heard opts s clean)) q files
      → Reads
          (entry_step clean opts last next (if root then 65 else 64))
          (said_bytes opts s ++ q)
          (heard opts s clean ∷ files)
  unfolding entry_step
  entry_step-Reads true last s next q files h rest =
      rw (receive_file_entry-long clean opts last true) (
        Reads-bind (whole_entry clean opts last.name) _ (said_bytes opts s) q (heard opts s clean) _
          (whole_entry-Reads opts s clean last.name h)
          (Reads-map (next (heard opts s clean)) _ q files _ rest (λ c. refl)))
  entry_step-Reads false last s next q files h rest =
      rw (receive_file_entry-long clean opts last false) (
        Reads-bind (whole_entry clean opts last.name) _ (said_bytes opts s) q (heard opts s clean) _
          (whole_entry-Reads opts s clean last.name h)
          (Reads-map (next (heard opts s clean)) _ q files _ rest (λ c. refl)))

  -- The files as the receiver has them.
  abbrev pub heard_files : (FileInfo → Said) → List FileInfo → List ReceiverFile
  heard_files say [] = []
  heard_files say (info ∷ infos) = heard opts (say info) clean ∷ heard_files say infos

  entries_loop-Reads :
      (say : FileInfo → Said) (infos : List FileInfo) (fuel : ℕ) (last : ReceiverFile)
      → All (λ info. IsSayable (say info)) infos
      → length infos < fuel
      → Reads
          (entries_loop fuel clean opts last)
          (entries_bytes opts say infos)
          (heard_files say infos)
  unfolding entries_loop entry_step
  entries_loop-Reads say infos zero last h l = elim l [ ]
  entries_loop-Reads say [] (suc fuel) last h l =
      Reads-map read_byte _ (0 ∷ []) 0 [] (read_byte-Reads 0) (λ c. refl)
  entries_loop-Reads say (info ∷ infos) (suc fuel) last (h, hs) l =
      Reads-bind read_byte _ (sent_flags info ∷ []) _ (sent_flags info) _
        (read_byte-Reads (sent_flags info))
        (rw (sent_flags-root info) (
          entry_step-Reads (equal info.name (codes "/")) last (say info) _
            (entries_bytes opts say infos) _ h
            (entries_loop-Reads say infos fuel _ hs (omega (arith, l)))))

  receive_entries-Reads :
      (say : FileInfo → Said) (infos : List FileInfo)
      → All (λ info. IsSayable (say info)) infos
      → Reads (receive_entries clean opts) (entries_bytes opts say infos) (heard_files say infos)
  unfolding receive_entries
  receive_entries-Reads say infos h c rest e =
      let enough : length infos < suc (length c.input) = omega (
        arith,
        length-entries_bytes opts say infos,
        ap length e,
        length-append (entries_bytes opts say infos) rest,
      ) in
      entries_loop-Reads say infos (suc (length c.input)) no_file h enough c rest e

  recv_id_mapping-Reads : Reads recv_id_mapping zero_bytes []
  unfolding recv_id_mapping mapping_loop mapping_step
  recv_id_mapping-Reads c rest e =
      Reads-map read_int32 _ zero_bytes (pos 0) [] (read_int32-int32_bytes (pos 0) (omega arith))
        (λ c. refl) c rest e

  recv_ids : (b : Bool) → Reads (read_if b [] recv_id_mapping) (bytes_if b zero_bytes) []
  recv_ids b =
      subst (Reads (read_if b [] recv_id_mapping) (bytes_if b zero_bytes)) (same_both b [])
        (read_if-Reads b [] recv_id_mapping zero_bytes [] (λ _. recv_id_mapping-Reads))

  recv_id_list-Reads : Reads (recv_id_list opts) (maps_bytes opts) ([], [])
  unfolding recv_id_list
  recv_id_list-Reads =
      Reads-bind (read_if opts.preserve_uid [] recv_id_mapping) _
        (bytes_if opts.preserve_uid zero_bytes) (bytes_if opts.preserve_gid zero_bytes) [] ([], [])
        (recv_ids opts.preserve_uid)
        (Reads-map (read_if opts.preserve_gid [] recv_id_mapping) _
          (bytes_if opts.preserve_gid zero_bytes) [] ([], []) (recv_ids opts.preserve_gid)
          (λ c. refl))

  either_map :
      (u g : Bool) (m : Prog Conn (IdMap × IdMap))
      → Reads m (bytes_if u zero_bytes ++ bytes_if g zero_bytes) ([], [])
      → Reads
          (read_if (u || g) ([], []) m)
          (bytes_if u zero_bytes ++ bytes_if g zero_bytes)
          ([], [])
  unfolding read_if
  either_map true g m h = h
  either_map false true m h = h
  either_map false false m h = Reads-return ([], [])

  pub receive_file_list-Reads :
      (say : FileInfo → Said) (sort : List ReceiverFile → List ReceiverFile) (infos : List FileInfo)
      → All (λ info. IsSayable (say info)) infos
      → Reads
          (receive_file_list clean sort opts)
          (entries_bytes opts say infos ++ (maps_bytes opts ++ zero_bytes))
          (sort (heard_files say infos), pos 0)
  unfolding receive_file_list
  receive_file_list-Reads say sort infos h =
      Reads-bind (receive_entries clean opts) _ (entries_bytes opts say infos) _
        (heard_files say infos) _ (receive_entries-Reads say infos h)
        (Reads-bind (read_if (opts.preserve_uid || opts.preserve_gid) ([], []) (recv_id_list opts))
          _ (maps_bytes opts) zero_bytes ([], []) _
          (either_map opts.preserve_uid opts.preserve_gid (recv_id_list opts) recv_id_list-Reads)
          (Reads-map read_int32 _ zero_bytes (pos 0) _
            (read_int32-int32_bytes (pos 0) (omega arith)) (λ c. refl)))
