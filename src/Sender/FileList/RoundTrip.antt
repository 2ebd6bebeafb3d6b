-- ===== src/Sender/FileList/RoundTrip.antt =====
-- A list that SendFileList writes, at ReceiveFileList.
use go_rsync_receiver.Prelude.{
  ◌≡◌, refl, ap, ◌∙◌, false, inr, none, List, [], ◌∷◌, ◌++◌, append-nil, append_assoc, Bytes, All,
}
use go_rsync_receiver.Prelude.Int.{pos}
use go_rsync_receiver.Outcome.{ok}
use go_rsync_receiver.Wire.{Conn, int32_bytes}
use go_rsync_receiver.Wire.Sent.{write_string-Sends}
use go_rsync_receiver.Wire.Received.{received-input}
use go_rsync_receiver.Wire.RoundTrip.{IsFresh, sent-output}
use go_rsync_receiver.Files.{FileInfo, ReceiverFile}
use go_rsync_receiver.Options.Fields.{Options}
use go_rsync_receiver.Options.Access.{has_preserve_uid, has_preserve_gid}
use go_rsync_receiver.Receiver.Opts.{TransferOpts}
use go_rsync_receiver.Receiver.FileList.{receive_file_list}
use go_rsync_receiver.Sender.Filters.{FilterRule, matches}
use go_rsync_receiver.Sender.FileList.{
  Env, Listing, no_listing, bytes_if, sent_name, sent_flags, note_id, uid_from_file_info,
  gid_from_file_info, add_file, add_files, end_path, and_then, add_unless, listed, check_failure,
  add_paths, id_bytes, list_end, send_file_list,
}
use go_rsync_receiver.Sender.FileList.Entry.{said_bytes, IsSayable}
use go_rsync_receiver.Sender.FileList.Fields.{
  Matches, said, IsSendable, IsSendable-IsSayable, entry_bytes-said, last_fields-link,
}
use go_rsync_receiver.Sender.FileList.Delivery.{
  same_both, entries_bytes, heard_files, maps_bytes, receive_file_list-Reads,
}

module _ (env : Env) (o : Options) (opts : TransferOpts) (m : Matches o opts) where
  -- The listing holds no names and no error.
  record IsPlain (l : Listing) : Type 0 where
    pub users : l.users ≡ []
    pub groups : l.groups ≡ []
    pub failure : l.failure ≡ none

  add_file-IsPlain :
      (info : FileInfo) (l : Listing)
      → IsSendable env o info
      → IsPlain l
      → IsPlain (add_file env o info l)
  unfolding add_file note_id uid_from_file_info gid_from_file_info
  add_file-IsPlain info l h p = record {
    users = same_both (has_preserve_uid o) l.users ∙ p.users;
    groups = same_both (has_preserve_gid o) l.groups ∙ p.groups;
    failure = ap (λ r. r.1) (last_fields-link env o opts m info l.failure h) ∙ p.failure;
  }

  -- What the loop over the files leaves.
  record Adds (excl : List FilterRule) (infos : List FileInfo) (l : Listing) : Type 0 where
    pub after : Listing
    pub result : add_files env o excl infos l ≡ ok after
    pub plain : IsPlain after
    pub bytes :
        (tail : Bytes)
        → after.buffer ++ (0 ∷ tail) ≡ l.buffer ++ (entries_bytes opts (said env o) infos ++ tail)

  buffer-entry :
      (info : FileInfo) (l : Listing)
      → IsSendable env o info
      → (entries tail : Bytes)
      → (add_file env o info l).buffer ++ (entries ++ tail)
        ≡ l.buffer
          ++ (((sent_flags info ∷ []) ++ (said_bytes opts (said env o info) ++ entries)) ++ tail)
  unfolding add_file
  buffer-entry info l h entries tail =
      rw (entry_bytes-said env o opts m info l.failure h) (simp append_assoc refl)

  add_files-Adds :
      (excl : List FilterRule) (infos : List FileInfo) (l : Listing)
      → All (λ info. matches env.base excl (sent_name info) ≡ ok false) infos
      → All (IsSendable env o) infos
      → IsPlain l
      → Adds excl infos l
  unfolding add_files
  add_files-Adds excl [] l u h p = record {
    after = l;
    result = refl;
    plain = p;
    bytes = λ tail. refl;
  }
  add_files-Adds excl (info ∷ infos) l (u, us) (h, hs) p =
      let next = add_file env o info l in
      let rest = add_files-Adds excl infos next us hs (add_file-IsPlain info l h p) in
      record {
        after = rest.after;
        result =
            ap (λ r. and_then (add_unless r l next) (add_files env o excl infos)) u ∙ rest.result;
        plain = rest.plain;
        bytes = λ tail.
            rest.bytes tail ∙ buffer-entry info l h (entries_bytes opts (said env o) infos) tail;
      }

  sendable-All :
      (infos : List FileInfo)
      → All (IsSendable env o) infos
      → All (λ info. IsSayable (said env o info)) infos
  sendable-All [] h = tt
  sendable-All (info ∷ infos) (h, hs) = (IsSendable-IsSayable env o info h, sendable-All infos hs)

  -- A list of one path, none of whose files the filters match.
  module _ (excl : List FilterRule) (requested : Bytes) (infos : List FileInfo)
      (found : env.list requested ≡ inr infos)
      (unmatched : All (λ info. matches env.base excl (sent_name info) ≡ ok false) infos)
      (sendable : All (IsSendable env o) infos) where
    added : Adds excl infos no_listing
    added =
        add_files-Adds excl infos no_listing unmatched sendable
          (record { users = refl; groups = refl; failure = refl })

    add_paths-added : add_paths env o excl (requested ∷ []) no_listing ≡ ok added.after
    unfolding add_paths end_path
    add_paths-added =
        ap
          (λ r. and_then (listed r) (λ infos.
            and_then (and_then (add_files env o excl infos no_listing) end_path)
              (add_paths env o excl [])))
          found
        ∙ ap (λ r. and_then (and_then r end_path) (add_paths env o excl [])) added.result
        ∙ ap (λ r. and_then (check_failure r added.after) (add_paths env o excl []))
            added.plain.failure

    abbrev list_bytes : Bytes
    list_bytes = entries_bytes opts (said env o) infos ++ (maps_bytes opts ++ int32_bytes (pos 0))

    end-bytes : added.after.buffer ++ list_end o added.after ≡ list_bytes
    unfolding list_end id_bytes
    end-bytes =
        let zero = int32_bytes (pos 0) in
        let tail = bytes_if opts.preserve_uid zero ++ (bytes_if opts.preserve_gid zero ++ zero) in
        rw (added.plain.users, added.plain.groups, m.uid, m.gid)
          (added.bytes tail ∙ simp append_assoc refl)

    send_file_list-output :
        (c : Conn)
        → IsFresh c
        → (send_file_list env o excl (requested ∷ []) c).1.output ≡ list_bytes
    unfolding send_file_list
    send_file_list-output c f =
        rw (add_paths-added, end-bytes)
          (rw (write_string-Sends list_bytes c f.reliable) (sent-output _ c f ∙ append-nil _))

    -- The list of one path that SendFileList writes over a plain, unused connection is received file by
    -- file: ReceiveFileList returns the sorted list of names, sizes, times, modes, ids and targets, with
    -- no i/o errors, and leaves what follows. The filters match none of the files, no checksums are
    -- asked for, devices are asked for if special files are, the sides agree on the options, and each
    -- file is of a known kind, with numbers that fit the wire and a target that can be read.
    pub receive_file_list-send_file_list :
        (clean : Bytes → Bytes) (sort : List ReceiverFile → List ReceiverFile) (c d : Conn)
        (rest : Bytes)
        → IsFresh c
        → d.input ≡ (send_file_list env o excl (requested ∷ []) c).1.output ++ rest
        → ((receive_file_list clean sort opts d).0
            ≡ ok (sort (heard_files clean opts (said env o) infos), pos 0))
          × ((receive_file_list clean sort opts d).1.input ≡ rest)
    receive_file_list-send_file_list clean sort c d rest f e =
        let sayable = sendable-All infos sendable in
        rw
          (receive_file_list-Reads clean opts (said env o) sort infos sayable d rest
            (e ∙ ap (λ (out : Bytes). out ++ rest) (send_file_list-output c f)))
          (refl, received-input _ rest d)
