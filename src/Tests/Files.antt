-- ===== src/Tests/Files.antt =====
-- Runs over lists of files.
use go_rsync_receiver.Prelude.{
  ◌≡◌, ◌≢◌, refl, true, false, List, [], ◌∷◌, ◌++◌, some, arith, Bytes, concat,
}
use go_rsync_receiver.Prelude.Int.{pos, negsuc}
use go_rsync_receiver.Outcome.{ok, out_of_fuel}
use go_rsync_receiver.Wire.{int32_bytes}
use go_rsync_receiver.Rsync.{head_bytes}
use go_rsync_receiver.Files.{LocalFile, ReceiverFile, Present, present}
use go_rsync_receiver.Receiver.Data.Stream.{stream, nil}
use go_rsync_receiver.Receiver.Data.Transfer.{seeded}
use go_rsync_receiver.Receiver.Opts.{Transfer}
use go_rsync_receiver.Receiver.FileList.{receive_file_list}
use go_rsync_receiver.Receiver.FileList.Ends.{Ends, receive_file_list-Ends}
use go_rsync_receiver.Receiver.Generator.{generate_files}
use go_rsync_receiver.Prelude.{inl, ap}
use go_rsync_receiver.Prelude.Int.{pos_part}
use go_rsync_receiver.Files.{is_regular, file_mode, type_bits}
use go_rsync_receiver.Receiver.Opts.{list_only}
use go_rsync_receiver.Receiver.Generator.Requests.{
  Asks, nil, irregular, changed, sums_of, generate_files-Asks,
}
use go_rsync_receiver.Prelude.{All, Option}
use go_rsync_receiver.Receiver.Loop.{Put, Session, recv_files}
use go_rsync_receiver.Receiver.Loop.Delivery.{Brings, done, next_phase, file, recv_files-Brings}
use go_rsync_receiver.Receiver.Loop.Integrity.{Verified, recv_files_ends, recv_files_integrity}
use go_rsync_receiver.Tests.Common.{
  conn_of, conn_of-IsFresh, tag, no_root, one_block, one_block-IsValid, file_of, seven_hundred,
  two_ops, two_ops_bytes, two_ops-Means, three_bytes, file_of-IsContent, plain_opts, two_bytes,
}

receive_file_list-Ends_example :
    Ends 0 (conn_of (0 ∷ [])) (receive_file_list (λ b. b) (λ fs. fs) plain_opts (conn_of (0 ∷ [])))
receive_file_list-Ends_example =
    receive_file_list-Ends (λ b. b) (λ fs. fs) plain_opts (conn_of (0 ∷ []))

abbrev directory : ReceiverFile
directory = record two_bytes { mode = pos 0o040755 }

abbrev local_files : Bytes → Present
local_files name = present (record three_bytes { size = 3 }) (file_of (7 ∷ 8 ∷ 9 ∷ []))

abbrev transfer : Transfer
transfer = record { opts = plain_opts; dest = 47 ∷ []; seed = pos 5 }

directory_irregular : is_regular (file_mode directory.mode) ≡ false
unfolding is_regular file_mode type_bits
directory_irregular = refl

two_bytes_regular : is_regular (file_mode two_bytes.mode) ≡ true
unfolding is_regular file_mode type_bits
two_bytes_regular = refl

-- The file is there, and longer than it should be.
file_wanted :
    Asks tag no_root transfer local_files 0
      (directory ∷ two_bytes ∷ [])
      (int32_bytes (pos 1) ∷ (sums_of tag no_root transfer local_files (7 ∷ 8 ∷ 9 ∷ []) ++ []))
file_wanted = irregular directory directory_irregular (
    changed two_bytes (record three_bytes { size = 3 }) (file_of (7 ∷ 8 ∷ 9 ∷ [])) (7 ∷ 8 ∷ 9 ∷ [])
      two_bytes_regular refl (inl (λ e. omega (arith, ap pos_part e)))
      (file_of-IsContent (7 ∷ 8 ∷ 9 ∷ [])) refl nil)

transfer_lists : list_only transfer ≡ false
unfolding list_only
transfer_lists = refl

generate_files-Asks_example :
    let r =
      generate_files tag no_root
        (pos 5)
        transfer
        local_files
        (directory ∷ two_bytes ∷ [])
        (conn_of []) in
    (r.0 ≡ ok tt)
    × (r.1.output
        ≡ concat (
            int32_bytes (pos 1) ∷ (sums_of tag no_root transfer local_files (7 ∷ 8 ∷ 9 ∷ []) ++ []))
          ++ (int32_bytes (negsuc 0) ++ int32_bytes (negsuc 0)))
generate_files-Asks_example =
    generate_files-Asks tag no_root transfer local_files (directory ∷ two_bytes ∷ [])
      (int32_bytes (pos 1) ∷ (sums_of tag no_root transfer local_files (7 ∷ 8 ∷ 9 ∷ []) ++ []))
      (conn_of []) (record { wet = refl; unread = refl; timed = refl; both = refl }) transfer_lists
      (omega arith) file_wanted conn_of-IsFresh

-- A session of one file, which is sent as two literal bytes and block 0 of the local file.
abbrev locals : Bytes → Option LocalFile
locals name = some (file_of seven_hundred)

abbrev session_input : Bytes
session_input =
    int32_bytes (pos 0)
    ++ (head_bytes one_block
        ++ (stream two_ops
            ++ (tag (seeded (pos 5) ++ two_ops_bytes)
                ++ (int32_bytes (negsuc 0) ++ (int32_bytes (negsuc 0) ++ (8 ∷ []))))))

session-Brings :
    Brings tag
      (pos 5)
      plain_opts
      locals
      (two_bytes ∷ [])
      0
      session_input
      (record { file = two_bytes; content = two_ops_bytes; closed = true } ∷ [])
      (8 ∷ [])
session-Brings =
    file 0 two_bytes one_block two_ops two_ops_bytes (omega arith) refl one_block-IsValid
      (omega arith) two_ops-Means (next_phase done)

abbrev session_of : Bytes → Session
session_of input = record { conn = conn_of input; puts = [] }

session_ok :
    (recv_files tag (pos 5) plain_opts locals (two_bytes ∷ []) (session_of session_input)).0 ≡ ok tt
session_ok =
    (recv_files-Brings tag (pos 5) plain_opts locals (two_bytes ∷ []) session_input (8 ∷ [])
      (record { file = two_bytes; content = two_ops_bytes; closed = true } ∷ [])
      (session_of session_input) refl refl session-Brings).0

recv_files-Brings_example :
    let r = recv_files tag (pos 5) plain_opts locals (two_bytes ∷ []) (session_of session_input) in
    (r.0 ≡ ok tt)
    × (r.1.puts ≡ record { file = two_bytes; content = two_ops_bytes; closed = true } ∷ [])
    × (r.1.conn.input ≡ 8 ∷ [])
recv_files-Brings_example =
    recv_files-Brings tag (pos 5) plain_opts locals (two_bytes ∷ []) session_input (8 ∷ [])
      (record { file = two_bytes; content = two_ops_bytes; closed = true } ∷ [])
      (session_of session_input) refl refl session-Brings

recv_files_ends_example :
    (recv_files tag (pos 5) plain_opts locals (two_bytes ∷ []) (session_of session_input)).0
    ≢ out_of_fuel
recv_files_ends_example =
    recv_files_ends tag (pos 5) plain_opts locals (two_bytes ∷ []) (session_of session_input)

recv_files_integrity_example :
    let r = recv_files tag (pos 5) plain_opts locals (two_bytes ∷ []) (session_of session_input) in
    (added : List Put) × (r.1.puts ≡ [] ++ added) × All (Verified tag (pos 5) session_input) added
recv_files_integrity_example =
    recv_files_integrity tag (pos 5) plain_opts locals (two_bytes ∷ []) (session_of session_input)
      session_ok
