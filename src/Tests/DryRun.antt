-- ===== src/Tests/DryRun.antt =====
-- A run of SendFiles in a dry run.
use go_rsync_receiver.Prelude.{◌≡◌, refl, true, [], ◌∷◌, ◌++◌, arith, Bytes}
use go_rsync_receiver.Prelude.Int.{pos, negsuc}
use go_rsync_receiver.Outcome.{ok}
use go_rsync_receiver.Wire.{int32_bytes}
use go_rsync_receiver.Sender.Window.{ptr}
use go_rsync_receiver.Sender.Requests.{send_files}
use go_rsync_receiver.Sender.Requests.DryRun.{requests, send_files-requests}
use go_rsync_receiver.Tests.Common.{conn_of, tag, no_root}
use go_rsync_receiver.Tests.Cursor.{five_seven, seek_to_cursor, read_one, as_given}

-- Two requests, the end of the first phase, one more request, and the end.
abbrev two_phases : Bytes
two_phases =
    requests (pos 4 ∷ pos 0 ∷ [])
    ++ (int32_bytes (negsuc 0) ++ (requests (pos 4 ∷ []) ++ (int32_bytes (negsuc 0) ++ (9 ∷ []))))

send_files-requests_example :
    let r =
      send_files
        (ptr seek_to_cursor (read_one five_seven))
        tag
        no_root
        (pos 5)
        as_given
        true
        []
        (conn_of two_phases) in
    (r.0 ≡ ok tt)
    × (r.1.output
        ≡ requests (pos 4 ∷ pos 0 ∷ [])
          ++ (int32_bytes (negsuc 0) ++ (requests (pos 4 ∷ []) ++ int32_bytes (negsuc 0))))
    × (r.1.input ≡ 9 ∷ [])
send_files-requests_example =
    send_files-requests (ptr seek_to_cursor (read_one five_seven)) tag no_root (pos 5) as_given []
      (pos 4 ∷ pos 0 ∷ []) (pos 4 ∷ []) (9 ∷ []) (conn_of two_phases)
      (
        (omega arith, λ e. absurd (ground (arith, e))),
        ((omega arith, λ e. absurd (ground (arith, e))), tt),
      )
      ((omega arith, λ e. absurd (ground (arith, e))), tt)
      (record { is_plain = refl; nothing = refl; reliable = λ out p. refl }) refl
