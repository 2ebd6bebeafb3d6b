-- ===== src/Tests/Wire.antt =====
-- Runs of the wire.
use go_rsync_receiver.Prelude.{◌≡◌, refl, List, [], ◌∷◌, ◌++◌, arith, Bytes}
use go_rsync_receiver.Prelude.Int.{ℤ, pos, negsuc}
use go_rsync_receiver.Outcome.{ok, err, remote}
use go_rsync_receiver.Wire.{
  Conn, multiplexed, write_int32, write_int64, write_msg, read_int32, read_int64, read_msg,
  mplex_read,
}
use go_rsync_receiver.Wire.RoundTrip.{
  read_int32-write_int32, read_int64-write_int64, read_msg-write_msg, mplex_read-write_msg,
  read_messages, write_each, read_messages-write_each,
}
use go_rsync_receiver.Tests.Common.{conn_of, conn_of-IsFresh}

read_int32-write_int32_example :
    ((read_int32 (conn_of ((write_int32 (negsuc 2) (conn_of [])).1.output ++ (9 ∷ [])))).0
      ≡ ok (negsuc 2))
    × ((read_int32 (conn_of ((write_int32 (negsuc 2) (conn_of [])).1.output ++ (9 ∷ [])))).1.input
        ≡ 9 ∷ [])
read_int32-write_int32_example =
    read_int32-write_int32 (negsuc 2) (conn_of [])
      (conn_of ((write_int32 (negsuc 2) (conn_of [])).1.output ++ (9 ∷ []))) (9 ∷ []) (omega arith)
      conn_of-IsFresh refl

abbrev wide : ℤ
wide = pos 5000000000

read_int64-write_int64_example :
    ((read_int64 (conn_of ((write_int64 wide (conn_of [])).1.output ++ (9 ∷ [])))).0 ≡ ok wide)
    × ((read_int64 (conn_of ((write_int64 wide (conn_of [])).1.output ++ (9 ∷ [])))).1.input
        ≡ 9 ∷ [])
read_int64-write_int64_example =
    read_int64-write_int64 wide (conn_of [])
      (conn_of ((write_int64 wide (conn_of [])).1.output ++ (9 ∷ []))) (9 ∷ []) (omega arith)
      conn_of-IsFresh refl

read_msg-write_msg_example :
    (read_msg (conn_of ((write_msg 2 (5 ∷ 6 ∷ []) (conn_of [])).1.output ++ []))).0
    ≡ ok (2, 5 ∷ 6 ∷ [])
read_msg-write_msg_example =
    read_msg-write_msg 2 (5 ∷ 6 ∷ []) (conn_of [])
      (conn_of ((write_msg 2 (5 ∷ 6 ∷ []) (conn_of [])).1.output ++ [])) [] (omega arith)
      (omega arith) conn_of-IsFresh refl

abbrev mplex_conn : Conn
mplex_conn = record (conn_of []) { writer = multiplexed }

abbrev two_writes : List Bytes
two_writes = (1 ∷ 2 ∷ []) ∷ (3 ∷ []) ∷ []

read_messages-write_each_example :
    ((read_messages 2 64 (conn_of ((write_each two_writes mplex_conn).1.output ++ (7 ∷ [])))).0
      ≡ ok (1 ∷ 2 ∷ 3 ∷ []))
    × ((read_messages 2 64
          (conn_of ((write_each two_writes mplex_conn).1.output ++ (7 ∷ [])))).1.input
        ≡ 7 ∷ [])
read_messages-write_each_example =
    read_messages-write_each two_writes 64 mplex_conn
      (conn_of ((write_each two_writes mplex_conn).1.output ++ (7 ∷ []))) (7 ∷ [])
      ((omega arith, omega arith), ((omega arith, omega arith), tt)) refl refl (λ out p. refl) refl

mplex_read-write_msg_example :
    (mplex_read 64 (conn_of ((write_msg 1 (5 ∷ []) (conn_of [])).1.output ++ []))).0
    ≡ err (remote (5 ∷ []))
mplex_read-write_msg_example =
    mplex_read-write_msg 64 1 (5 ∷ []) (conn_of [])
      (conn_of ((write_msg 1 (5 ∷ []) (conn_of [])).1.output ++ [])) [] (omega arith)
      (λ e. omega arith) (omega arith) conn_of-IsFresh refl
