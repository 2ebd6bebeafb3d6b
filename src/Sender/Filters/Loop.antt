-- ===== src/Sender/Filters/Loop.antt =====
-- RecvFilterList on any input.
use go_rsync_receiver.Prelude.{
  ℕ, zero, suc, ◌≤◌, ◌<◌, List, [], length, arith, Bool-cases, inl, inr,
}
use go_rsync_receiver.Prelude.Int.{ℤ, pos, ◌==ℤ◌}
use go_rsync_receiver.Outcome.{Prog}
use go_rsync_receiver.Wire.{Conn, read_full, read_int32}
use go_rsync_receiver.Wire.Takes.{read_int32-Takes}
use go_rsync_receiver.Receiver.Data.{make_length}
use go_rsync_receiver.Receiver.FileList.Ends.{
  Ends, Ends-bind, Ends-weaken, Takes-Ends, read_full-Ends, make_length-Ends,
}
use go_rsync_receiver.Sender.Filters.{FilterRule, filter_step, filter_loop, recv_filter_list}

filter_step-Ends :
    (filters : List FilterRule) (next : List FilterRule → Prog Conn (List FilterRule)) (len : ℤ)
    (c : Conn)
    → ((l : List FilterRule) (d : Conn) → length d.input ≤ length c.input → Ends 0 d (next l d))
    → Ends 0 c (filter_step filters next len c)
unfolding filter_step
filter_step-Ends filters next len c h = elim (Bool-cases (len ==ℤ pos 0)) [
  | inl end ↦ rw end omega arith
  | inr line ↦ rw line (
      Ends-bind 0 0 c (make_length len c) _ (make_length-Ends len c) (λ n d k.
        Ends-bind 0 0 d (read_full n d) _ (Ends-weaken n d _ (read_full-Ends n d))
          (λ text e j. h _ e (omega arith))))
]

filter_loop-Ends :
    (fuel : ℕ) (filters : List FilterRule) (c : Conn)
    → length c.input < fuel
    → Ends 0 c (filter_loop fuel filters c)
unfolding filter_loop
filter_loop-Ends zero filters c h = elim h [ ]
filter_loop-Ends (suc fuel) filters c h = Ends-weaken 4 c _ (
    Ends-bind 4 0 c (read_int32 c) _ (Takes-Ends 4 c (read_int32 c) (read_int32-Takes c))
      (λ len d k.
        filter_step-Ends filters (filter_loop fuel) len d
          (λ l e j. filter_loop-Ends fuel l e (omega arith))))

-- RecvFilterList stops on whatever the peer sends: the loop ends before its fuel does, and if it
-- returns rules, what is left of the input is no longer than the input was. It may fail, and a
-- negative length from the peer makes it panic.
pub recv_filter_list-Ends : (c : Conn) → Ends 0 c (recv_filter_list c)
unfolding recv_filter_list
recv_filter_list-Ends c = filter_loop-Ends _ [] c (omega arith)
