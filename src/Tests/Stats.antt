-- ===== src/Tests/Stats.antt =====
-- A run of the statistics.
use go_rsync_receiver.Prelude.{◌≡◌, refl, [], ◌∷◌, ◌++◌, arith}
use go_rsync_receiver.Prelude.Int.{pos}
use go_rsync_receiver.Outcome.{ok}
use go_rsync_receiver.Wire.{int64_bytes, int32_bytes, le_bytes}
use go_rsync_receiver.Tests.Common.{conn_of}
use go_rsync_receiver.Stats.{send_numbers, report}
use go_rsync_receiver.Stats.RoundTrip.{stats_of, report-send_numbers}

report-send_numbers_example :
    let d = conn_of ((send_numbers (pos 5000000000) (conn_of [])).1.output ++ (8 ∷ [])) in
    ((report d).0 ≡ ok (stats_of (conn_of []) (pos 5000000000))) × ((report d).1.input ≡ 8 ∷ [])
unfolding int64_bytes int32_bytes le_bytes
report-send_numbers_example =
    report-send_numbers (pos 5000000000) (conn_of [])
      (conn_of ((send_numbers (pos 5000000000) (conn_of [])).1.output ++ (8 ∷ []))) (8 ∷ []) refl
      (λ out p. refl) (omega arith) (omega arith) (omega arith) refl
