-- ===== src/Metrics/Tests.antt =====
-- A registry that counts.
use gowait.Prelude.{◌%◌, ◌^◌, ◌≡◌, some, List, [], ◌∷◌, pos, ℤ}
use gowait.Clock.Exact.{exact}
use gowait.Metrics.{new, cumulate}
use gowait.Store.{Stats}
use gowait.Metrics.Text.{write_to}
use gowait.Metrics.Tally.{observes, last_or, at_all_count, plain_count, observes-cumulate}

abbrev waits : List ℤ
waits = pos 0 ∷ pos 4 ∷ pos 1000 ∷ []

abbrev stats : Stats ℤ
stats = record { queue_length = pos 2; active_count = pos 3; avg_session_secs = pos 60 }

observes-cumulate_example :
    let r = observes exact waits (new exact) in
    (last_or 0 (cumulate 0 r.wait_counts) ≡ r.wait_total)
    × (r.admissions ≡ r.wait_total)
    × (r.wait_total % 2 ^ 64 ≡ 3)
    × (let lines = write_to exact (some r) stats (pos 3) in
        (at_all_count lines ≡ some r.wait_total)
        × (plain_count "gowait_wait_seconds_count" lines ≡ some r.wait_total)
        × (plain_count "gowait_admissions_total" lines ≡ some r.wait_total))
observes-cumulate_example = observes-cumulate exact waits stats (pos 3)
