-- ===== src/Tests/Replays.antt =====
-- The strike cache and the acceptance window on concrete requests.
use ort.Prelude.{ℕ, ◌+◌, ◌-◌, ◌≤◌, ◌≡◌, ◌↔◌, refl, List, [], ◌∷◌, ok, err, bytes_eq, arith}
use ort.Core.Error.{replayed}
use ort.Core.Time.{check_window, check_window_iff}
use ort.Core.Replay.{new, contains_key, retain, insert, check_and_insert, run}
use ort.Core.Replay.Log.{run_log, run-run_log}

unfoldable strikes : ℕ → ℕ
unfolding bytes_eq new contains_key retain insert check_and_insert run
strikes n = n

abbrev tag : List ℕ
tag = 1 ∷ []

abbrev requests : List (List ℕ × ℕ)
requests = (tag, 100) ∷ (2 ∷ [], 150) ∷ (tag, 600) ∷ (tag, 601) ∷ []

-- A window of 500: refused at its last millisecond, accepted after it.
run-requests : (run requests (new 500)).0 ≡ ok tt ∷ ok tt ∷ err replayed ∷ ok tt ∷ []
unfolding strikes
run-requests = refl

run-run_log_example :
    ((run requests (new 500)).0 ≡ (run_log 500 requests []).0)
    × ((run requests (new 500)).1.entries ≡ retain (601 - 500) (run_log 500 requests []).1)
run-run_log_example = run-run_log 500 requests (omega arith)

check_window_iff_example :
    (check_window 5000 6001 2000 1000 ≡ ok tt) ↔ ((6001 ≤ 5000 + 1000) × (5000 ≤ 6001 + 2000))
check_window_iff_example = check_window_iff 5000 6001 2000 1000 (omega arith)
