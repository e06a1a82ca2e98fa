-- ===== src/Core/Replay/Log.antt =====
-- The cache against a log that forgets nothing: for requests whose times do not go back, evicting
-- is invisible.
use ort.Prelude.{
  ℕ, ◌+◌, ◌-◌, ◌≤◌, ◌≡◌, refl, ap, ◌∙◌, List, [], ◌∷◌, Bool, false, ◌&&◌, ◌||◌, ok, err, bytes_eq,
  inl, inr, Bool-cases, arith, leb, if◌then◌else◌,
}
use mathlib.Core.Path.{ap₂}
use ort.Core.Error.{CoreResult, replayed}
use ort.Core.Replay.{
  Entries, contains_key, retain, remove, insert, StrikeCache, new, check_and_insert, run,
}

-- Every tag ever accepted and its time, newest first.
abbrev pub Log : Type 0
Log = List (List ℕ × ℕ)

-- The log has `tag` with a time at most `window` before `now`.
unfoldable pub struck : ℕ → List ℕ → ℕ → Log → Bool
struck window tag now [] = false
struck window tag now ((t, at) ∷ log) =
    (bytes_eq t tag && leb now (at + window)) || struck window tag now log

unfoldable pub check_log : ℕ → List ℕ → ℕ → Log → CoreResult (Unit {0}) × Log
check_log window tag now log =
    if struck window tag now log then (err replayed, log) else (ok tt, (tag, now) ∷ log)

unfoldable pub run_log : ℕ → List (List ℕ × ℕ) → Log → List (CoreResult (Unit {0})) × Log
run_log window [] log = ([], log)
run_log window ((tag, now) ∷ es) log =
    let (r, log1) = check_log window tag now log in
    let (rs, log2) = run_log window es log1 in (r ∷ rs, log2)

-- The times of the requests do not go back, and start at `last` or later.
abbrev pub IsForward : ℕ → List (List ℕ × ℕ) → Type 0
IsForward last [] = Unit
IsForward last ((tag, now) ∷ es) = (last ≤ now) × IsForward now es

-- The cache holds the part of the log that is still in the window.
abbrev pub Represents : ℕ → StrikeCache → Log → Type 0
Represents now s log = s.entries ≡ retain (now - s.window_ms) log

retain-retain : (a b : ℕ) (m : Entries) → a ≤ b → retain b (retain a m) ≡ retain b m
unfolding retain
retain-retain a b [] h = refl
retain-retain a b ((t, at) ∷ m) h = ground (arith, retain-retain a b m h)

contains_key-retain :
    (tag : List ℕ) (window now : ℕ) (log : Log)
    → contains_key tag (retain (now - window) log) ≡ struck window tag now log
unfolding contains_key retain struck
contains_key-retain tag window now [] = refl
contains_key-retain tag window now ((t, at) ∷ log) =
    ground (arith, contains_key-retain tag window now log)

remove_absent : (tag : List ℕ) (m : Entries) → contains_key tag m ≡ false → remove tag m ≡ m
unfolding contains_key remove
remove_absent tag [] h = refl
remove_absent tag ((t, at) ∷ m) h = ground (arith, remove_absent tag m)

retain_newest :
    (tag : List ℕ) (now window : ℕ) (log : Log)
    → (tag, now) ∷ retain (now - window) log ≡ retain (now - window) ((tag, now) ∷ log)
unfolding retain
retain_newest tag now window log = ground arith

-- One request: the same answer, and again the part in the window.
check_and_insert-check_log :
    (tag : List ℕ) (last now : ℕ) (s : StrikeCache) (log : Log)
    → last ≤ now
    → Represents last s log
    → ((check_and_insert tag now s).0 ≡ (check_log s.window_ms tag now log).0)
      × Represents now (check_and_insert tag now s).1 (check_log s.window_ms tag now log).1
      × ((check_and_insert tag now s).1.window_ms ≡ s.window_ms)
unfolding check_and_insert check_log insert
check_and_insert-check_log tag last now s log h r =
    let kept : retain (now - s.window_ms) s.entries ≡ retain (now - s.window_ms) log =
      ap (retain (now - s.window_ms)) r ∙ retain-retain _ _ log (omega arith) in
    rw (kept, contains_key-retain tag s.window_ms now log)
      (elim (Bool-cases (struck s.window_ms tag now log)) [
        | inl old ↦ rw old (refl, refl, refl)
        | inr fresh ↦ rw fresh (
          refl,
          ap (λ m. (tag, now) ∷ m)
                (remove_absent tag (retain (now - s.window_ms) log)
                  (contains_key-retain tag s.window_ms now log ∙ fresh))
              ∙ retain_newest tag now s.window_ms log,
          refl,
        )
      ])

-- The time of the last request.
abbrev pub last_time : ℕ → List (List ℕ × ℕ) → ℕ
last_time last [] = last
last_time last ((tag, now) ∷ es) = last_time now es

run_from :
    (es : List (List ℕ × ℕ)) (last : ℕ) (s : StrikeCache) (log : Log)
    → IsForward last es
    → Represents last s log
    → ((run es s).0 ≡ (run_log s.window_ms es log).0)
      × Represents (last_time last es) (run es s).1 (run_log s.window_ms es log).1
      × ((run es s).1.window_ms ≡ s.window_ms)
unfolding run run_log
run_from [] last s log f r = (refl, r, refl)
run_from ((tag, now) ∷ es) last s log (h, f) r =
    let (answer, r', w) = check_and_insert-check_log tag last now s log h r in
    let (answers, r'', w'') =
      run_from es now (check_and_insert tag now s).1 (check_log s.window_ms tag now log).1 f r' in
    (
      ap₂ (λ a as'. a ∷ as') answer answers
          ∙ ap
              (λ w'.
                (check_log s.window_ms tag now log).0
                ∷ (run_log w' es (check_log s.window_ms tag now log).1).0)
              w,
      rw w at r'',
      w'' ∙ w,
    )

-- A fresh cache gives every request of a run whose times do not go back the answer that a log of
-- all accepted tags gives, and holds at the end just the accepted tags of the last window.
pub run-run_log :
    (window : ℕ) (es : List (List ℕ × ℕ))
    → IsForward 0 es
    → ((run es (new window)).0 ≡ (run_log window es []).0)
      × ((run es (new window)).1.entries
          ≡ retain (last_time 0 es - window) (run_log window es []).1)
unfolding new retain
run-run_log window es f =
    let (answers, r, w) = run_from es 0 (new window) [] f refl in (answers, rw w at r)
