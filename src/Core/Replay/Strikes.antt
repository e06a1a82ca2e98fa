-- ===== src/Core/Replay/Strikes.antt =====
-- How long the cache remembers a tag: exactly the window.
use ort.Prelude.{
  ℕ, ◌+◌, ◌-◌, ◌≤◌, ◌<◌, ◌≡◌, ◌≢◌, refl, ◌∙◌, List, [], ◌∷◌, true, false, ok, err, bytes_eq,
  bytes_eq_refl, bytes_eq_iff, inl, inr, Bool-cases, All, arith, Option, none, some, if◌then◌else◌,
}
use ort.Core.Error.{replayed}
use ort.Core.Replay.{
  Entries, contains_key, retain, remove, insert, StrikeCache, check_and_insert, run,
}

-- When the map has the tag, from its first entry.
unfoldable pub seen_at : List ℕ → Entries → Option ℕ
seen_at tag [] = none
seen_at tag ((t, at) ∷ m) = if bytes_eq t tag then some at else seen_at tag m

contains_key-seen_at :
    (tag : List ℕ) (at : ℕ) (m : Entries) → seen_at tag m ≡ some at → contains_key tag m ≡ true
unfolding contains_key seen_at
contains_key-seen_at tag at [] h = cc
contains_key-seen_at tag at ((t, a) ∷ m) h = ground (arith, contains_key-seen_at tag at m)

seen_at-retain :
    (tag : List ℕ) (at cutoff : ℕ) (m : Entries)
    → cutoff ≤ at
    → seen_at tag m ≡ some at
    → seen_at tag (retain cutoff m) ≡ some at
unfolding seen_at retain
seen_at-retain tag at cutoff [] c h = h
seen_at-retain tag at cutoff ((t, a) ∷ m) c h = ground (arith, seen_at-retain tag at cutoff m c)

seen_at-remove :
    (tag other : List ℕ) (m : Entries) → other ≢ tag → seen_at tag (remove other m) ≡ seen_at tag m
unfolding seen_at remove
seen_at-remove tag other [] ne = refl
seen_at-remove tag other ((t, a) ∷ m) ne =
    ground (arith, seen_at-remove tag other m ne, bytes_eq_iff t tag, bytes_eq_iff t other)

-- The cache would refuse `tag`, which it saw at `at`, until `at + window`.
abbrev pub Remembers : List ℕ → ℕ → StrikeCache → Type 0
Remembers tag at s = seen_at tag s.entries ≡ some at

pub check_and_insert-Remembers :
    (tag : List ℕ) (at : ℕ) (other : List ℕ) (now : ℕ) (s : StrikeCache)
    → now ≤ at + s.window_ms
    → Remembers tag at s
    → Remembers tag at (check_and_insert other now s).1
unfolding check_and_insert insert seen_at
check_and_insert-Remembers tag at other now s h r =
    let kept = seen_at-retain tag at (now - s.window_ms) s.entries (omega arith) r in
    elim (Bool-cases (contains_key other (retain (now - s.window_ms) s.entries))) [
      | inl old ↦ rw old kept
      | inr new ↦ elim (Bool-cases (bytes_eq other tag)) [
        | inl same ↦ cc (new, contains_key-seen_at tag at _ kept, (bytes_eq_iff other tag).0 same)
        | inr differ ↦
            rw (new, differ)
              (seen_at-remove tag other _ (λ e. cc (differ, (bytes_eq_iff other tag).1 e)) ∙ kept)
      ]
    ]

-- A remembered tag is refused up to and including the end of its window.
pub check_and_insert_remembered :
    (tag : List ℕ) (at now : ℕ) (s : StrikeCache)
    → now ≤ at + s.window_ms
    → Remembers tag at s
    → (check_and_insert tag now s).0 ≡ err replayed
unfolding check_and_insert
check_and_insert_remembered tag at now s h r = rw (
    contains_key-seen_at tag at _
      (seen_at-retain tag at (now - s.window_ms) s.entries (omega arith) r))

pub window-check_and_insert :
    (tag : List ℕ) (now : ℕ) (s : StrikeCache)
    → (check_and_insert tag now s).1.window_ms ≡ s.window_ms
unfolding check_and_insert
window-check_and_insert tag now s = ground arith

-- An accepted tag is remembered with its time.
pub accepted-Remembers :
    (tag : List ℕ) (now : ℕ) (s : StrikeCache)
    → (check_and_insert tag now s).0 ≡ ok tt
    → Remembers tag now (check_and_insert tag now s).1
unfolding check_and_insert insert seen_at
accepted-Remembers tag now s h =
    elim (Bool-cases (contains_key tag (retain (now - s.window_ms) s.entries))) [
      | inl old ↦ let e = rw old at h in cc
      | inr new ↦ rw (new, bytes_eq_refl tag)
    ]

run-Remembers :
    (es : List (List ℕ × ℕ)) (tag : List ℕ) (at : ℕ) (s : StrikeCache)
    → All (λ e. e.1 ≤ at + s.window_ms) es
    → Remembers tag at s
    → Remembers tag at (run es s).1 × ((run es s).1.window_ms ≡ s.window_ms)
unfolding run
run-Remembers [] tag at s h r = (r, refl)
run-Remembers ((other, now) ∷ es) tag at s (h, hs) r =
    let s' = (check_and_insert other now s).1 in
    let w = window-check_and_insert other now s in
    let (r', w') =
      run-Remembers es tag at s' (rw w hs) (check_and_insert-Remembers tag at other now s h r) in
    (r', w' ∙ w)

-- Once a tag was accepted it is refused for the whole window, its last millisecond included,
-- whatever other requests came in between and in whatever order their times were, if none was later
-- than the window's end.
replay-refused :
    (tag : List ℕ) (at now : ℕ) (es : List (List ℕ × ℕ)) (s : StrikeCache)
    → (check_and_insert tag at s).0 ≡ ok tt
    → All (λ e. e.1 ≤ at + s.window_ms) es
    → now ≤ at + s.window_ms
    → (check_and_insert tag now (run es (check_and_insert tag at s).1).1).0 ≡ err replayed
replay-refused tag at now es s accepted between h =
    let w = window-check_and_insert tag at s in
    let (r, w') =
      run-Remembers es tag at (check_and_insert tag at s).1 (rw w between)
        (accepted-Remembers tag at s accepted) in
    check_and_insert_remembered tag at now _ (rw (w', w) h) r

contains_key-remove : (tag : List ℕ) (m : Entries) → contains_key tag (remove tag m) ≡ false
unfolding contains_key remove
contains_key-remove tag [] = refl
contains_key-remove tag ((t, at) ∷ m) = ground (arith, contains_key-remove tag m)

contains_key-retain_absent :
    (tag : List ℕ) (cutoff : ℕ) (m : Entries)
    → contains_key tag m ≡ false
    → contains_key tag (retain cutoff m) ≡ false
unfolding contains_key retain
contains_key-retain_absent tag cutoff [] h = h
contains_key-retain_absent tag cutoff ((t, at) ∷ m) h =
    ground (arith, contains_key-retain_absent tag cutoff m)

insert_forgotten :
    (tag : List ℕ) (at cutoff : ℕ) (m : Entries)
    → at < cutoff
    → contains_key tag (retain cutoff (insert tag at m)) ≡ false
unfolding insert retain
insert_forgotten tag at cutoff m h =
    ground (arith, contains_key-retain_absent tag cutoff (remove tag m) (contains_key-remove tag m))

-- Past the window an accepted tag is accepted again.
pub check_and_insert_again :
    (tag : List ℕ) (now1 now2 : ℕ) (s : StrikeCache)
    → (check_and_insert tag now1 s).0 ≡ ok tt
    → now1 + s.window_ms < now2
    → (check_and_insert tag now2 (check_and_insert tag now1 s).1).0 ≡ ok tt
unfolding check_and_insert
check_and_insert_again tag now1 now2 s h late =
    let kept = retain (now1 - s.window_ms) s.entries in
    let is : (check_and_insert tag now1 s).1
        ≡ record { window_ms = s.window_ms; entries = insert tag now1 kept; last_evict = now1 } =
      ground arith in
    rw (is, insert_forgotten tag now1 (now2 - s.window_ms) kept (omega arith))
