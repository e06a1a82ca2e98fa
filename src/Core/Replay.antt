-- ===== src/Core/Replay.antt =====
-- crates/ort-core/src/replay.rs: the strike cache. The `HashMap` is an association list with one
-- entry for a key; its order is never looked at.
pub mod Strikes
pub mod Log
use ort.Prelude.{
  ℕ, ◌-◌, List, [], ◌∷◌, ◌++◌, Bool, true, false, ◌||◌, ok, err, leb, ◌==◌, bytes_eq, if◌then◌else◌,
  length,
}
use ort.Core.Error.{Error, CoreResult, replayed}
use ort.Core.Suite.Cipher.{CipherSuite}

unfoldable pub replay_tag : (S : CipherSuite) → List ℕ → List ℕ → List ℕ
replay_tag S nonce enc_data = S.hash256 (nonce ++ enc_data)

-- The tags, and when each was seen.
abbrev pub Entries : Type 0
Entries = List (List ℕ × ℕ)

unfoldable pub contains_key : List ℕ → Entries → Bool
contains_key tag [] = false
contains_key tag ((t, at) ∷ m) = bytes_eq t tag || contains_key tag m

-- `HashMap::retain` with `seen >= cutoff`.
unfoldable pub retain : ℕ → Entries → Entries
retain cutoff [] = []
retain cutoff ((t, at) ∷ m) =
    let rest = retain cutoff m in if leb cutoff at then (t, at) ∷ rest else rest

remove : List ℕ → Entries → Entries
remove tag [] = []
remove tag ((t, at) ∷ m) =
    let rest = remove tag m in if bytes_eq t tag then rest else (t, at) ∷ rest

-- `HashMap::insert` replaces the entry of a key that is there.
unfoldable pub insert : List ℕ → ℕ → Entries → Entries
unfolding remove
insert tag at m = (tag, at) ∷ remove tag m

pub record StrikeCache : Type 0 where
  pub window_ms : ℕ
  pub entries : Entries
  pub last_evict : ℕ

unfoldable pub new : ℕ → StrikeCache
new window_ms = record { window_ms = window_ms; entries = []; last_evict = 0 }

-- `saturating_sub` is the subtraction of ℕ.
unfoldable pub evict : ℕ → StrikeCache → StrikeCache
evict now_ms s = record s { entries = retain (now_ms - s.window_ms) s.entries; last_evict = now_ms }

-- The cache comes back also beside an error: the eviction has happened.
unfoldable pub check_and_insert : List ℕ → ℕ → StrikeCache → CoreResult (Unit {0}) × StrikeCache
unfolding evict
check_and_insert tag now_ms s =
    let s' = evict now_ms s in
    if contains_key tag s'.entries
    then (err replayed, s')
    else (ok tt, record s' { entries = insert tag now_ms s'.entries })

unfoldable pub len : StrikeCache → ℕ
len s = length s.entries

unfoldable pub is_empty : StrikeCache → Bool
unfolding len
is_empty s = len s == 0

-- Requests one after the other: a tag and the time of its arrival.
unfoldable pub run : List (List ℕ × ℕ) → StrikeCache → List (CoreResult (Unit {0})) × StrikeCache
run [] s = ([], s)
run ((tag, now) ∷ es) s =
    let (r, s1) = check_and_insert tag now s in let (rs, s2) = run es s1 in (r ∷ rs, s2)
