-- ===== src/Core/Handshake/ReplayWindow.antt =====
-- How long the server refuses a payload that it has accepted. The timestamp check admits a payload
-- for `window + skew` milliseconds; the strike cache remembers it for `window`.
use ort.Prelude.{
  ℕ, ◌+◌, ◌≤◌, ◌<◌, ◌≡◌, ◌≢◌, refl, ap, ◌∙◌, List, [], ◌∷◌, ok, err, All, All-imp, IsU64, arith,
}
use ort.Core.Error.{CoreResult}
use ort.Core.Suite.Cipher.{CipherSuite, Blake3}
use ort.Core.Time.{check_window_iff}
use ort.Core.Replay.{StrikeCache, replay_tag, check_and_insert}
use ort.Core.Replay.Strikes.{
  Remembers, check_and_insert-Remembers, check_and_insert_remembered, window-check_and_insert,
  accepted-Remembers, check_and_insert_again,
}
use ort.Core.Handshake.Handler.{◌>>◌, lift}
use ort.Core.Handshake.Server.{
  ServerConfig, ServerEstablished, process_payload, check_ip, establish,
}
use ort.Core.Handshake.Checks.{
  IsAccepted, process_payload-IsAccepted, IsAccepted-process_payload, strike_check, window_check,
  signature_check,
}
use ort.Proto.Messages.Payload.{KemPayload}

-- A payload as it reaches the server: the client's key, the payload, the observed address, the time.
pub record Request : Type 0 where
  pub client_pk : List ℕ
  pub payload : KemPayload
  pub peer_ip : List ℕ
  pub now : ℕ

-- A chain of checks leaves the cache as it was, or as its one step on the cache leaves it.
last_strike :
    {A : Type 0} (P : StrikeCache → Type 0) (r : CoreResult (Unit {0}) × StrikeCache)
    (f : CoreResult A) (s : StrikeCache)
    → P r.1
    → P (((λ _. r) >> lift f) s).1
last_strike P (ok _, s') f s k = k
last_strike P (err x, s') f s k = k

chain_strike :
    {A : Type 0} (P : StrikeCache → Type 0) (a b d : CoreResult (Unit {0}))
    (e : StrikeCache → CoreResult (Unit {0}) × StrikeCache) (f : CoreResult A) (s : StrikeCache)
    → P s
    → P (e s).1
    → P ((lift a >> (lift b >> (lift d >> (e >> lift f)))) s).1
chain_strike P (err x) b d e f s h k = h
chain_strike P (ok _) (err x) d e f s h k = h
chain_strike P (ok _) (ok _) (err x) e f s h k = h
chain_strike P (ok _) (ok _) (ok _) e f s h k = last_strike P (e s) f s k

module _ (S : CipherSuite) (B : Blake3) (cfg : ServerConfig S) where
  -- The cache after a request, whatever its outcome.
  unfoldable pub after : Request → StrikeCache → StrikeCache
  after q s = (process_payload S B cfg q.client_pk q.payload q.peer_ip q.now s).1

  unfoldable pub after_all : List Request → StrikeCache → StrikeCache
  unfolding after
  after_all [] s = s
  after_all (q ∷ qs) s = after_all qs (after q s)

  pub after-Remembers :
      (tag : List ℕ) (at : ℕ) (q : Request) (s : StrikeCache)
      → q.now ≤ at + s.window_ms
      → Remembers tag at s
      → Remembers tag at (after q s) × ((after q s).window_ms ≡ s.window_ms)
  unfolding after process_payload
  after-Remembers tag at q s h r =
      chain_strike (λ s'. Remembers tag at s' × (s'.window_ms ≡ s.window_ms))
        (check_ip q.payload.src_ip q.peer_ip)
        (window_check S B cfg q.client_pk q.payload q.peer_ip q.now)
        (signature_check S B cfg q.client_pk q.payload q.peer_ip q.now)
        (strike_check S B cfg q.client_pk q.payload q.peer_ip q.now) (establish S B cfg q.payload) s
        (r, refl)
        (check_and_insert-Remembers tag at _ q.now s h r, window-check_and_insert _ q.now s)

  pub window-after : (q : Request) (s : StrikeCache) → (after q s).window_ms ≡ s.window_ms
  unfolding after process_payload
  window-after q s =
      chain_strike (λ s'. s'.window_ms ≡ s.window_ms) (check_ip q.payload.src_ip q.peer_ip)
        (window_check S B cfg q.client_pk q.payload q.peer_ip q.now)
        (signature_check S B cfg q.client_pk q.payload q.peer_ip q.now)
        (strike_check S B cfg q.client_pk q.payload q.peer_ip q.now) (establish S B cfg q.payload) s
        refl (window-check_and_insert _ q.now s)

  after_all-Remembers :
      (tag : List ℕ) (at : ℕ) (qs : List Request) (s : StrikeCache)
      → All (λ q. q.now ≤ at + s.window_ms) qs
      → Remembers tag at s
      → Remembers tag at (after_all qs s) × ((after_all qs s).window_ms ≡ s.window_ms)
  unfolding after_all
  after_all-Remembers tag at [] s h r = (r, refl)
  after_all-Remembers tag at (q ∷ qs) s (h, hs) r =
      let (r1, w1) = after-Remembers tag at q s h r in
      let (r2, w2) = after_all-Remembers tag at qs (after q s) (rw w1 hs) r1 in (r2, w2 ∙ w1)

  module _ (client_pk : List ℕ) (p : KemPayload) (ts_word : IsU64 p.ts_millis)
      (strike : StrikeCache) (window : strike.window_ms ≡ cfg.window_ms) (peer_ip : List ℕ)
      (now : ℕ) (server : ServerEstablished S B)
      (accepted : (process_payload S B cfg client_pk p peer_ip now strike).0 ≡ ok server) where
    abbrev tag : List ℕ
    tag = replay_tag S p.nonce p.enc_data

    -- The cache after the acceptance.
    abbrev strike1 : StrikeCache
    strike1 = (process_payload S B cfg client_pk p peer_ip now strike).1

    was-IsAccepted : IsAccepted S B cfg client_pk p peer_ip now strike server
    was-IsAccepted =
        process_payload-IsAccepted S B cfg client_pk p peer_ip now strike server accepted

    strike1-check_and_insert : strike1 ≡ (check_and_insert tag now strike).1
    strike1-check_and_insert =
        ap (λ x. x.1)
          (IsAccepted-process_payload S B cfg client_pk p peer_ip now strike server was-IsAccepted)

    window-strike1 : strike1.window_ms ≡ cfg.window_ms
    window-strike1 =
        ap (λ (s : StrikeCache). s.window_ms) strike1-check_and_insert
        ∙ window-check_and_insert tag now strike
        ∙ window

    -- A payload that the server accepted at a time that its 64-bit timestamp was not ahead of is
    -- never accepted again, from whatever address and for whatever key it is sent and whatever
    -- requests came in between, while the clock does not go back. The strike cache has the window
    -- of the configuration.
    pub replay_rejected :
        p.ts_millis ≤ now
        → (qs : List Request) (client_pk' peer_ip' : List ℕ) (now' : ℕ)
          (server' : ServerEstablished S B)
        → All (λ q. q.now ≤ now') qs
        → (process_payload S B cfg client_pk' p peer_ip' now' (after_all qs strike1)).0 ≢ ok server'
    replay_rejected past qs client_pk' peer_ip' now' server' forward again =
        let twice =
          process_payload-IsAccepted S B cfg client_pk' p peer_ip' now' (after_all qs strike1)
            server' again in
        let late : now' ≤ p.ts_millis + cfg.window_ms =
          ((check_window_iff now' p.ts_millis cfg.window_ms cfg.skew_ms ts_word).0
            twice.in_window).1 in
        let (kept, w) =
          after_all-Remembers tag now qs strike1
            (All-imp _ qs (λ q h. omega (arith, window-strike1)) forward)
            (rw strike1-check_and_insert
              (accepted-Remembers tag now strike was-IsAccepted.unseen)) in
        let refused =
          check_and_insert_remembered tag now now' (after_all qs strike1)
            (omega (arith, window-strike1)) kept in
        cc (refused, twice.unseen)

    -- A payload whose timestamp was ahead of the server's clock when it was accepted is accepted a
    -- second time, if it is sent again after the strike cache's window and before the end of the
    -- timestamp's.
    pub replay_accepted :
        (now' : ℕ)
        → now + cfg.window_ms < now'
        → now' ≤ p.ts_millis + cfg.window_ms
        → (process_payload S B cfg client_pk p peer_ip now' strike1).0 ≡ ok server
    replay_accepted now' late early =
        let (ahead, _) =
          (check_window_iff now p.ts_millis cfg.window_ms cfg.skew_ms ts_word).0
            was-IsAccepted.in_window in
        ap (λ x. x.0)
          (IsAccepted-process_payload S B cfg client_pk p peer_ip now' strike1 server (record {
            same_ip = was-IsAccepted.same_ip;
            in_window =
                (check_window_iff now' p.ts_millis cfg.window_ms cfg.skew_ms ts_word).1
                  (omega arith, early);
            signed = was-IsAccepted.signed;
            unseen = rw strike1-check_and_insert (
                check_and_insert_again tag now now' strike was-IsAccepted.unseen
                  (omega (arith, window)));
            opens = was-IsAccepted.opens;
          }))
