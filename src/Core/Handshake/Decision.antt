-- ===== src/Core/Handshake/Decision.antt =====
-- The decision of `process_payload` of crates/ort-core/src/handshake/server.rs: which error each
-- payload is refused with, and what becomes of the strike cache.
use ort.Prelude.{
  ℕ, ◌+◌, ◌≤◌, ◌≡◌, ◌≢◌, true, false, ap, refl, List, ok, err, inl, inr, Result-cases, Bool-cases,
  bytes_eq, bytes_eq_refl, bytes_eq→eq, IsU64,
}
use ort.Core.Error.{Error, CoreResult, source_ip_mismatch, stale_timestamp, bad_signature, replayed}
use ort.Core.Suite.Cipher.{CipherSuite, Blake3}
use ort.Core.Time.{check_window, check_window_iff, check_window_cases}
use ort.Core.ConnMeta.{client_binding_msg, verify_client_binding}
use ort.Core.Replay.{StrikeCache, replay_tag, contains_key, evict, insert, check_and_insert}
use ort.Core.Handshake.Checks.{check_ip-same}
use ort.Core.Handshake.Server.{
  ServerConfig, ServerEstablished, check_ip, establish, process_payload, conn_meta,
}
use ort.Proto.Messages.Payload.{KemPayload}

module _ (S : CipherSuite) (B : Blake3) (cfg : ServerConfig S) (client_pk : List ℕ) (p : KemPayload)
    (peer_ip : List ℕ) (now : ℕ) where
  abbrev pub InWindow : Type 0
  InWindow = (p.ts_millis ≤ now + cfg.skew_ms) × (now ≤ p.ts_millis + cfg.window_ms)

  -- What the suite says of the client's signature.
  abbrev pub signature : CoreResult (Unit {0})
  signature =
      S.sig_verify client_pk (client_binding_msg S (conn_meta p) client_pk p.ciphertext p.enc_data)
        p.client_sig

  abbrev pub tag : List ℕ
  tag = replay_tag S p.nonce p.enc_data

  -- The answer to a payload and the cache behind it, by what holds of the payload.
  pub data Decision (strike : StrikeCache)
      : CoreResult (ServerEstablished S B) × StrikeCache → Type 0 where
    elsewhere : p.src_ip ≢ peer_ip → Decision strike (err source_ip_mismatch, strike)
    stale : p.src_ip ≡ peer_ip → ¬ InWindow → Decision strike (err stale_timestamp, strike)
    unsigned :
        (e : Error)
        → p.src_ip ≡ peer_ip
        → InWindow
        → signature ≡ err e
        → Decision strike (err bad_signature, strike)
    struck :
        p.src_ip ≡ peer_ip
        → InWindow
        → signature ≡ ok tt
        → contains_key tag (evict now strike).entries ≡ true
        → Decision strike (err replayed, evict now strike)
    -- nothing is left to refuse but what does not open
    fresh :
        p.src_ip ≡ peer_ip
        → InWindow
        → signature ≡ ok tt
        → contains_key tag (evict now strike).entries ≡ false
        → Decision strike (
          establish S B cfg p,
          record (evict now strike) { entries = insert tag now (evict now strike).entries },
        )

  verified : CoreResult (Unit {0})
  verified = verify_client_binding S client_pk (conn_meta p) p.ciphertext p.enc_data p.client_sig

  verified-signed : signature ≡ ok tt → verified ≡ ok tt
  unfolding verified verify_client_binding
  verified-signed e = rw e refl

  verified-refused : (x : Error) → signature ≡ err x → verified ≡ err bad_signature
  unfolding verified verify_client_binding
  verified-refused x e = rw e refl

  fresh-Decision :
      (strike : StrikeCache)
      → p.src_ip ≡ peer_ip
      → InWindow
      → check_window now p.ts_millis cfg.window_ms cfg.skew_ms ≡ ok tt
      → Decision strike (process_payload S B cfg client_pk p peer_ip now strike)
  unfolding process_payload check_and_insert verified
  fresh-Decision strike same timely e =
      let here = check_ip-same p.src_ip peer_ip same in
      elim (Result-cases signature) [
        | inr (x, refused) ↦
            rw (here, e, verified-refused x refused) (unsigned x same timely refused)
        | inl (_, signed) ↦ elim (Bool-cases (contains_key tag (evict now strike).entries)) [
          | inl old ↦ rw (here, e, verified-signed signed, old) (struck same timely signed old)
          | inr new ↦ rw (here, e, verified-signed signed, new) (fresh same timely signed new)
        ]
      ]

  -- The server's decision on every payload. Another address than the observed one is a mismatch, a
  -- timestamp outside the window stale, a signature that does not verify bad, and a tag that the
  -- cache still holds replayed, the first of these that applies, and otherwise the answer is what
  -- opening the early data gives. The cache stays as it is for the first three, and behind them it
  -- loses what is out of the window, and takes the tag unless it holds it.
  pub process_payload_decides :
      (strike : StrikeCache)
      → IsU64 p.ts_millis
      → Decision strike (process_payload S B cfg client_pk p peer_ip now strike)
  unfolding process_payload check_ip
  process_payload_decides strike word = elim (Bool-cases (bytes_eq p.src_ip peer_ip)) [
    | inr differs ↦
        rw differs
          (elsewhere (λ e. cc (differs, ap (λ x. bytes_eq x peer_ip) e, bytes_eq_refl peer_ip)))
    | inl equal ↦
        let same = bytes_eq→eq p.src_ip peer_ip equal in
        let window = check_window_iff now p.ts_millis cfg.window_ms cfg.skew_ms word in
        elim (Result-cases (check_window now p.ts_millis cfg.window_ms cfg.skew_ms)) [
          | inl (_, e) ↦ fresh-Decision strike same (window.0 e) e
          | inr (x, e) ↦
              let late : ¬ InWindow = λ w. cc (e, window.1 w) in
              rw
                (
                  check_ip-same p.src_ip peer_ip same,
                  check_window_cases now p.ts_millis cfg.window_ms cfg.skew_ms word late,
                )
                (stale same late)
        ]
  ]
