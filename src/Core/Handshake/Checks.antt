-- ===== src/Core/Handshake/Checks.antt =====
-- The server's checks: a payload is accepted exactly if each passes.
use ort.Prelude.{ℕ, ◌≡◌, List, ok, bytes_eq_refl, bytes_eq→eq, arith}
use ort.Core.Error.{CoreResult}
use ort.Core.Suite.Cipher.{CipherSuite, Blake3}
use ort.Core.Time.{check_window}
use ort.Core.ConnMeta.{verify_client_binding}
use ort.Core.Replay.{StrikeCache, replay_tag, check_and_insert}
use ort.Core.Handshake.Handler.{◌>>◌, lift}
use ort.Core.Handshake.Server.{
  ServerConfig, ServerEstablished, check_ip, establish, process_payload, conn_meta,
}
use ort.Proto.Messages.Payload.{KemPayload}

pub check_ip-same : (src_ip peer_ip : List ℕ) → src_ip ≡ peer_ip → check_ip src_ip peer_ip ≡ ok tt
unfolding check_ip
check_ip-same src_ip peer_ip e = rw (e, bytes_eq_refl peer_ip)

same-check_ip : (src_ip peer_ip : List ℕ) → check_ip src_ip peer_ip ≡ ok tt → src_ip ≡ peer_ip
unfolding check_ip
same-check_ip src_ip peer_ip h = ground (arith, bytes_eq→eq src_ip peer_ip)

-- Five results in a row, the fourth beside a new cache: success means that each succeeded.
all_ok :
    {A : Type 0} (a b d : CoreResult (Unit {0}))
    (e : StrikeCache → CoreResult (Unit {0}) × StrikeCache) (f : CoreResult A) (s : StrikeCache)
    {x : A}
    → ((lift a >> (lift b >> (lift d >> (e >> lift f)))) s).0 ≡ ok x
    → (a ≡ ok tt) × (b ≡ ok tt) × (d ≡ ok tt) × ((e s).0 ≡ ok tt) × (f ≡ ok x)
all_ok a b d e f s h = ground arith

module _ (S : CipherSuite) (B : Blake3) (cfg : ServerConfig S) (client_pk : List ℕ) (p : KemPayload)
    (peer_ip : List ℕ) (now : ℕ) where
  abbrev pub window_check : CoreResult (Unit {0})
  window_check = check_window now p.ts_millis cfg.window_ms cfg.skew_ms

  abbrev pub signature_check : CoreResult (Unit {0})
  signature_check =
      verify_client_binding S client_pk (conn_meta p) p.ciphertext p.enc_data p.client_sig

  abbrev pub strike_check : StrikeCache → CoreResult (Unit {0}) × StrikeCache
  strike_check = check_and_insert (replay_tag S p.nonce p.enc_data) now

  -- Every check passed, and the early data opened.
  pub record IsAccepted (strike : StrikeCache) (server : ServerEstablished S B) : Type 0 where
    pub same_ip : p.src_ip ≡ peer_ip
    pub in_window : window_check ≡ ok tt
    pub signed : signature_check ≡ ok tt
    pub unseen : (strike_check strike).0 ≡ ok tt
    pub opens : establish S B cfg p ≡ ok server

  pub IsAccepted-process_payload :
      (strike : StrikeCache) (server : ServerEstablished S B)
      → IsAccepted strike server
      → process_payload S B cfg client_pk p peer_ip now strike
        ≡ (ok server, (strike_check strike).1)
  unfolding process_payload
  IsAccepted-process_payload strike server h =
      rw (check_ip-same p.src_ip peer_ip h.same_ip, h.in_window, h.signed, h.unseen, h.opens)

  -- An accepted payload came from the address that it names, in the window of its timestamp, signed
  -- by the client's key, with a tag that the cache did not hold, and its early data opened.
  pub process_payload-IsAccepted :
      (strike : StrikeCache) (server : ServerEstablished S B)
      → (process_payload S B cfg client_pk p peer_ip now strike).0 ≡ ok server
      → IsAccepted strike server
  unfolding process_payload
  process_payload-IsAccepted strike server h =
      let (a, b, d, e, f) =
        all_ok (check_ip p.src_ip peer_ip) window_check signature_check strike_check
          (establish S B cfg p) strike h in
      record {
        same_ip = same-check_ip p.src_ip peer_ip a;
        in_window = b;
        signed = d;
        unseen = e;
        opens = f;
      }
