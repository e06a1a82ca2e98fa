-- ===== src/Core/Handshake/Honest.antt =====
-- Two honest ends of a handshake, and what they agree on.
use ort.Prelude.{ℕ, ◌+◌, ◌≤◌, ◌≡◌, List, [], ok, IsU64}
use ort.Core.Suite.Cipher.{CipherSuite, Blake3}
use ort.Core.Replay.{StrikeCache, replay_tag, check_and_insert}
use ort.Core.Record.{enc_key_hash}
use ort.Core.Handshake.Client.{ClientConfig, ClientEstablished}
use ort.Core.Handshake.Server.{ServerConfig, ServerEstablished}
use ort.Proto.Messages.Frames.{Frame, client_hello_zero_rtt, client_data}

-- The tag of a frame with a payload.
abbrev pub frame_tag : CipherSuite → Frame → List ℕ
frame_tag S (client_hello_zero_rtt suite_id client_pk p) = replay_tag S p.nonce p.enc_data
frame_tag S (client_data client_pk p) = replay_tag S p.nonce p.enc_data
frame_tag S _ = []

-- The cache does not hold the frame's tag.
abbrev pub IsFresh : CipherSuite → Frame → ℕ → StrikeCache → Type 0
IsFresh S frame now strike = (check_and_insert (frame_tag S frame) now strike).0 ≡ ok tt

module _ (S : CipherSuite) (B : Blake3) where
  -- What is established on both sides.
  pub record Agrees (early_data : List ℕ) (client : ClientEstablished S B)
      (server : ServerEstablished S B) : Type 0 where
    pub data_read : server.early_data ≡ early_data
    pub same_layer : server.record_layer ≡ client.record_layer
    pub same_hash : enc_key_hash S B server.record_layer ≡ client.expected_ek_hash

  -- The two ends of a connection, and a reading of each clock that is in the window.
  pub record IsHonest (ccfg : ClientConfig S) (scfg : ServerConfig S) (ts now : ℕ) : Type 0 where
    pub client_key : ccfg.client_pk ≡ S.sig_public ccfg.sig_secret
    pub server_key : scfg.server_pk ≡ S.kem_public scfg.kem_secret
    pub ts_word : IsU64 ts
    pub not_ahead : ts ≤ now + scfg.skew_ms
    pub not_behind : now ≤ ts + scfg.window_ms
