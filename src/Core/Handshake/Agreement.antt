-- ===== src/Core/Handshake/Agreement.antt =====
-- An honest client and the server agree: the server accepts what the client built, reads its early
-- data, and both hold the same record layer.
use ort.Prelude.{ℕ, ◌≡◌, refl, sym, ap, List, ok, and_then-eq-ok}
use mathlib.Core.Path.{subst}
use ort.Core.Suite.Ids.{SuiteId, code, from_code-code}
use ort.Core.Suite.Cipher.{CipherSuite, Blake3, IsCorrect}
use ort.Core.Time.{check_window_iff}
use ort.Core.Replay.{StrikeCache, replay_tag, check_and_insert}
use ort.Core.Pool.{Direction, client_to_server, server_to_client, dir_pool}
use ort.Core.Record.Tunnel.{Event, start, run}
use ort.Core.Record.Tunnel.Fifo.{IsFifo, run-IsFifo}
use ort.Core.Kdf.{derive_session_keys}
use ort.Core.Record
use ort.Core.Record.{RecordLayer, open_record, seal, enc_key_hash}
use ort.Core.Record.Peers.{InStep, open-seal_same}
use ort.Core.Record.OneDirection.{seal-seal_dir}
use ort.Core.ConnMeta.Binding.{verify-sign}
use ort.Core.Handshake.Checks.{IsAccepted, IsAccepted-process_payload}
use ort.Core.Handshake.Client.{
  ClientConfig, ClientEstablished, built, build_payload, client_zero_rtt, client_one_rtt_finish,
  client_one_rtt_hello,
}
use ort.Core.Handshake.Server.{
  ServerConfig, ServerEstablished, zero_rtt, one_rtt, check_suite, establish, process_payload,
  server_on_first, server_on_client_data, server_hello,
}
use ort.Proto.Messages.Payload.{KemPayload}
use ort.Proto.Messages.Frames.{Frame, client_hello_zero_rtt, client_data, server_ack}
use ort.Core.Handshake.Honest.{IsHonest, IsFresh, Agrees}

check_suite-code : (s : SuiteId) → check_suite (code s) ≡ ok tt
unfolding check_suite
check_suite-code s = rw ((from_code-code (code s) s).1 refl)

module _ (S : CipherSuite) (B : Blake3) (ccfg : ClientConfig S) (scfg : ServerConfig S) where
  -- The server answers the bare hello of its suite with its key, and no check is made.
  pub server_on_first-hello :
      (peer_ip : List ℕ) (now : ℕ) (strike : StrikeCache)
      → server_on_first S B scfg (client_one_rtt_hello S ccfg) peer_ip now strike
        ≡ (ok (one_rtt (server_hello S scfg now)), strike)
  unfolding server_on_first client_one_rtt_hello
  server_on_first-hello peer_ip now strike = rw (check_suite-code S.id)

module _ (S : CipherSuite) (B : Blake3) where
  -- Peers that agree are in step in both directions.
  Agrees-InStep :
      {early_data : List ℕ} (d : Direction) {client : ClientEstablished S B}
      {server : ServerEstablished S B}
      → Agrees S B early_data client server
      → InStep S B d client.record_layer server.record_layer
        × InStep S B d server.record_layer client.record_layer
  Agrees-InStep d h =
      let key = ap (λ (l : RecordLayer S B). l.keys.enc_key) h.same_layer in
      let pool = ap (λ (l : RecordLayer S B). dir_pool B d l.pool) h.same_layer in
      (record { key = sym key; pool = sym pool }, record { key = key; pool = pool })

  module _ (c : IsCorrect S) (ccfg : ClientConfig S) (scfg : ServerConfig S) (ts now : ℕ)
      (honest : IsHonest S B ccfg scfg ts now) (src_ip r nonce early_data : List ℕ) where
    establish-built :
        (ct shared : List ℕ)
        → S.kem_encapsulate scfg.server_pk r ≡ ok (ct, shared)
        → (let (payload, client) = built S B ccfg src_ip ts nonce early_data ct shared in
            (server : ServerEstablished S B) × (establish S B scfg payload ≡ ok server)
            × Agrees S B early_data client server)
    unfolding built establish
    establish-built ct shared e =
        let layer = Record.new S B (derive_session_keys S shared ct) nonce in
        let layer' = (seal S B client_to_server early_data layer).1 in
        let decapsulates : S.kem_decapsulate scfg.kem_secret ct ≡ ok shared =
          c.kem_correct scfg.kem_secret r ct shared
            (subst (λ pk. S.kem_encapsulate pk r ≡ ok (ct, shared)) honest.server_key e) in
        let same_hash : enc_key_hash S B layer' ≡ enc_key_hash S B layer =
          unfold enc_key_hash in rw seal-seal_dir in
        (
          record { record_layer = layer'; early_data = early_data },
          rw (decapsulates, open-seal_same S B c client_to_server early_data layer),
          record { data_read = refl; same_layer = refl; same_hash = same_hash },
        )

    -- The server accepts the payload that the client built, unless its tag was struck.
    process_payload-built :
        (ct shared : List ℕ) (strike : StrikeCache)
        → S.kem_encapsulate scfg.server_pk r ≡ ok (ct, shared)
        → (let (payload, client) = built S B ccfg src_ip ts nonce early_data ct shared in
            let (struck, strike') =
              check_and_insert (replay_tag S payload.nonce payload.enc_data) now strike in
            struck ≡ ok tt
            → (server : ServerEstablished S B) × (process_payload S B scfg ccfg.client_pk payload
                  src_ip now strike
                ≡ (ok server, strike'))
              × Agrees S B early_data client server)
    process_payload-built ct shared strike e fresh =
        let (payload, client) = built S B ccfg src_ip ts nonce early_data ct shared in
        let (server, established, agrees) = establish-built ct shared e in
        let accepted : IsAccepted S B scfg ccfg.client_pk payload src_ip now strike server =
          record {
            same_ip = unfold built in refl;
            in_window =
                unfold built in
                (check_window_iff now ts _ _ honest.ts_word).1
                  (honest.not_ahead, honest.not_behind);
            signed =
                unfold built in
                verify-sign S c ccfg.sig_secret ccfg.client_pk _ ct _ honest.client_key;
            unseen = fresh;
            opens = established;
          } in
        (
          server,
          IsAccepted-process_payload S B scfg ccfg.client_pk payload src_ip now strike server
              accepted,
          agrees,
        )

    -- The same for a payload that `build_payload` returned.
    build_payload-accepted :
        (strike : StrikeCache) (payload : KemPayload) (client : ClientEstablished S B)
        → build_payload S B ccfg scfg.server_pk src_ip ts r nonce early_data ≡ ok (payload, client)
        → (check_and_insert (replay_tag S payload.nonce payload.enc_data) now strike).0 ≡ ok tt
        → (server : ServerEstablished S B) × ((process_payload S B scfg ccfg.client_pk payload
              src_ip now strike).0
            ≡ ok server)
          × Agrees S B early_data client server
    unfolding build_payload
    build_payload-accepted strike payload client e fresh =
        let ((ct, shared), encapsulated, same) =
          and_then-eq-ok (S.kem_encapsulate scfg.server_pk r) _ e in
        let is : built S B ccfg src_ip ts nonce early_data ct shared ≡ (payload, client) =
          cc same in
        let (server, processed, agrees) = process_payload-built ct shared strike encapsulated (
          subst (λ x. (check_and_insert (replay_tag S x.0.nonce x.0.enc_data) now strike).0 ≡ ok tt)
            (sym is) fresh) in
        (
          server,
          subst (λ x. (process_payload S B scfg ccfg.client_pk x.0 src_ip now strike).0 ≡ ok server)
              is (ap (λ x. x.0) processed),
          subst (λ x. Agrees S B early_data x.1 server) is agrees,
        )

    -- 0-RTT: from the frame that an honest client sends, the server establishes the session that
    -- the client holds, reads the early data, and acknowledges with the hash that the client
    -- expects.
    pub zero_rtt_agreement :
        (strike : StrikeCache) (frame : Frame) (client : ClientEstablished S B)
        → client_zero_rtt S B ccfg scfg.server_pk src_ip ts r nonce early_data ≡ ok (frame, client)
        → IsFresh S frame now strike
        → (server : ServerEstablished S B) × ((server_on_first S B scfg frame src_ip now strike).0
            ≡ ok (zero_rtt (server_ack client.expected_ek_hash) server))
          × Agrees S B early_data client server
    unfolding client_zero_rtt server_on_first
    zero_rtt_agreement strike frame client e fresh =
        let ((payload, client'), is_built, same) =
          and_then-eq-ok (build_payload S B ccfg scfg.server_pk src_ip ts r nonce early_data) _ e in
        let is : ◌≡◌ {A = Frame × ClientEstablished S B}
            (client_hello_zero_rtt (code S.id) ccfg.client_pk payload, client') (frame, client) =
          cc same in
        let (server, processed, agrees) =
          build_payload-accepted strike payload client' is_built
            (subst (λ x. IsFresh S x.0 now strike) (sym is) fresh) in
        (
          server,
          subst
              (λ x.
                (server_on_first S B scfg x.0 src_ip now strike).0
                ≡ ok (zero_rtt (server_ack x.1.expected_ek_hash) server))
              is
              (rw (check_suite-code S.id, processed)
                (ap (λ h. ok (zero_rtt (server_ack h) server)) agrees.same_hash)),
          subst (λ x. Agrees S B early_data x.1 server) is agrees,
        )

    -- 1-RTT between honest ends, with the client's data inside the timestamp window and its tag not
    -- in the strike cache, where the server sees the client at the address that the client signs,
    -- with no translation of addresses between them: the server answers the bare hello with its key
    -- and leaves the cache alone, and from the client's second flight it reads the early data and
    -- establishes the record layer that the client holds. The suite is correct.
    pub one_rtt_agreement :
        (strike : StrikeCache) (frame : Frame) (client : ClientEstablished S B)
        → client_one_rtt_finish S B ccfg scfg.server_pk src_ip ts r nonce early_data
          ≡ ok (frame, client)
        → IsFresh S frame now strike
        → (server_on_first S B scfg (client_one_rtt_hello S ccfg) src_ip now strike ≡ (
          ok (one_rtt (Frame.server_hello (code S.id) scfg.server_pk scfg.certificate now)),
          strike,
        ))
          × (server : ServerEstablished S B) × ((server_on_client_data S B scfg frame src_ip now
                strike).0
              ≡ ok server)
          × Agrees S B early_data client server
    unfolding client_one_rtt_finish server_on_client_data server_hello
    one_rtt_agreement strike frame client e fresh =
        let ((payload, client'), is_built, same) =
          and_then-eq-ok (build_payload S B ccfg scfg.server_pk src_ip ts r nonce early_data) _ e in
        let is : ◌≡◌ {A = Frame × ClientEstablished S B}
            (client_data ccfg.client_pk payload, client') (frame, client) =
          cc same in
        let (server, processed, agrees) =
          build_payload-accepted strike payload client' is_built
            (subst (λ x. IsFresh S x.0 now strike) (sym is) fresh) in
        (
          server_on_first-hello S B ccfg scfg src_ip now strike,
          server,
          subst (λ x. (server_on_client_data S B scfg x.0 src_ip now strike).0 ≡ ok server) is
              processed,
          subst (λ x. Agrees S B early_data x.1 server) is agrees,
        )

    -- An honest client's 0-RTT frame reaches the server inside the timestamp window, its tag is not
    -- in the strike cache, and the server sees the client at the address that the client signs,
    -- with no translation of addresses between them: then the server acknowledges with the hash
    -- that the client expects and reads the early data, and whatever the peers send afterwards in
    -- either direction, and however sealing and opening interleave, each direction is a
    -- first-in-first-out stream. The suite is correct.
    pub zero_rtt_session :
        (strike : StrikeCache) (frame : Frame) (client : ClientEstablished S B) (es : List Event)
        → client_zero_rtt S B ccfg scfg.server_pk src_ip ts r nonce early_data ≡ ok (frame, client)
        → IsFresh S frame now strike
        → (server : ServerEstablished S B) × ((server_on_first S B scfg frame src_ip now strike).0
            ≡ ok (zero_rtt (server_ack client.expected_ek_hash) server))
          × (server.early_data ≡ early_data)
          × IsFifo (run S B (start S B client.record_layer server.record_layer) es).c2s
          × IsFifo (run S B (start S B client.record_layer server.record_layer) es).s2c
    zero_rtt_session strike frame client es e fresh =
        let (server, accepted, agrees) = zero_rtt_agreement strike frame client e fresh in
        let (up, down) =
          run-IsFifo S B c client.record_layer server.record_layer es
            (Agrees-InStep client_to_server agrees).0 (Agrees-InStep server_to_client agrees).1 in
        (server, accepted, agrees.data_read, up, down)
