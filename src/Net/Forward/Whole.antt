-- ===== src/Net/Forward/Whole.antt =====
-- All of `forward` of crates/ort-net/src/forward.rs, with both pumps under `try_join!`, and the tasks
-- of crates/ort-net/src/run.rs that shake hands and then forward. The turns of the two pumps, round
-- by round, are an argument.
pub mod Stays
use ort.Prelude.{ℕ, List, [], Bool, Option, none, some, ok, err, map_err}
use ort.Core.Suite.Cipher.{CipherSuite, Blake3}
use ort.Core.Replay.{StrikeCache}
use ort.Core.Handshake.Client.{ClientConfig}
use ort.Core.Handshake.Server.{ServerConfig}
use ort.Net.Error.{OrtResult, io}
use ort.Net.Stream.{Stream}
use ort.Net.Cert.{X509, ServerVerifier}
use ort.Net.Session.{
  Socket, OrtConn, ClientOutcome, ServerOutcome, send_dir, client_open, server_accept,
}
use ort.Net.Forward.{flush_early}
use ort.Net.Forward.Turns.{Phase, awaiting, running, Joint, Turn, turns, answer}

-- The pump from the tunnel first awaits the acknowledgement, if there is to be one.
abbrev pub first_phase : Option (List ℕ) → Phase
first_phase none = running
first_phase (some expected) = awaiting expected

module _ (S : CipherSuite) (B : Blake3) (I : Stream) where
  -- What is seen of a task: its answer, none while it runs, and what it wrote to its plain side and
  -- to the tunnel.
  pub record Forwarded : Type 0 where
    pub answered : Option (OrtResult (Unit {0}))
    pub plain : I.Writer
    pub tunnel : I.Writer

  abbrev pub joint : OrtConn S B I → Option (List ℕ) → I.Reader → I.Writer → Joint S B I
  joint conn expect_ack pr pw = record {
    pr = pr;
    pw = pw;
    reader = conn.reader;
    writer = conn.writer;
    layer = conn.record_layer;
    up = running;
    down = first_phase expect_ack;
  }

  abbrev pub seen : Joint S B I → Forwarded
  seen t = record { answered = answer t.up t.down; plain = t.pw; tunnel = t.writer }

  module _ (ts : List Turn) where
    -- After the early data was written.
    unfoldable pub joined :
        OrtResult (Unit {0}) → I.Reader → I.Writer → OrtConn S B I → Option (List ℕ) → Forwarded
    joined (err e) pr pw conn expect_ack = record {
      answered = some (err e);
      plain = pw;
      tunnel = conn.writer;
    }
    joined (ok _) pr pw conn expect_ack =
        seen (turns S B I (send_dir conn.role) ts (joint conn expect_ack pr pw))

    unfoldable pub forward :
        I.Reader → I.Writer → OrtConn S B I → Option (List ℕ) → List ℕ → Forwarded
    unfolding joined
    forward pr pw conn expect_ack early_to_plain =
        let (flushed, pw') = flush_early S B I early_to_plain pw in
        joined (map_err io flushed) pr pw' conn expect_ack

    client_opened : OrtResult (ClientOutcome S B I) → Socket I → I.Reader → I.Writer → Forwarded
    client_opened (err e) s pr pw = record {
      answered = some (err e);
      plain = pw;
      tunnel = s.writer;
    }
    client_opened (ok outcome) s pr pw = forward pr pw outcome.conn outcome.expect_ack []

    server_accepted : OrtResult (ServerOutcome S B I) → Socket I → I.Reader → I.Writer → Forwarded
    server_accepted (err e) s pr pw = record {
      answered = some (err e);
      plain = pw;
      tunnel = s.writer;
    }
    server_accepted (ok outcome) s pr pw = forward pr pw outcome.conn none outcome.early_data

    -- A task of `run_client` whose connection to the server was made; the task sends no early data,
    -- and here it may be any. The pin is that of Net/Run.
    unfoldable pub client_session :
        (X : X509)
        → ClientConfig S
        → (src_ip : List ℕ) (verifier : ServerVerifier) (cert_now now : ℕ)
          (r nonce early_data : List ℕ) (cached : Option (List ℕ)) (force_1rtt : Bool)
        → Socket I
        → I.Reader
        → I.Writer
        → Forwarded
    unfolding client_opened
    client_session X ccfg src_ip verifier cert_now now r nonce early_data cached force_1rtt socket
          pr pw =
        let (opened, s) =
          client_open S B I X ccfg src_ip verifier cert_now now r nonce early_data cached force_1rtt
            socket in
        client_opened opened s pr pw

    -- A task of `run_server` whose connection to the target was made.
    unfoldable pub server_session :
        (scfg : ServerConfig S) (peer_ip : List ℕ) (now1 now2 : ℕ)
        → (StrikeCache → StrikeCache)
        → StrikeCache
        → Socket I
        → I.Reader
        → I.Writer
        → Forwarded
    unfolding server_accepted
    server_session scfg peer_ip now1 now2 strike_others strike socket pr pw =
        let (accepted, (s, _)) =
          server_accept S B I scfg peer_ip now1 now2 strike_others (socket, strike) in
        server_accepted accepted s pr pw
