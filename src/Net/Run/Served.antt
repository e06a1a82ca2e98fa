-- ===== src/Net/Run/Served.antt =====
-- The server's tasks, `run_server` of crates/ort-net/src/run.rs with `server_accept` of session.rs,
-- which share the strike cache under a lock: what happens each time that a task holds the lock.
pub mod Keeps
pub mod Once
use ort.Prelude.{ℕ, ◌≡◌, ◌≤◌, List, [], ◌∷◌, ◌++◌, ok, err, IsU64}
use ort.Core.Error.{Error}
use ort.Core.Suite.Cipher.{CipherSuite, Blake3}
use ort.Core.Replay
use ort.Core.Replay.{StrikeCache}
use ort.Core.Handshake.Server.{
  ServerConfig, ServerEstablished, zero_rtt, one_rtt, server_on_first, server_on_client_data,
}
use ort.Proto.Messages.Payload.{KemPayload}
use ort.Proto.Messages.Frames.{Frame, client_hello_zero_rtt, client_data}

-- A payload that a session was established from, and when.
pub record Acceptance : Type 0 where
  pub payload : KemPayload
  pub at : ℕ

-- The shared cache, the clock, the addresses of the tasks that sent a hello and await the data, and
-- what was accepted, the newest first.
pub record Serving : Type 0 where
  pub strike : StrikeCache
  pub now : ℕ
  pub waiting : List (List ℕ)
  pub accepted : List Acceptance

module _ (S : CipherSuite) (B : Blake3) (cfg : ServerConfig S) where
  -- `StrikeCache::new(scfg.window_ms)`
  abbrev pub start : ℕ → Serving
  start now = record { strike = Replay.new cfg.window_ms; now = now; waiting = []; accepted = [] }

  -- What can happen next. A decoded timestamp is a 64-bit word.
  pub data Step : Serving → Serving → Type 0 where
    tick : (t : Serving) (later : ℕ) → t.now ≤ later → Step t (record t { now = later })
    -- the first frame of a connection establishes a session
    established :
        (t : Serving) (suite_id : ℕ) (client_pk : List ℕ) (payload : KemPayload) (peer_ip : List ℕ)
        (ack : Frame) (est : ServerEstablished S B) (strike : StrikeCache)
        → IsU64 payload.ts_millis
        → server_on_first S B cfg
            (client_hello_zero_rtt suite_id client_pk payload)
            peer_ip
            t.now
            t.strike
          ≡ (ok (zero_rtt ack est), strike)
        → Step t (record t {
          strike = strike;
          accepted = record { payload = payload; at = t.now } ∷ t.accepted;
        })
    -- the first frame asks for the server's key
    greeted :
        (t : Serving) (frame : Frame) (peer_ip : List ℕ) (hello : Frame) (strike : StrikeCache)
        → server_on_first S B cfg frame peer_ip t.now t.strike ≡ (ok (one_rtt hello), strike)
        → Step t (record t { strike = strike; waiting = peer_ip ∷ t.waiting })
    -- the first frame is refused
    refused :
        (t : Serving) (frame : Frame) (peer_ip : List ℕ) (e : Error) (strike : StrikeCache)
        → server_on_first S B cfg frame peer_ip t.now t.strike ≡ (err e, strike)
        → Step t (record t { strike = strike })
    -- the data that follows a hello establishes a session
    followed :
        (t : Serving) (older newer : List (List ℕ)) (peer_ip : List ℕ) (client_pk : List ℕ)
        (payload : KemPayload) (est : ServerEstablished S B) (strike : StrikeCache)
        → t.waiting ≡ newer ++ (peer_ip ∷ older)
        → IsU64 payload.ts_millis
        → server_on_client_data S B cfg (client_data client_pk payload) peer_ip t.now t.strike
          ≡ (ok est, strike)
        → Step t (record t {
          strike = strike;
          waiting = newer ++ older;
          accepted = record { payload = payload; at = t.now } ∷ t.accepted;
        })
    -- the frame that follows a hello is refused
    dismissed :
        (t : Serving) (older newer : List (List ℕ)) (peer_ip : List ℕ) (frame : Frame) (e : Error)
        (strike : StrikeCache)
        → t.waiting ≡ newer ++ (peer_ip ∷ older)
        → server_on_client_data S B cfg frame peer_ip t.now t.strike ≡ (err e, strike)
        → Step t (record t { strike = strike; waiting = newer ++ older })
    -- the connection ends before
    left :
        (t : Serving) (older newer : List (List ℕ)) (peer_ip : List ℕ)
        → t.waiting ≡ newer ++ (peer_ip ∷ older)
        → Step t (record t { waiting = newer ++ older })

  pub data Steps : Serving → Serving → Type 0 where
    here : (t : Serving) → Steps t t
    then : (t u v : Serving) → Steps t u → Step u v → Steps t v
