-- ===== src/Net/Run.antt =====
-- crates/ort-net/src/run.rs: the addresses, and the client's tasks, which share the pinned key of the
-- server under a lock. Each task copies the pin when it starts, and stores the key that it was served
-- when its handshake succeeds and there is no pin yet.
pub mod Pins
pub mod Served
pub mod Loops
use ort.Prelude.{ℕ, ◌≡◌, List, [], ◌∷◌, ◌++◌, Bool, Option, none, some, ok, err, replicate}
use ort.Core.Suite.Cipher.{CipherSuite, Blake3}
use ort.Core.Handshake.Client.{ClientConfig}
use ort.Net.Error.{OrtError}
use ort.Net.Stream.{Stream}
use ort.Net.Cert.{X509, ServerVerifier}
use ort.Net.Session.{Socket, ClientOutcome, client_open}

-- The octets of an address.
pub data IpAddr : Type 0 where
  v4 : List ℕ → IpAddr
  v6 : List ℕ → IpAddr

-- `to_ipv6_mapped` puts ten zeros and two bytes 255 before the octets.
unfoldable pub ip_to_bytes : IpAddr → List ℕ
ip_to_bytes (v4 octets) = replicate 10 0 ++ (255 ∷ 255 ∷ octets)
ip_to_bytes (v6 octets) = octets

-- `if p.is_none() { *p = Some(…) }`
unfoldable pub remember : List ℕ → Option (List ℕ) → Option (List ℕ)
remember server_pk none = some server_pk
remember server_pk (some pin) = some pin

-- The shared pin, the copies that the tasks in their handshakes hold, and the keys of the tunnels
-- that were opened.
pub record Tasks : Type 0 where
  pub pin : Option (List ℕ)
  pub waiting : List (Option (List ℕ))
  pub opened : List (List ℕ)

abbrev pub idle : Tasks
idle = record { pin = none; waiting = []; opened = [] }

module _ (S : CipherSuite) (B : Blake3) (I : Stream) (X : X509) (ccfg : ClientConfig S)
    (verifier : ServerVerifier) (force_1rtt : Bool) where
  -- The handshake of a task that copied `cached` ends, at some time, over some socket and with some
  -- random bytes, with this result. No data is sent early.
  pub record Ends (cached : Option (List ℕ)) (outcome : ClientOutcome S B I) : Type 0 where
    pub src_ip : List ℕ
    pub cert_now : ℕ
    pub now : ℕ
    pub r : List ℕ
    pub nonce : List ℕ
    pub before : Socket I
    pub after : Socket I
    pub ends :
        client_open S B I X ccfg src_ip verifier cert_now now r nonce [] cached force_1rtt before
        ≡ (ok outcome, after)

  -- What can happen next.
  pub data Step : Tasks → Tasks → Type 0 where
    begin : (t : Tasks) → Step t (record t { waiting = t.pin ∷ t.waiting })
    succeed :
        (t : Tasks) (older newer : List (Option (List ℕ))) (cached : Option (List ℕ))
        (outcome : ClientOutcome S B I)
        → t.waiting ≡ newer ++ (cached ∷ older)
        → Ends cached outcome
        → Step t (record {
          pin = remember outcome.server_pk t.pin;
          waiting = newer ++ older;
          opened = outcome.server_pk ∷ t.opened;
        })
    -- the handshake or the connection failed
    give_up :
        (t : Tasks) (older newer : List (Option (List ℕ))) (cached : Option (List ℕ))
        → t.waiting ≡ newer ++ (cached ∷ older)
        → Step t (record t { waiting = newer ++ older })

  pub data Steps : Tasks → Tasks → Type 0 where
    here : (t : Tasks) → Steps t t
    then : (t u v : Tasks) → Steps t u → Step u v → Steps t v
