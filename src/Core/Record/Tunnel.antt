-- ===== src/Core/Record/Tunnel.antt =====
-- Two record layers over a reliable wire, under any interleaving of the four things that can
-- happen: either peer seals a block, either peer opens the oldest record that is on its way to it.
-- This is what the forwarding tasks do with the layer of crates/ort-core/src/record.rs; `sent`,
-- `delivered` and `refused` record what they saw.
pub mod Fifo
use ort.Prelude.{ℕ, List, [], ◌∷◌, ◌++◌, ok, err}
use ort.Core.Error.{Error, CoreResult}
use ort.Core.Suite.Cipher.{CipherSuite, Blake3}
use ort.Core.Pool.{Direction, client_to_server, server_to_client}
use ort.Core.Record.{RecordLayer, seal, open_record}

-- One direction: the records on the wire, oldest first, and the history of its ends.
pub record Flow : Type 0 where
  pub wire : List (List ℕ)
  pub sent : List (List ℕ)
  pub delivered : List (List ℕ)
  pub refused : List Error

abbrev pub idle : Flow
idle = record { wire = []; sent = []; delivered = []; refused = [] }

pub data Event : Type 0 where
  send : Direction → List ℕ → Event
  deliver : Direction → Event

module _ (S : CipherSuite) (B : Blake3) where
  pub record Tunnel : Type 0 where
    pub client : RecordLayer S B
    pub server : RecordLayer S B
    pub c2s : Flow
    pub s2c : Flow

  abbrev pub start : RecordLayer S B → RecordLayer S B → Tunnel
  start client server = record { client = client; server = server; c2s = idle; s2c = idle }

  -- What a peer does to its layer and to the flow of a direction.
  unfoldable pub sends : Direction → List ℕ → RecordLayer S B → Flow → RecordLayer S B × Flow
  sends d pt l f =
      let (ct, l') = seal S B d pt l in
      (l', record f { wire = f.wire ++ (ct ∷ []); sent = f.sent ++ (pt ∷ []) })

  abbrev noted : CoreResult (List ℕ) → List (List ℕ) → Flow → Flow
  noted (ok pt) rest f = record f { wire = rest; delivered = f.delivered ++ (pt ∷ []) }
  noted (err e) rest f = record f { wire = rest; refused = f.refused ++ (e ∷ []) }

  abbrev takes : Direction → RecordLayer S B → Flow → List (List ℕ) → RecordLayer S B × Flow
  takes d l f [] = (l, f)
  takes d l f (ct ∷ rest) = let (answer, l') = open_record S B d ct l in (l', noted answer rest f)

  unfoldable pub delivers : Direction → RecordLayer S B → Flow → RecordLayer S B × Flow
  delivers d l f = takes d l f f.wire

  unfoldable pub step : Tunnel → Event → Tunnel
  step t (send client_to_server pt) =
      let (l, f) = sends client_to_server pt t.client t.c2s in record t { client = l; c2s = f }
  step t (send server_to_client pt) =
      let (l, f) = sends server_to_client pt t.server t.s2c in record t { server = l; s2c = f }
  step t (deliver client_to_server) =
      let (l, f) = delivers client_to_server t.server t.c2s in record t { server = l; c2s = f }
  step t (deliver server_to_client) =
      let (l, f) = delivers server_to_client t.client t.s2c in record t { client = l; s2c = f }

  unfoldable pub run : Tunnel → List Event → Tunnel
  unfolding step
  run t [] = t
  run t (e ∷ es) = run (step t e) es
