-- ===== src/Tests/Resumptions.antt =====
-- The deployed programs again: what the target answers, and a later connection.
use ort.Prelude.{ℕ, List, [], ◌∷◌, ◌++◌, length, Option, replicate, arith}
use ort.Core.Suite.V1.{v1}
use ort.Core.Handshake.Client.{client_one_rtt_hello}
use ort.Core.Replay
use ort.Proto.Messages.Frames.{Frame}
use ort.Net.Error.{OrtResult}
use ort.Net.Session.{Socket}
use ort.Net.Session.Wire.{on_wire}
use ort.Bin.Deployed.Answers
use ort.Bin.Deployed.Resumed
use ort.Tests.Toy.{toy_blake3, toy_stream, toy-IsReliable, toy_x509}
use ort.Tests.Handshakes.{empty}
use ort.Tests.Arrays.{zeros}
use ort.Tests.Crates.{toy_crates, documented, typed}
use ort.Tests.Binaries.{memory, memory-IsFileSystem, toy_rcgen, toy_rcgen-IsRcgen, identity}
use ort.Tests.Deployments.{local, server, client, deployed, silent, app}
use ort.Tests.Tunnels.{busy}

abbrev said : Frame
said =
    Answers.first_data memory memory-IsFileSystem toy_crates documented toy_rcgen toy_x509 7
      (toy_rcgen-IsRcgen 7) toy_stream local server client deployed toy_blake3 toy-IsReliable 5000
      5400 5500 (replicate 16 7) (zeros 32) (replicate 32 50) typed (omega arith) (omega arith)
      empty (λ s. s) silent silent

-- The client's pump has sent one byte of its next frame.
abbrev heard : Socket toy_stream
heard = record {
  reader = on_wire (client_one_rtt_hello (v1 toy_crates) identity) ++ (on_wire said ++ (0 ∷ []));
  writer = [];
}

abbrev answering : OrtResult (Option (Unit {0})) × List ℕ
answering =
    Answers.server_pump memory memory-IsFileSystem toy_crates documented toy_rcgen toy_x509 7
      (toy_rcgen-IsRcgen 7) toy_stream local server client deployed toy_blake3 toy-IsReliable 5000
      5400 5500 (replicate 16 7) (zeros 32) (replicate 32 50) typed (omega arith) (omega arith)
      empty (λ s. s) silent heard busy 9 app []

abbrev waiting : Socket toy_stream
waiting = record { reader = answering.1; writer = [] }

abbrev receiving : OrtResult (Option (Unit {0})) × List ℕ
receiving =
    Answers.client_pump memory memory-IsFileSystem toy_crates documented toy_rcgen toy_x509 7
      (toy_rcgen-IsRcgen 7) toy_stream local server client deployed toy_blake3 toy-IsReliable 5000
      5400 5500 (replicate 16 7) (zeros 32) (replicate 32 50) typed (omega arith) (omega arith)
      empty (λ s. s) waiting heard busy (length answering.1) (0 ∷ [])

abbrev resumed : Frame
resumed =
    Resumed.first_frame memory memory-IsFileSystem toy_crates documented toy_rcgen toy_x509 7
      (toy_rcgen-IsRcgen 7) toy_stream local server client deployed toy_blake3 toy-IsReliable 5000
      5500 (replicate 16 7) (zeros 32) (replicate 32 50) typed (omega arith) (omega arith) empty
      (λ s. s) silent silent

abbrev sending : OrtResult (Option (Unit {0})) × List ℕ
sending =
    Resumed.client_pump memory memory-IsFileSystem toy_crates documented toy_rcgen toy_x509 7
      (toy_rcgen-IsRcgen 7) toy_stream local server client deployed toy_blake3 toy-IsReliable 5000
      5500 (replicate 16 7) (zeros 32) (replicate 32 50) typed (omega arith) (omega arith) empty
      (λ s. s) silent silent client.force_1rtt busy 9 app []

abbrev hearing : Socket toy_stream
hearing = record { reader = sending.1; writer = [] }

abbrev delivering : OrtResult (Option (Unit {0})) × List ℕ
delivering =
    Resumed.server_pump memory memory-IsFileSystem toy_crates documented toy_rcgen toy_x509 7
      (toy_rcgen-IsRcgen 7) toy_stream local server client deployed toy_blake3 toy-IsReliable 5000
      5500 (replicate 16 7) (zeros 32) (replicate 32 50) typed (omega arith) (omega arith) empty
      (λ s. s) silent hearing busy (length sending.1) (0 ∷ [])
