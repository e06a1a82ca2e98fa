-- ===== src/Tests/Pumps.antt =====
-- The pumps of the toy suite over the toy stream.
use ort.Prelude.{
  ℕ, ◌≡◌, ◌≤◌, refl, List, [], ◌∷◌, ◌++◌, none, some, ok, err, length, arith, be_bytes, bytes_eq,
  ltb→le,
}
use ort.Core.Pool
use ort.Core.Pool.{client_to_server, server_to_client}
use ort.Core.Record
use ort.Core.Record.{RecordLayer, seal}
use ort.Proto.Codec.Writer
use ort.Proto.Messages.Tags.{tag}
use ort.Proto.Messages.Frames.{server_ack, close, encode}
use ort.Proto.Frame.{encode_framed}
use ort.Net.Error.{key_confirmation, io, unexpected_eof}
use ort.Net.Transport
use ort.Net.Session.Wire.{IsSendable, on_wire}
use ort.Net.Forward
use ort.Net.Forward.{Up, Down, up, down, down_loop}
use ort.Net.Forward.Chunks.{records, IsShort}
use ort.Net.Forward.Cut.{down_cut}
use ort.Net.Forward.Turns.{Joint, Turn, up_turn, down_turn, running, turns, up_round}
use ort.Net.Forward.Through.{up-down, down_refused}
use ort.Tests.Toy.{toy, toy_blake3, toy-IsCorrect, toy-IsCompact, toy_stream, toy-IsReliable}

abbrev pub layer : RecordLayer toy toy_blake3
layer = Record.new toy toy_blake3 (record { enc_key = 1 ∷ []; pool_key = 2 ∷ [] }) (3 ∷ [])

abbrev alone : ℕ → RecordLayer toy toy_blake3 → RecordLayer toy toy_blake3
alone n l = l

abbrev typed : Up toy toy_blake3 toy_stream
typed = record { plain = 71 ∷ 69 ∷ 84 ∷ []; writer = []; layer = layer }

abbrev pumped : Up toy toy_blake3 toy_stream
pumped = (up toy toy_blake3 toy_stream client_to_server alone 9 typed).1

abbrev receiving : Down toy toy_blake3 toy_stream
receiving = record { reader = pumped.writer; plain = 0 ∷ []; layer = layer }

unfoldable pub pumping : ℕ → ℕ
unfolding be_bytes bytes_eq Pool.dir_byte Pool.label Pool.new Pool.next_nonce Pool.absorb
    Pool.counter Record.new Record.record_aad Record.seal Writer.u8 Writer.bytes16 Writer.bytes32
    tag encode encode_framed Transport.write_frame Transport.shutdown Forward.read_plain
    Forward.seal_chunk Forward.write_up Forward.finish_up up
pumping n = n

on_the_wire : length pumped.writer ≤ 99
unfolding pumping
on_the_wire = ltb→le _ _ refl

up-down_example :
    ((up toy toy_blake3 toy_stream client_to_server alone 9 typed).0 ≡ ok (some tt))
    × ((down toy toy_blake3 toy_stream client_to_server none alone 99 receiving).0 ≡ ok (some tt))
    × ((down toy toy_blake3 toy_stream client_to_server none alone 99 receiving).1.plain
        ≡ 0 ∷ 71 ∷ 69 ∷ 84 ∷ [])
up-down_example =
    up-down toy toy_blake3 toy_stream toy-IsCorrect toy-IsCompact toy-IsReliable client_to_server
      alone alone (λ n l. record { key = refl; pool = refl })
      (λ n l. record { key = refl; pool = refl }) typed receiving 9 99
      (record { key = refl; pool = refl }) (omega arith) refl (omega arith) on_the_wire

abbrev acked : Down toy toy_blake3 toy_stream
acked = record { reader = on_wire (server_ack (5 ∷ 6 ∷ [])) ++ (1 ∷ []); plain = []; layer = layer }

ack-IsSendable : IsSendable (server_ack (5 ∷ 6 ∷ []))
unfolding pumping
ack-IsSendable = (omega arith, ltb→le _ _ refl)

down_refused_example :
    ((down toy toy_blake3 toy_stream server_to_client (some (5 ∷ 7 ∷ [])) alone 9 acked).0
      ≡ err key_confirmation)
    × ((down toy toy_blake3 toy_stream server_to_client (some (5 ∷ 7 ∷ [])) alone 9 acked).1.plain
        ≡ [])
down_refused_example =
    down_refused toy toy_blake3 toy_stream toy-IsCorrect toy-IsCompact toy-IsReliable
      server_to_client alone alone (λ n l. record { key = refl; pool = refl })
      (λ n l. record { key = refl; pool = refl }) (5 ∷ 7 ∷ []) (5 ∷ 6 ∷ []) (1 ∷ []) acked 9
      ack-IsSendable refl (λ p. absurd (grind (arith, p)))

-- Both pumps of one end, by turns: the plain side has written three bytes, and the other end has
-- closed.
abbrev both : Joint toy toy_blake3 toy_stream
both = record {
  pr = 71 ∷ 69 ∷ 84 ∷ [];
  pw = [];
  reader = on_wire close;
  writer = [];
  layer = layer;
  up = running;
  down = running;
}

abbrev order : List Turn
order = up_turn ∷ down_turn ∷ up_turn ∷ []

-- Two turns write the chunk and the closing frame.
two_turns :
    (turns toy toy_blake3 toy_stream client_to_server (up_turn ∷ up_turn ∷ []) both).writer
    ≡ pumped.writer
unfolding pumping turns up_round
two_turns = refl

-- One record, and four of the five bytes of the closing frame.
abbrev cut_text : List ℕ
cut_text = 71 ∷ 69 ∷ []

abbrev cut_record : List ℕ
cut_record = (seal toy toy_blake3 client_to_server cut_text layer).0

abbrev cut_end : Down toy toy_blake3 toy_stream
cut_end = record {
  reader =
      records toy toy_blake3 client_to_server ((cut_text, cut_record) ∷ []) ++ (0 ∷ 0 ∷ 0 ∷ 1 ∷ []);
  plain = 0 ∷ [];
  layer = layer;
}

cut_record-IsShort : IsShort toy toy_blake3 client_to_server (cut_text, cut_record)
unfolding pumping
cut_record-IsShort = (omega arith, ltb→le _ _ refl)

close_bytes : on_wire close ≡ 0 ∷ 0 ∷ 0 ∷ 1 ∷ 7 ∷ []
unfolding pumping
close_bytes = refl

close-IsSendable : IsSendable close
unfolding pumping
close-IsSendable = (tt, ltb→le _ _ refl)

down_cut_example :
    ((down_loop toy toy_blake3 toy_stream client_to_server alone 9 cut_end).0
      ≡ err (io unexpected_eof))
    × ((down_loop toy toy_blake3 toy_stream client_to_server alone 9 cut_end).1.plain
        ≡ 0 ∷ 71 ∷ 69 ∷ [])
down_cut_example =
    down_cut toy toy_blake3 toy_stream toy-IsCorrect toy-IsCompact toy-IsReliable client_to_server
      alone (λ n l. record { key = refl; pool = refl }) 9 layer ((cut_text, cut_record) ∷ [])
      cut_end close (0 ∷ 0 ∷ 0 ∷ 1 ∷ []) [] 7 (omega arith) (cut_record-IsShort, tt)
      (layer, record { key = refl; pool = refl }, refl, tt) (record { key = refl; pool = refl })
      close-IsSendable close_bytes refl
