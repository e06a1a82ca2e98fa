-- ===== src/Tests/Failures.antt =====
-- A tunnel whose connections fail, and pumps that come to their end.
use ort.Prelude.{
  ℕ, ◌-◌, ◌≡◌, ◌≤◌, min, refl, sym, List, [], ◌∷◌, ◌++◌, append-nil, ok, err, length, take, drop,
  length-take, take-append-drop, ltb, if◌then◌else◌, Bool-cases, be_value, inl, inr, arith,
}
use ort.Core.Pool.{client_to_server, server_to_client, flip}
use ort.Net.Error.{unexpected_eof, other}
use ort.Net.Stream.{Stream, IsOrdered}
use ort.Net.Forward.Turns.{
  Joint, Turn, up_turn, down_turn, awaiting, running, turns, up_round, down_round, ack_round,
}
use ort.Net.Forward.Turns.Settled.{Answered}
use ort.Net.Forward.Turns.Answer.{turns-Answered, ups, downs}
use ort.Net.Forward.Failing.Delivers.{Given}
use ort.Net.Forward.Failing.Through.{turns-Given}
use ort.Tests.Toy.{toy, toy_blake3, toy-IsCorrect, toy-IsCompact}
use ort.Core.Record
use ort.Proto.Frame.{parse_len}
use ort.Proto.Codec.Reader
use ort.Proto.Messages.Payload
use ort.Net.Forward
use ort.Net.Transport
use ort.Tests.Tasks.{decoding}
use ort.Tests.Pumps.{layer, pumping}

-- Two bytes come with each read. A writer has room for so many bytes more, and then fails.
abbrev frail_stream : Stream
frail_stream = record {
  Reader = List ℕ;
  Writer = ℕ × List ℕ;
  read = λ n r. (ok (take (min n 2) r), drop (min n 2) r);
  read_exact =
      λ n r. if ltb (length r) n then (err unexpected_eof, []) else (ok (take n r), drop n r);
  write_all = λ bs w.
      if ltb w.0 (length bs)
      then (err (other 32), (0, w.1 ++ take w.0 bs))
      else (ok tt, (w.0 - length bs, w.1 ++ bs));
  flush = λ w. (ok tt, w);
  shutdown = λ w. (ok tt, w);
}

reads :
    (r : List ℕ) (n : ℕ)
    → (taken : List ℕ) × (r ≡ taken ++ (frail_stream.read n r).1)
      × ((chunk : List ℕ)
          → (frail_stream.read n r).0 ≡ ok chunk
          → (chunk ≡ taken) × (length chunk ≤ n))
reads r n = (
  take (min n 2) r,
  sym (take-append-drop (min n 2) r),
  λ chunk h.
      let is : take (min n 2) r ≡ chunk = cc h in
      (sym is, rw (← is) (omega (arith, length-take (min n 2) r))),
)

reads_exact :
    (r : List ℕ) (n : ℕ)
    → (taken : List ℕ) × (r ≡ taken ++ (frail_stream.read_exact n r).1)
      × ((bs : List ℕ) → (frail_stream.read_exact n r).0 ≡ ok bs → (bs ≡ taken) × (length bs ≡ n))
reads_exact r n = elim (Bool-cases (ltb (length r) n)) [
  | inl short ↦ rw short (r, sym (append-nil r), λ bs h. absurd (cc h))
  | inr enough ↦ rw enough (
    take n r,
    sym (take-append-drop n r),
    λ bs h. let is : take n r ≡ bs = cc h in (sym is, rw (← is) (ground (arith, length-take n r))),
  )
]

writes :
    (w : ℕ × List ℕ) (bs : List ℕ)
    → (part : List ℕ) × (left : List ℕ) × (bs ≡ part ++ left)
      × ((frail_stream.write_all bs w).1.1 ≡ w.1 ++ part)
      × ((frail_stream.write_all bs w).0 ≡ ok tt → left ≡ [])
writes w bs = elim (Bool-cases (ltb w.0 (length bs))) [
  | inl full ↦
      rw full (take w.0 bs, drop w.0 bs, sym (take-append-drop w.0 bs), refl, λ h. absurd (cc h))
  | inr room ↦ rw room (bs, [], sym (append-nil bs), refl, λ h. refl)
]

abbrev frail-IsOrdered : IsOrdered frail_stream
frail-IsOrdered = record {
  pending = λ r. r;
  sent = λ w. w.1;
  reads = reads;
  reads_exact = reads_exact;
  writes = writes;
  flushes = λ w. refl;
  shuts = λ w. refl;
}

-- The client's plain side has written three bytes. The tunnel fails in the second frame.
abbrev client_end : Joint toy toy_blake3 frail_stream
client_end = record {
  pr = 71 ∷ 69 ∷ 84 ∷ [];
  pw = (90, []);
  reader = [];
  writer = (40, []);
  layer = layer;
  up = running;
  down = awaiting (5 ∷ []);
}

abbrev client_order : List Turn
client_order = up_turn ∷ up_turn ∷ up_turn ∷ []

abbrev client_after : Joint toy toy_blake3 frail_stream
client_after = turns toy toy_blake3 frail_stream client_to_server client_order client_end

unfoldable pub failing : ℕ → ℕ
unfolding pumping decoding Payload.read Reader.array turns up_round down_round ack_round flip
    Forward.down_loop Forward.read_tunnel Forward.open_chunk Forward.write_plain Forward.finish_down
    Record.open_record Transport.read_frame Transport.read_body parse_len be_value
failing n = n

-- What the server reads is what was written there.
abbrev server_end : Joint toy toy_blake3 frail_stream
server_end = record {
  pr = 1 ∷ [];
  pw = (90, 0 ∷ []);
  reader = client_after.writer.1;
  writer = (0, []);
  layer = layer;
  up = running;
  down = running;
}

abbrev server_order : List Turn
server_order = down_turn ∷ down_turn ∷ []

abbrev server_after : Joint toy toy_blake3 frail_stream
server_after = turns toy toy_blake3 frail_stream server_to_client server_order server_end

turns-Given_example :
    Given toy toy_blake3 frail_stream frail-IsOrdered
      (71 ∷ 69 ∷ 84 ∷ [])
      (90, 0 ∷ [])
      server_after.pw
unfolding flip
turns-Given_example =
    turns-Given toy toy_blake3 frail_stream toy-IsCorrect toy-IsCompact frail-IsOrdered
      server_to_client client_order server_order client_end server_end [] refl refl
      (record { key = refl; pool = refl }) (omega arith) (sym (append-nil client_after.writer.1))

-- The first two bytes arrive.
two_arrive : server_after.pw.1 ≡ 0 ∷ 71 ∷ 69 ∷ []
unfolding failing
two_arrive = refl

-- Five turns for each pump: there are three bytes to read on the plain side and four on the tunnel.
abbrev busy_end : Joint toy toy_blake3 frail_stream
busy_end = record client_end { reader = 0 ∷ 0 ∷ 0 ∷ 1 ∷ [] }

abbrev busy_order : List Turn
busy_order =
    up_turn ∷ down_turn ∷ up_turn ∷ down_turn ∷ up_turn ∷ down_turn ∷ up_turn ∷ down_turn
    ∷ down_turn ∷ []

turns-Answered_example :
    Answered toy toy_blake3 frail_stream client_to_server
      (turns toy toy_blake3 frail_stream client_to_server busy_order busy_end)
unfolding ups downs
turns-Answered_example =
    turns-Answered toy toy_blake3 frail_stream client_to_server frail-IsOrdered busy_order busy_end
      tt (omega arith) (omega arith)
