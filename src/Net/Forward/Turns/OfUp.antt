-- ===== src/Net/Forward/Turns/OfUp.antt =====
-- The pump to the tunnel among the turns of both.
use ort.Prelude.{
  ℕ, suc, ◌≡◌, refl, ap, ◌∙◌, List, [], ◌∷◌, Option, none, some, ok, err, Result-cases, Bool-cases,
  inl, inr, bytes_eq, true, false, ◌⊎◌,
}
use ort.Core.Suite.Cipher.{CipherSuite, Blake3}
use ort.Core.Pool.{Direction, flip, dir_byte}
use ort.Core.Record.{seal, open_record}
use ort.Proto.Messages.Frames.{
  Frame, client_hello_one_rtt, client_hello_zero_rtt, client_data, server_hello, server_ack,
  data_record, close,
}
use ort.Net.Io.{◌>>◌}
use ort.Net.Error.{OrtResult}
use ort.Net.Stream.{Stream}
use ort.Net.Forward.{
  chunk_len, Up, Down, up, up_chunk, read_plain, seal_chunk, write_up, finish_up, down, down_loop,
  down_frame, read_tunnel, check_ack, open_chunk, write_plain, finish_down,
}
use ort.Net.Forward.Shared.{Use, opens, use_all}
use ort.Net.Forward.Turns.{
  Phase, awaiting, running, ended, failed, Turn, up_turn, down_turn, phase_of, Joint, of_up,
  of_down, set_up, up_round, down_round, ack_round, move_up, move_down, is_failed, turn,
}
use ort.Net.Forward.Turns.Rounds.{Holding, Round, Others, IsRun, goes_on as rounds_on}
use ort.Net.Forward.Turns.Pump.{IsStopped, Aside, Advances, IsPump}

module _ (S : CipherSuite) (B : Blake3) (I : Stream) (d : Direction) where
  abbrev pub Ends : Type 0
  Ends = I.Reader × I.Writer

  abbrev pub mine : Joint S B I → Phase × Ends
  mine t = (t.up, (t.pr, t.writer))

  abbrev to_up : Holding S B Ends → Up S B I
  to_up v = record { plain = v.0.0; writer = v.0.1; layer = v.1 }

  abbrev from_up : OrtResult (Option (Unit {0})) × Up S B I → Round S B Ends
  from_up (r, u) = (r, ((u.plain, u.writer), u.layer))

  abbrev pub up_rounds : Holding S B Ends → Round S B Ends
  up_rounds v = from_up (up_round S B I d (to_up v))

  -- `up` as a run of rounds.
  abbrev pub up_run : Others S B → ℕ → Holding S B Ends → Round S B Ends
  up_run f n v = from_up (up S B I d f n (to_up v))

  abbrev Seen : Type 0
  Seen = Phase × Ends

  abbrev seen : OrtResult (Option (Unit {0})) × Up S B I → Seen
  seen (r, u) = (phase_of r, (u.plain, u.writer))

  -- After a round.
  abbrev goes_on : OrtResult (Option (Unit {0})) × Up S B I → (Up S B I → Seen) → Seen
  goes_on (ok none, u) next = next u
  goes_on (ok (some _), u) next = (ended, (u.plain, u.writer))
  goes_on (err e, u) next = (failed e, (u.plain, u.writer))

  -- A step before the rest of a round.
  step-goes_on :
      {A : Type 0} (r : OrtResult A × Up S B I)
      (next : Up S B I → OrtResult (Option (Unit {0})) × Up S B I) (u : Up S B I)
      → seen (((λ _. r) >> next) u)
        ≡ goes_on (((λ _. r) >> (λ v. (ok none, v))) u) (λ v. seen (next v))
  step-goes_on (ok a, v) next u = refl
  step-goes_on (err e, v) next u = refl

  round-chunk :
      (others : Others S B) (n : ℕ) (chunk : List ℕ) (u : Up S B I)
      → seen (up_chunk S B I d (others n) (up S B I d others n) chunk u)
        ≡ goes_on
            (up_chunk S B I d
              (λ l. l)
              (λ v. (ok none, v))
              chunk
              (record u { layer = others n u.layer }))
            (λ v. seen (up S B I d others n v))
  unfolding up_chunk seal_chunk write_up finish_up
  round-chunk others n [] u = refl
  round-chunk others n (b ∷ bs) u =
      let (ct, layer) = seal S B d (b ∷ bs) (others n u.layer) in
      let v : Up S B I = record u { layer = layer } in
      step-goes_on (write_up S B I d (data_record (dir_byte d) ct) v) (up S B I d others n) v

  -- A run is its first round, from the layer that the other pump left, and the rest.
  round-up :
      (others : Others S B) (n : ℕ) (u : Up S B I)
      → seen (up S B I d others (suc n) u)
        ≡ goes_on
            (up_round S B I d (record u { layer = others n u.layer }))
            (λ v. seen (up S B I d others n v))
  unfolding up up_round read_plain
  round-up others n u = elim (Result-cases (I.read chunk_len u.plain).0) [
    | inl (chunk, e) ↦
        rw e (round-chunk others n chunk (record u { plain = (I.read chunk_len u.plain).1 }))
    | inr (e, h) ↦ rw h refl
  ]

  goes_on-from_up :
      (x : OrtResult (Option (Unit {0})) × Up S B I) (next : Holding S B Ends → Seen)
      → goes_on x (λ u. next ((u.plain, u.writer), u.layer)) ≡ rounds_on S B (from_up x) next
  goes_on-from_up (ok none, u) next = refl
  goes_on-from_up (ok (some _), u) next = refl
  goes_on-from_up (err e, u) next = refl

  pub up_run-IsRun : IsRun S B Ends up_rounds up_run
  unfolding up
  up_run-IsRun = record {
    start = λ f v. refl;
    next =
        λ f n v. round-up f n (to_up v) ∙ goes_on-from_up _ (λ w. seen (up S B I d f n (to_up w)));
  }

  frame-layer :
      (frame : Option Frame) (s : Down S B I)
      → (uses : List Use) × ((down_frame S B I
            (flip d)
            (λ l. l)
            (λ v. (ok none, v))
            frame
            s).1.layer
          ≡ use_all S B (flip d) uses s.layer)
  unfolding down_frame open_chunk write_plain finish_down
  frame-layer none s = ([], refl)
  frame-layer (some (data_record dir ct)) s = (
    opens ct ∷ [],
    elim (Result-cases (open_record S B (flip d) ct s.layer).0) [
      | inl (pt, e) ↦ elim (Result-cases (I.write_all pt s.plain).0) [
        | inl (_, k) ↦ rw (e, k) refl
        | inr (_, k) ↦ rw (e, k) refl
      ]
      | inr (_, e) ↦ rw e refl
    ],
  )
  frame-layer (some close) s = ([], refl)
  frame-layer (some (client_hello_one_rtt suite_id pk)) s = ([], refl)
  frame-layer (some (client_hello_zero_rtt suite_id pk p)) s = ([], refl)
  frame-layer (some (client_data pk p)) s = ([], refl)
  frame-layer (some (server_hello suite_id pk certificate now)) s = ([], refl)
  frame-layer (some (server_ack ek_hash)) s = ([], refl)

  ack-layer :
      (expected : List ℕ) (frame : Option Frame) (s : Down S B I)
      → (check_ack S B I (flip d) expected (λ v. (ok none, v)) frame s).1.layer ≡ s.layer
  unfolding check_ack
  ack-layer expected none s = refl
  ack-layer expected (some (server_ack ek_hash)) s = elim (Bool-cases (bytes_eq ek_hash expected)) [
    | inl e ↦ rw e refl
    | inr e ↦ rw e refl
  ]
  ack-layer expected (some (data_record dir ct)) s = refl
  ack-layer expected (some close) s = refl
  ack-layer expected (some (client_hello_one_rtt suite_id pk)) s = refl
  ack-layer expected (some (client_hello_zero_rtt suite_id pk p)) s = refl
  ack-layer expected (some (client_data pk p)) s = refl
  ack-layer expected (some (server_hello suite_id pk certificate now)) s = refl

  down_round-layer :
      (s : Down S B I)
      → (uses : List Use) × ((down_round S B I d s).1.layer ≡ use_all S B (flip d) uses s.layer)
  unfolding down_round down_loop read_tunnel
  down_round-layer s = elim (Result-cases (read_tunnel S B I s).0) [
    | inl (frame, e) ↦ rw e (frame-layer frame (read_tunnel S B I s).1)
    | inr (_, e) ↦ ([], rw e refl)
  ]

  ack_round-layer :
      (expected : List ℕ) (s : Down S B I) → (ack_round S B I d expected s).1.layer ≡ s.layer
  unfolding ack_round down down_loop read_tunnel
  ack_round-layer expected s = elim (Result-cases (read_tunnel S B I s).0) [
    | inl (frame, e) ↦ rw e (ack-layer expected frame (read_tunnel S B I s).1)
    | inr (_, e) ↦ rw e refl
  ]

  move_down-Aside :
      (p : Phase) (t : Joint S B I) → Aside S B I d d Ends mine t (move_down S B I d p t)
  unfolding move_down
  move_down-Aside running t =
      let (uses, e) = down_round-layer (of_down S B I t) in
      record { uses = uses; same = refl; layered = e }
  move_down-Aside (awaiting expected) t = record {
    uses = [];
    same = refl;
    layered = ack_round-layer expected (of_down S B I t);
  }
  move_down-Aside ended t = record { uses = []; same = refl; layered = refl }
  move_down-Aside (failed e) t = record { uses = []; same = refl; layered = refl }

  turn-Aside : (t : Joint S B I) → Aside S B I d d Ends mine t (turn S B I d down_turn t)
  unfolding turn
  turn-Aside t = elim (Bool-cases (is_failed t.up)) [
    | inl e ↦ rw e (record { uses = []; same = refl; layered = refl })
    | inr e ↦ rw e (move_down-Aside t.down t)
  ]

  stopped-move_up : (p : Phase) (t : Joint S B I) → IsStopped p → move_up S B I d p t ≡ t
  unfolding move_up
  stopped-move_up (awaiting expected) t h = refl
  stopped-move_up running t h = absurd h
  stopped-move_up ended t h = refl
  stopped-move_up (failed e) t h = refl

  stopped-turn : (t : Joint S B I) → IsStopped t.up → turn S B I d up_turn t ≡ t
  unfolding turn
  stopped-turn t h = elim (Bool-cases (is_failed t.down)) [
    | inl e ↦ rw e refl
    | inr e ↦ rw e (stopped-move_up t.up t h)
  ]

  failed-turn : (t : Joint S B I) → is_failed t.down ≡ true → turn S B I d up_turn t ≡ t
  unfolding turn
  failed-turn t e = rw e refl

  running-turn :
      (t : Joint S B I)
      → t.up ≡ running
      → is_failed t.down ≡ false
      → turn S B I d up_turn t ≡ set_up S B I (up_round S B I d (of_up S B I t)) t
  unfolding turn move_up
  running-turn t going e = rw e (ap (λ p. move_up S B I d p t) going)

  stays : (x : Turn) (t : Joint S B I) → IsStopped t.up → mine (turn S B I d x t) ≡ mine t
  stays up_turn t h = ap mine (stopped-turn t h)
  stays down_turn t h = (turn-Aside t).same

  moves :
      (x : Turn) (t : Joint S B I)
      → t.up ≡ running
      → Aside S B I d d Ends mine t (turn S B I d x t)
        ⊎ Advances S B I d d Ends mine (up_rounds ((mine t).1, t.layer)) (turn S B I d x t)
  moves up_turn t going = elim (Bool-cases (is_failed t.down)) [
    | inl e ↦
        let same = failed-turn t e in
        inl (record { uses = []; same = ap mine same; layered = ap (λ x. x.layer) same })
    | inr e ↦
        let is = running-turn t going e in
        inr (record { shown = ap mine is; layered = ap (λ x. x.layer) is })
  ]
  moves down_turn t going = inl (turn-Aside t)

  pub up-IsPump : IsPump S B I d d Ends mine up_rounds
  up-IsPump = record { stays = stays; moves = moves }
