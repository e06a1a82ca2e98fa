-- ===== src/Net/Forward/Turns/OfDown.antt =====
-- The pump from the tunnel, past the acknowledgement, among the turns of both.
use ort.Prelude.{
  ℕ, suc, ◌≡◌, refl, sym, ap, ◌∙◌, List, [], ◌∷◌, Option, none, some, ok, Result-cases, Bool-cases,
  inl, inr, true, false, ◌⊎◌,
}
use ort.Core.Suite.Cipher.{CipherSuite, Blake3}
use ort.Core.Pool.{Direction, client_to_server, server_to_client, flip, dir_byte}
use ort.Core.Record.{seal, open_record}
use ort.Proto.Messages.Frames.{
  Frame, client_hello_one_rtt, client_hello_zero_rtt, client_data, server_hello, server_ack,
  data_record, close,
}
use ort.Net.Error.{OrtResult}
use ort.Net.Stream.{Stream}
use ort.Net.Forward.{
  chunk_len, Up, Down, up, up_chunk, read_plain, seal_chunk, write_up, finish_up, down_loop,
  down_frame, read_tunnel, open_chunk, write_plain, finish_down,
}
use ort.Net.Forward.Shared.{Use, seals, use_all}
use ort.Net.Forward.Turns.{
  Phase, awaiting, running, ended, failed, Turn, up_turn, down_turn, phase_of, Joint, of_up,
  of_down, set_down, up_round, down_round, move_up, move_down, is_failed, turn,
}
use ort.Net.Forward.Turns.Rounds.{Holding, Round, Others, IsRun, goes_on as rounds_on}
use ort.Net.Forward.Turns.Pump.{IsStopped, Aside, Advances, IsPump}

flip-flip : (d : Direction) → flip (flip d) ≡ d
unfolding flip
flip-flip client_to_server = refl
flip-flip server_to_client = refl

module _ (S : CipherSuite) (B : Blake3) (I : Stream) (d : Direction) where
  abbrev pub Ends : Type 0
  Ends = I.Reader × I.Writer

  abbrev pub mine : Joint S B I → Phase × Ends
  mine t = (t.down, (t.reader, t.pw))

  abbrev to_down : Holding S B Ends → Down S B I
  to_down v = record { reader = v.0.0; plain = v.0.1; layer = v.1 }

  abbrev from_down : OrtResult (Option (Unit {0})) × Down S B I → Round S B Ends
  from_down (r, s) = (r, ((s.reader, s.plain), s.layer))

  abbrev pub down_rounds : Holding S B Ends → Round S B Ends
  down_rounds v = from_down (down_round S B I d (to_down v))

  -- `down_loop` as a run of rounds.
  abbrev pub down_run : Others S B → ℕ → Holding S B Ends → Round S B Ends
  down_run f n v = from_down (down_loop S B I (flip d) f n (to_down v))

  abbrev Seen : Type 0
  Seen = Phase × Ends

  abbrev seen : OrtResult (Option (Unit {0})) × Down S B I → Seen
  seen (r, s) = (phase_of r, (s.reader, s.plain))

  -- After a round.
  abbrev goes_on : OrtResult (Option (Unit {0})) × Down S B I → (Holding S B Ends → Seen) → Seen
  goes_on x next = rounds_on S B (from_down x) next

  round-frame :
      (others : Others S B) (n : ℕ) (frame : Option Frame) (s : Down S B I)
      → seen (down_frame S B I (flip d) (others n) (down_loop S B I (flip d) others n) frame s)
        ≡ goes_on
            (down_frame S B I
              (flip d)
              (λ l. l)
              (λ v. (ok none, v))
              frame
              (record s { layer = others n s.layer }))
            (λ v. seen (down_loop S B I (flip d) others n (to_down v)))
  unfolding down_frame open_chunk write_plain finish_down
  round-frame others n none s = refl
  round-frame others n (some (data_record dir ct)) s =
      elim (Result-cases (open_record S B (flip d) ct (others n s.layer)).0) [
        | inl (pt, e) ↦ elim (Result-cases (I.write_all pt s.plain).0) [
          | inl (_, k) ↦ rw (e, k) refl
          | inr (_, k) ↦ rw (e, k) refl
        ]
        | inr (_, e) ↦ rw e refl
      ]
  round-frame others n (some close) s = refl
  round-frame others n (some (client_hello_one_rtt suite_id pk)) s = refl
  round-frame others n (some (client_hello_zero_rtt suite_id pk p)) s = refl
  round-frame others n (some (client_data pk p)) s = refl
  round-frame others n (some (server_hello suite_id pk certificate now)) s = refl
  round-frame others n (some (server_ack ek_hash)) s = refl

  round-down :
      (others : Others S B) (n : ℕ) (s : Down S B I)
      → seen (down_loop S B I (flip d) others (suc n) s)
        ≡ goes_on
            (down_round S B I d (record s { layer = others n s.layer }))
            (λ v. seen (down_loop S B I (flip d) others n (to_down v)))
  unfolding down_loop down_round read_tunnel
  round-down others n s = elim (Result-cases (read_tunnel S B I s).0) [
    | inl (frame, e) ↦ rw e (round-frame others n frame (read_tunnel S B I s).1)
    | inr (_, e) ↦ rw e refl
  ]

  pub down_run-IsRun : IsRun S B Ends down_rounds down_run
  unfolding down_loop
  down_run-IsRun = record { start = λ f v. refl; next = λ f n v. round-down f n (to_down v) }

  chunk-layer :
      (chunk : List ℕ) (u : Up S B I)
      → (uses : List Use) × ((up_chunk S B I d (λ l. l) (λ v. (ok none, v)) chunk u).1.layer
          ≡ use_all S B d uses u.layer)
  unfolding up_chunk seal_chunk write_up finish_up
  chunk-layer [] u = ([], refl)
  chunk-layer (b ∷ bs) u =
      let (ct, layer) = seal S B d (b ∷ bs) u.layer in
      let v : Up S B I = record u { layer = layer } in
      (
        seals (b ∷ bs) ∷ [],
        elim (Result-cases (write_up S B I d (data_record (dir_byte d) ct) v).0) [
          | inl (_, e) ↦ rw e refl
          | inr (_, e) ↦ rw e refl
        ],
      )

  up_round-layer :
      (u : Up S B I)
      → (uses : List Use) × ((up_round S B I d u).1.layer
          ≡ use_all S B (flip (flip d)) uses u.layer)
  unfolding up_round up read_plain
  up_round-layer u = elim (Result-cases (I.read chunk_len u.plain).0) [
    | inl (chunk, e) ↦
        let (uses, h) = chunk-layer chunk (record u { plain = (I.read chunk_len u.plain).1 }) in
        (uses, rw e h ∙ ap (λ x. use_all S B x uses u.layer) (sym (flip-flip d)))
    | inr (_, e) ↦ ([], rw e refl)
  ]

  move_up-Aside :
      (p : Phase) (t : Joint S B I) → Aside S B I d (flip d) Ends mine t (move_up S B I d p t)
  unfolding move_up
  move_up-Aside running t =
      let (uses, e) = up_round-layer (of_up S B I t) in
      record { uses = uses; same = refl; layered = e }
  move_up-Aside (awaiting expected) t = record { uses = []; same = refl; layered = refl }
  move_up-Aside ended t = record { uses = []; same = refl; layered = refl }
  move_up-Aside (failed e) t = record { uses = []; same = refl; layered = refl }

  pub turn-Aside : (t : Joint S B I) → Aside S B I d (flip d) Ends mine t (turn S B I d up_turn t)
  unfolding turn
  turn-Aside t = elim (Bool-cases (is_failed t.down)) [
    | inl e ↦ rw e (record { uses = []; same = refl; layered = refl })
    | inr e ↦ rw e (move_up-Aside t.up t)
  ]

  stopped-move_down : (p : Phase) (t : Joint S B I) → IsStopped p → move_down S B I d p t ≡ t
  unfolding move_down
  stopped-move_down (awaiting expected) t h = absurd h
  stopped-move_down running t h = absurd h
  stopped-move_down ended t h = refl
  stopped-move_down (failed e) t h = refl

  stopped-turn : (t : Joint S B I) → IsStopped t.down → turn S B I d down_turn t ≡ t
  unfolding turn
  stopped-turn t h = elim (Bool-cases (is_failed t.up)) [
    | inl e ↦ rw e refl
    | inr e ↦ rw e (stopped-move_down t.down t h)
  ]

  failed-turn : (t : Joint S B I) → is_failed t.up ≡ true → turn S B I d down_turn t ≡ t
  unfolding turn
  failed-turn t e = rw e refl

  running-turn :
      (t : Joint S B I)
      → t.down ≡ running
      → is_failed t.up ≡ false
      → turn S B I d down_turn t ≡ set_down S B I (down_round S B I d (of_down S B I t)) t
  unfolding turn move_down
  running-turn t going e = rw e (ap (λ p. move_down S B I d p t) going)

  stays : (x : Turn) (t : Joint S B I) → IsStopped t.down → mine (turn S B I d x t) ≡ mine t
  stays down_turn t h = ap mine (stopped-turn t h)
  stays up_turn t h = (turn-Aside t).same

  moves :
      (x : Turn) (t : Joint S B I)
      → t.down ≡ running
      → Aside S B I d (flip d) Ends mine t (turn S B I d x t)
        ⊎ Advances S B I d (flip d) Ends mine (down_rounds ((mine t).1, t.layer)) (turn S B I d x t)
  moves down_turn t going = elim (Bool-cases (is_failed t.up)) [
    | inl e ↦
        let same = failed-turn t e in
        inl (record { uses = []; same = ap mine same; layered = ap (λ x. x.layer) same })
    | inr e ↦
        let is = running-turn t going e in
        inr (record { shown = ap mine is; layered = ap (λ x. x.layer) is })
  ]
  moves up_turn t going = inl (turn-Aside t)

  pub down-IsPump : IsPump S B I d (flip d) Ends mine down_rounds
  down-IsPump = record { stays = stays; moves = moves }
