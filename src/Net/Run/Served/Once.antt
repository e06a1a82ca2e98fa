-- ===== src/Net/Run/Served/Once.antt =====
-- No payload establishes two sessions.
use ort.Prelude.{
  ℕ, ◌+◌, ◌≡◌, ◌≢◌, ◌≤◌, refl, ap, ◌∙◌, List, [], ◌∷◌, ◌++◌, ok, All, All-imp, IsU64, arith,
}
use mathlib.Core.Path.{subst}
use ort.Core.Suite.Cipher.{CipherSuite, Blake3}
use ort.Core.Replay
use ort.Core.Replay.{StrikeCache, replay_tag, check_and_insert}
use ort.Core.Replay.Strikes.{Remembers}
use ort.Core.Handshake.Server.{
  ServerConfig, ServerEstablished, process_payload, server_on_first, server_on_client_data,
  check_suite,
}
use ort.Proto.Messages.Payload.{KemPayload}
use ort.Net.Run.Served.{
  Acceptance, Serving, start, Step, tick, established, greeted, refused, followed, dismissed, left,
  Steps, here, then,
}
use ort.Net.Run.Served.Keeps.{
  tag, Keeps, process_payload-Keeps, server_on_first-Keeps, server_on_client_data-Keeps,
  accepted_once, made_from, behind_check,
}

module _ (S : CipherSuite) (B : Blake3) (cfg : ServerConfig S) where
  -- No payload whose timestamp was not ahead of the clock when it was accepted stands again later in
  -- the log.
  abbrev pub Once : List Acceptance → Type 0
  Once [] = Unit
  Once (a ∷ olds) =
      All (λ (old : Acceptance). old.payload.ts_millis ≤ old.at → old.payload ≢ a.payload) olds
      × Once olds

  abbrev Guards : StrikeCache → ℕ → Acceptance → Type 0
  Guards s now a = now ≤ a.at + cfg.window_ms → Remembers (tag S B cfg a.payload) a.at s

  record IsGuarded (t : Serving) : Type 0 where
    window : t.strike.window_ms ≡ cfg.window_ms
    guards : All (Guards t.strike t.now) t.accepted
    once : Once t.accepted

  -- A task's turn in which nothing is accepted.
  turn-IsGuarded :
      (t : Serving) (s' : StrikeCache) (waiting' : List (List ℕ))
      → Keeps S B cfg t.now t.strike s'
      → IsGuarded t
      → IsGuarded (record t { strike = s'; waiting = waiting' })
  turn-IsGuarded t s' waiting' (window, keeps) g = record {
    window = window ∙ g.window;
    guards =
        All-imp _ t.accepted (λ a old h. keeps (tag S B cfg a.payload) a.at (rw g.window h) (old h))
          g.guards;
    once = g.once;
  }

  accept-IsGuarded :
      (t : Serving) (s' : StrikeCache) (waiting' : List (List ℕ)) (client_pk : List ℕ)
      (p : KemPayload) (peer_ip : List ℕ) (est : ServerEstablished S B)
      → IsU64 p.ts_millis
      → process_payload S B cfg client_pk p peer_ip t.now t.strike ≡ (ok est, s')
      → IsGuarded t
      → IsGuarded (record t {
        strike = s';
        waiting = waiting';
        accepted = record { payload = p; at = t.now } ∷ t.accepted;
      })
  accept-IsGuarded t s' waiting' client_pk p peer_ip est word h g =
      let (remembered, unseen, late) =
        accepted_once S B cfg client_pk p peer_ip t.now t.strike s' est h in
      let keeps =
        subst (Keeps S B cfg t.now t.strike) (ap (λ x. x.1) h)
          (process_payload-Keeps S B cfg client_pk p peer_ip t.now t.strike) in
      let kept = turn-IsGuarded t s' waiting' keeps g in
      record {
        window = kept.window;
        guards = (λ _. remembered, kept.guards);
        once = (
          All-imp _ t.accepted
              (λ old guard past same.
                let recent : t.now ≤ old.at + cfg.window_ms =
                  omega (arith, late word, ap (λ (x : KemPayload). x.ts_millis) same) in
                unseen old.at (rw g.window recent)
                  (subst (λ x. Remembers (tag S B cfg x) old.at t.strike) same (guard recent)))
              g.guards,
          g.once,
        );
      }

  Step-IsGuarded : {t u : Serving} → Step S B cfg t u → IsGuarded t → IsGuarded u
  unfolding server_on_first server_on_client_data
  Step-IsGuarded (tick t later forward) g = record {
    window = g.window;
    guards = All-imp _ t.accepted (λ a old h. old (omega arith)) g.guards;
    once = g.once;
  }
  Step-IsGuarded (established t suite_id client_pk p peer_ip ack est strike word h) g =
      let (est', e) =
        made_from (process_payload S B cfg client_pk p peer_ip t.now t.strike) _ t.strike
          (behind_check (check_suite suite_id) _ t.strike h) in
      accept-IsGuarded t strike t.waiting client_pk p peer_ip est' word e g
  Step-IsGuarded (greeted t frame peer_ip hello strike h) g =
      turn-IsGuarded t strike (peer_ip ∷ t.waiting)
        (subst (Keeps S B cfg t.now t.strike) (ap (λ x. x.1) h)
          (server_on_first-Keeps S B cfg frame peer_ip t.now t.strike))
        g
  Step-IsGuarded (refused t frame peer_ip e strike h) g =
      turn-IsGuarded t strike t.waiting
        (subst (Keeps S B cfg t.now t.strike) (ap (λ x. x.1) h)
          (server_on_first-Keeps S B cfg frame peer_ip t.now t.strike))
        g
  Step-IsGuarded (followed t older newer peer_ip client_pk p est strike is word h) g =
      accept-IsGuarded t strike (newer ++ older) client_pk p peer_ip est word h g
  Step-IsGuarded (dismissed t older newer peer_ip frame e strike is h) g =
      turn-IsGuarded t strike (newer ++ older)
        (subst (Keeps S B cfg t.now t.strike) (ap (λ x. x.1) h)
          (server_on_client_data-Keeps S B cfg frame peer_ip t.now t.strike))
        g
  Step-IsGuarded (left t older newer peer_ip is) g = record {
    window = g.window;
    guards = g.guards;
    once = g.once;
  }

  Steps-IsGuarded : {t u : Serving} → IsGuarded t → Steps S B cfg t u → IsGuarded u
  Steps-IsGuarded g (here t) = g
  Steps-IsGuarded g (then t u v steps step) = Step-IsGuarded step (Steps-IsGuarded g steps)

  -- However the server's tasks interleave from its start, whatever frames come from whatever
  -- addresses and however long the tasks take, no payload whose timestamp was not ahead of the clock
  -- when a session was established from it establishes another one. The clock does not go back.
  pub served-Once : (now : ℕ) (t : Serving) → Steps S B cfg (start S B cfg now) t → Once t.accepted
  unfolding Replay.new
  served-Once now t steps =
      (Steps-IsGuarded {t = start S B cfg now} (record { window = refl; guards = tt; once = tt })
        steps).once
