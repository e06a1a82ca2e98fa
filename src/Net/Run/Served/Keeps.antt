-- ===== src/Net/Run/Served/Keeps.antt =====
-- What the handlers do to the strike cache.
use ort.Prelude.{ℕ, ◌+◌, ◌≡◌, ◌≤◌, refl, sym, ap, ◌∙◌, List, ok, err, IsU64}
use mathlib.Core.Path.{subst}
use ort.Core.Error.{CoreResult}
use ort.Core.Suite.Cipher.{CipherSuite, Blake3}
use ort.Core.Time.{check_window_iff}
use ort.Core.Replay.{StrikeCache, replay_tag, check_and_insert}
use ort.Core.Replay.Strikes.{Remembers, check_and_insert_remembered, accepted-Remembers}
use ort.Core.Handshake.Handler.{Handler, ◌>>◌, ◌>>=◌, lift}
use ort.Core.Handshake.Server.{
  ServerConfig, ServerEstablished, process_payload, server_on_first, server_on_client_data,
  check_suite,
}
use ort.Core.Handshake.Checks.{process_payload-IsAccepted, IsAccepted-process_payload}
use ort.Core.Handshake.ReplayWindow.{Request, after, after-Remembers, window-after}
use ort.Proto.Messages.Payload.{KemPayload}
use ort.Proto.Messages.Frames.{
  Frame, client_hello_one_rtt, server_hello, client_data, client_hello_zero_rtt, server_ack,
  data_record, close,
}

-- What an answer that was made from a session says of the session.
pub made_from :
    {A C : Type 0} (r : CoreResult A × StrikeCache) (f : A → C) (s : StrikeCache) {c : C}
    {s' : StrikeCache}
    → ((λ _. r) >>= λ a. lift (ok (f a))) s ≡ (ok c, s')
    → (a : A) × (r ≡ (ok a, s'))
made_from (ok a, s1) f s h = (a, λ i. (ok a, (h i).1))
made_from (err e, s1) f s h = absurd (cc (ap (λ x. x.0) h))

pub behind_check :
    {C : Type 0} (a : CoreResult (Unit {0})) (m : Handler C) (s : StrikeCache) {c : C}
    {s' : StrikeCache}
    → (lift a >> m) s ≡ (ok c, s')
    → m s ≡ (ok c, s')
behind_check (ok _) m s h = h
behind_check (err e) m s h = absurd (cc (ap (λ x. x.0) h))

module _ (S : CipherSuite) (B : Blake3) (cfg : ServerConfig S) where
  abbrev pub tag : KemPayload → List ℕ
  tag p = replay_tag S p.nonce p.enc_data

  -- A task's turn keeps what the cache remembers, and the cache's window.
  abbrev pub Keeps : ℕ → StrikeCache → StrikeCache → Type 0
  Keeps now s s' =
      (s'.window_ms ≡ s.window_ms)
      × ((t : List ℕ) (at : ℕ) → now ≤ at + s.window_ms → Remembers t at s → Remembers t at s')

  pub process_payload-Keeps :
      (client_pk : List ℕ) (p : KemPayload) (peer_ip : List ℕ) (now : ℕ) (s : StrikeCache)
      → Keeps now s (process_payload S B cfg client_pk p peer_ip now s).1
  unfolding after
  process_payload-Keeps client_pk p peer_ip now s =
      let q : Request = record {
        client_pk = client_pk;
        payload = p;
        peer_ip = peer_ip;
        now = now;
      } in
      (window-after S B cfg q s, λ t at h r. (after-Remembers S B cfg t at q s h r).0)

  -- A check before a handler, or a value made behind it, adds nothing to what it does to the cache.
  checked :
      {A : Type 0} (now : ℕ) (s : StrikeCache) (a : CoreResult (Unit {0})) (m : Handler A)
      → Keeps now s (m s).1
      → Keeps now s ((lift a >> m) s).1
  checked now s (ok _) m h = h
  checked now s (err e) m h = (refl, λ t at k r. r)

  mapped :
      {A C : Type 0} (now : ℕ) (s : StrikeCache) (r : CoreResult A × StrikeCache) (f : A → C)
      → Keeps now s r.1
      → Keeps now s (((λ _. r) >>= λ a. lift (ok (f a))) s).1
  mapped now s (ok a, s') f h = h
  mapped now s (err e, s') f h = h

  pub server_on_first-Keeps :
      (frame : Frame) (peer_ip : List ℕ) (now : ℕ) (s : StrikeCache)
      → Keeps now s (server_on_first S B cfg frame peer_ip now s).1
  unfolding server_on_first
  server_on_first-Keeps (client_hello_one_rtt suite_id client_pk) peer_ip now s =
      checked now s (check_suite suite_id) _ (refl, λ t at h r. r)
  server_on_first-Keeps (client_hello_zero_rtt suite_id client_pk p) peer_ip now s =
      checked now s (check_suite suite_id) _ (
        mapped now s (process_payload S B cfg client_pk p peer_ip now s) _
          (process_payload-Keeps client_pk p peer_ip now s))
  server_on_first-Keeps (client_data client_pk p) peer_ip now s = (refl, λ t at h r. r)
  server_on_first-Keeps (server_hello suite_id pk certificate at) peer_ip now s =
      (refl, λ t at h r. r)
  server_on_first-Keeps (server_ack ek_hash) peer_ip now s = (refl, λ t at h r. r)
  server_on_first-Keeps (data_record dir ct) peer_ip now s = (refl, λ t at h r. r)
  server_on_first-Keeps close peer_ip now s = (refl, λ t at h r. r)

  pub server_on_client_data-Keeps :
      (frame : Frame) (peer_ip : List ℕ) (now : ℕ) (s : StrikeCache)
      → Keeps now s (server_on_client_data S B cfg frame peer_ip now s).1
  unfolding server_on_client_data
  server_on_client_data-Keeps (client_data client_pk p) peer_ip now s =
      process_payload-Keeps client_pk p peer_ip now s
  server_on_client_data-Keeps (client_hello_one_rtt suite_id client_pk) peer_ip now s =
      (refl, λ t at h r. r)
  server_on_client_data-Keeps (client_hello_zero_rtt suite_id client_pk p) peer_ip now s =
      (refl, λ t at h r. r)
  server_on_client_data-Keeps (server_hello suite_id pk certificate at) peer_ip now s =
      (refl, λ t at h r. r)
  server_on_client_data-Keeps (server_ack ek_hash) peer_ip now s = (refl, λ t at h r. r)
  server_on_client_data-Keeps (data_record dir ct) peer_ip now s = (refl, λ t at h r. r)
  server_on_client_data-Keeps close peer_ip now s = (refl, λ t at h r. r)

  -- An accepted payload is remembered, and is not one that the cache remembers from within the
  -- window.
  pub accepted_once :
      (client_pk : List ℕ) (p : KemPayload) (peer_ip : List ℕ) (now : ℕ) (s s' : StrikeCache)
      (est : ServerEstablished S B)
      → process_payload S B cfg client_pk p peer_ip now s ≡ (ok est, s')
      → Remembers (tag p) now s'
        × ((at : ℕ) → now ≤ at + s.window_ms → ¬ Remembers (tag p) at s)
        × (IsU64 p.ts_millis → now ≤ p.ts_millis + cfg.window_ms)
  accepted_once client_pk p peer_ip now s s' est h =
      let is = process_payload-IsAccepted S B cfg client_pk p peer_ip now s est (ap (λ x. x.0) h) in
      let same : (check_and_insert (tag p) now s).1 ≡ s' =
        sym (ap (λ x. x.1) (IsAccepted-process_payload S B cfg client_pk p peer_ip now s est is))
        ∙ ap (λ x. x.1) h in
      (
        subst (Remembers (tag p) now) same (accepted-Remembers (tag p) now s is.unseen),
        λ at h r. cc (check_and_insert_remembered (tag p) at now s h r, is.unseen),
        λ word.
            ((check_window_iff now p.ts_millis cfg.window_ms cfg.skew_ms word).0 is.in_window).1,
      )
