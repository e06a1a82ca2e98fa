-- ===== src/Core/Record/Tunnel/Fifo.antt =====
-- The tunnel is two first-in-first-out queues of plaintext blocks.
use ort.Prelude.{ℕ, ◌≡◌, refl, sym, ap, ◌∙◌, List, [], ◌∷◌, ◌++◌, append_assoc, ok, length, suc}
use mathlib.Core.Path.{ap₂}
use ort.Core.Suite.Cipher.{CipherSuite, Blake3, IsCorrect}
use ort.Core.Kdf.{SessionKeys}
use ort.Core.Pool.{Direction, client_to_server, server_to_client, flip, DirPool, dir_pool}
use ort.Core.Pool.Directions.{dir_pool-set_self, dir_pool-set_flip}
use ort.Core.Record.{RecordLayer}
use ort.Core.Record.OneDirection.{
  seal_dir, open_dir, with_dir, seal-seal_dir, open-open_dir, open-seal_dir, seal_all,
  seal_all-append,
}
use ort.Core.Record.Peers.{InStep}
use ort.Core.Record.Tunnel.{
  Flow, Event, send, deliver, Tunnel, start, idle, sends, takes, delivers, step, run,
}

-- No record was refused; what was delivered is what was sent, in order and without a gap, up to
-- the blocks behind the records that are still on the wire, one for each.
abbrev pub IsFifo : Flow → Type 0
IsFifo f =
    (pending : List (List ℕ)) × (f.sent ≡ f.delivered ++ pending)
    × (length pending ≡ length f.wire)
    × (f.refused ≡ [])

module _ (S : CipherSuite) (B : Blake3) where
  -- `pending` are the blocks behind the records on the wire. Sealing them from where the receiver
  -- stands gives the wire, and ends where the sender stands.
  pub record Carries (d : Direction) (from to : RecordLayer S B) (f : Flow)
      (pending : List (List ℕ)) : Type 0 where
    pub key : from.keys.enc_key ≡ to.keys.enc_key
    pub wire : (seal_all S B to.keys.enc_key d pending (dir_pool B d to.pool)).0 ≡ f.wire
    pub pool :
        (seal_all S B to.keys.enc_key d pending (dir_pool B d to.pool)).1 ≡ dir_pool B d from.pool
    pub kept : f.sent ≡ f.delivered ++ pending
    pub opened : f.refused ≡ []

  abbrev IsCarrying : Direction → RecordLayer S B → RecordLayer S B → Flow → Type 0
  IsCarrying d from to f = (pending : List (List ℕ)) × Carries d from to f pending

  sends-Carries :
      (d : Direction) (from to : RecordLayer S B) (f : Flow) (pending : List (List ℕ)) (pt : List ℕ)
      → Carries d from to f pending
      → Carries d (sends S B d pt from f).0 to (sends S B d pt from f).1 (pending ++ (pt ∷ []))
  unfolding sends
  sends-Carries d from to f pending pt h =
      let p = dir_pool B d from.pool in
      let all = seal_all S B to.keys.enc_key d pending (dir_pool B d to.pool) in
      let (ct, p') = seal_dir S B from.keys.enc_key d pt p in
      let same : seal_dir S B to.keys.enc_key d pt all.1 ≡ (ct, p') =
        ap₂ (λ k q. seal_dir S B k d pt q) (sym h.key) h.pool in
      let append = seal_all-append S B to.keys.enc_key d pending pt (dir_pool B d to.pool) in
      rw seal-seal_dir (record {
        key = h.key;
        wire = ap (λ x. x.0) append ∙ ap₂ (λ w x. w ++ (x.0 ∷ [])) h.wire same;
        pool = ap (λ x. x.1) append ∙ ap (λ x. x.1) same ∙ sym (dir_pool-set_self B d p' from.pool);
        kept = ap (λ x. x ++ (pt ∷ [])) h.kept ∙ append_assoc f.delivered pending (pt ∷ []);
        opened = h.opened;
      })

  delivers_opened :
      (d : Direction) (to : RecordLayer S B) (f : Flow) (ct pt : List ℕ) (rest : List (List ℕ))
      (p : DirPool B)
      → f.wire ≡ ct ∷ rest
      → open_dir S B to.keys.enc_key d ct (dir_pool B d to.pool) ≡ (ok pt, p)
      → delivers S B d to f
        ≡ (with_dir S B d p to, record f { wire = rest; delivered = f.delivered ++ (pt ∷ []) })
  unfolding delivers
  delivers_opened d to f ct pt rest p e opens =
      ap (λ w. takes S B d to f w) e ∙ rw (open-open_dir, opens)

  delivers-Carries :
      (c : IsCorrect S) (d : Direction) (from to : RecordLayer S B) (f : Flow) (pt : List ℕ)
      (pending : List (List ℕ))
      → Carries d from to f (pt ∷ pending)
      → Carries d from (delivers S B d to f).0 (delivers S B d to f).1 pending
  unfolding seal_all
  delivers-Carries c d from to f pt pending h =
      let key = to.keys.enc_key in
      let (ct, p) = seal_dir S B key d pt (dir_pool B d to.pool) in
      let rest = (seal_all S B key d pending p).0 in
      let there = dir_pool-set_self B d p to.pool in
      rw
        (delivers_opened d to f ct pt rest p (sym h.wire)
          (open-seal_dir S B c key d pt (dir_pool B d to.pool)))
        (record {
          key = h.key;
          wire = ap (λ q. (seal_all S B key d pending q).0) there;
          pool = ap (λ q. (seal_all S B key d pending q).1) there ∙ h.pool;
          kept = h.kept ∙ sym (append_assoc f.delivered (pt ∷ []) pending);
          opened = h.opened;
        })

  delivers_nothing :
      (d : Direction) (from to : RecordLayer S B) (f : Flow)
      → Carries d from to f []
      → delivers S B d to f ≡ (to, f)
  unfolding delivers seal_all
  delivers_nothing d from to f h = ap (λ w. takes S B d to f w) (sym h.wire)

  delivers-IsCarrying :
      (c : IsCorrect S) (d : Direction) (from to : RecordLayer S B) (f : Flow)
      → IsCarrying d from to f
      → IsCarrying d from (delivers S B d to f).0 (delivers S B d to f).1
  delivers-IsCarrying c d from to f ([], h) = rw (delivers_nothing d from to f h) ([], h)
  delivers-IsCarrying c d from to f (pt ∷ pending, h) =
      (pending, delivers-Carries c d from to f pt pending h)

  -- What happens in one direction leaves the other as it was.
  sends_other :
      (d : Direction) (pt : List ℕ) (l : RecordLayer S B) (f : Flow)
      → ((sends S B d pt l f).0.keys ≡ l.keys)
        × (dir_pool B (flip d) (sends S B d pt l f).0.pool ≡ dir_pool B (flip d) l.pool)
  unfolding sends
  sends_other d pt l f = rw seal-seal_dir (refl, dir_pool-set_flip B d _ l.pool)

  delivers_other :
      (d : Direction) (l : RecordLayer S B) (f : Flow)
      → ((delivers S B d l f).0.keys ≡ l.keys)
        × (dir_pool B (flip d) (delivers S B d l f).0.pool ≡ dir_pool B (flip d) l.pool)
  unfolding delivers
  delivers_other d l f = go f.wire
    where
      go :
          (w : List (List ℕ))
          → ((takes S B d l f w).0.keys ≡ l.keys)
            × (dir_pool B (flip d) (takes S B d l f w).0.pool ≡ dir_pool B (flip d) l.pool)
      go [] = (refl, refl)
      go (ct ∷ w) = rw open-open_dir (refl, dir_pool-set_flip B d _ l.pool)

  -- Only the keys and this direction's pools of the two layers matter.
  IsCarrying-same :
      (d : Direction) (from from' to to' : RecordLayer S B) (f : Flow)
      → from'.keys ≡ from.keys
      → to'.keys ≡ to.keys
      → dir_pool B d from'.pool ≡ dir_pool B d from.pool
      → dir_pool B d to'.pool ≡ dir_pool B d to.pool
      → IsCarrying d from to f
      → IsCarrying d from' to' f
  IsCarrying-same d from from' to to' f kf kt pf pt (pending, h) =
      let all = λ (k : SessionKeys) (p : DirPool B). seal_all S B k.enc_key d pending p in
      (
        pending,
        record {
          key = ap (λ k. k.enc_key) kf ∙ h.key ∙ ap (λ k. k.enc_key) (sym kt);
          wire = ap₂ (λ k p. (all k p).0) kt pt ∙ h.wire;
          pool = ap₂ (λ k p. (all k p).1) kt pt ∙ h.pool ∙ sym pf;
          kept = h.kept;
          opened = h.opened;
        },
      )

  abbrev IsTunnel : Tunnel S B → Type 0
  IsTunnel t =
      IsCarrying client_to_server t.client t.server t.c2s
      × IsCarrying server_to_client t.server t.client t.s2c

  sends-IsCarrying :
      (d : Direction) (pt : List ℕ) (from to : RecordLayer S B) (f : Flow)
      → IsCarrying d from to f
      → IsCarrying d (sends S B d pt from f).0 to (sends S B d pt from f).1
  sends-IsCarrying d pt from to f (pending, h) =
      (pending ++ (pt ∷ []), sends-Carries d from to f pending pt h)

  step-IsTunnel :
      (c : IsCorrect S) (t : Tunnel S B) (e : Event) → IsTunnel t → IsTunnel (step S B t e)
  unfolding step flip
  step-IsTunnel c t (send client_to_server pt) (up, down) =
      let (k, p) = sends_other client_to_server pt t.client t.c2s in
      (
        sends-IsCarrying client_to_server pt t.client t.server t.c2s up,
        IsCarrying-same server_to_client _ _ _ _ t.s2c refl k refl p down,
      )
  step-IsTunnel c t (send server_to_client pt) (up, down) =
      let (k, p) = sends_other server_to_client pt t.server t.s2c in
      (
        IsCarrying-same client_to_server _ _ _ _ t.c2s refl k refl p up,
        sends-IsCarrying server_to_client pt t.server t.client t.s2c down,
      )
  step-IsTunnel c t (deliver client_to_server) (up, down) =
      let (k, p) = delivers_other client_to_server t.server t.c2s in
      (
        delivers-IsCarrying c client_to_server t.client t.server t.c2s up,
        IsCarrying-same server_to_client _ _ _ _ t.s2c k refl p refl down,
      )
  step-IsTunnel c t (deliver server_to_client) (up, down) =
      let (k, p) = delivers_other server_to_client t.client t.s2c in
      (
        IsCarrying-same client_to_server _ _ _ _ t.c2s k refl p refl up,
        delivers-IsCarrying c server_to_client t.server t.client t.s2c down,
      )

  run-IsTunnel :
      (c : IsCorrect S) (t : Tunnel S B) (es : List Event) → IsTunnel t → IsTunnel (run S B t es)
  unfolding run
  run-IsTunnel c t [] h = h
  run-IsTunnel c t (e ∷ es) h = run-IsTunnel c (step S B t e) es (step-IsTunnel c t e h)

  InStep-IsCarrying :
      (d : Direction) (a b : RecordLayer S B) → InStep S B d a b → IsCarrying d a b idle
  unfolding seal_all
  InStep-IsCarrying d a b h =
      ([], record { key = h.key; wire = refl; pool = sym h.pool; kept = refl; opened = refl })

  length-seal_all :
      (key : List ℕ) (d : Direction) (pts : List (List ℕ)) (p : DirPool B)
      → length (seal_all S B key d pts p).0 ≡ length pts
  unfolding seal_all
  length-seal_all key d [] p = refl
  length-seal_all key d (pt ∷ pts) p = ap suc (length-seal_all key d pts _)

  IsCarrying-IsFifo :
      (d : Direction) (a b : RecordLayer S B) (f : Flow) → IsCarrying d a b f → IsFifo f
  IsCarrying-IsFifo d a b f (pending, h) = (
    pending,
    h.kept,
    sym (length-seal_all b.keys.enc_key d pending (dir_pool B d b.pool)) ∙ ap length h.wire,
    h.opened,
  )

  -- Two layers that start in step in both directions carry two first-in-first-out streams, whatever
  -- the peers send and in whatever order records are sealed and opened.
  pub run-IsFifo :
      (c : IsCorrect S) (client server : RecordLayer S B) (es : List Event)
      → InStep S B client_to_server client server
      → InStep S B server_to_client server client
      → IsFifo (run S B (start S B client server) es).c2s
        × IsFifo (run S B (start S B client server) es).s2c
  run-IsFifo c client server es up down =
      let (u, d) = run-IsTunnel c (start S B client server) es (
        InStep-IsCarrying client_to_server client server up,
        InStep-IsCarrying server_to_client server client down,
      ) in
      (IsCarrying-IsFifo _ _ _ _ u, IsCarrying-IsFifo _ _ _ _ d)
