-- ===== src/Net/Forward/Turns/Rounds.antt =====
-- A pump as rounds that share the record layer: what its runs show, whatever the other pump does in
-- between.
use ort.Prelude.{
  ℕ, zero, suc, ◌≡◌, ◌<◌, refl, sym, ap, ◌∙◌, List, [], ◌∷◌, ◌++◌, Option, none, some, ok, err,
  arith, ◌==◌, ==_iff, if◌then◌else◌,
}
use mathlib.Core.Path.{fun_ext}
use ort.Core.Suite.Cipher.{CipherSuite, Blake3}
use ort.Core.Pool.{Direction, flip}
use ort.Core.Record.{RecordLayer}
use ort.Net.Error.{OrtError, OrtResult}
use ort.Net.Forward.Shared.{Use, use_layer, use_all, scheduled}
use ort.Net.Forward.Turns.{Phase, running, ended, failed, phase_of}

-- A schedule with one entry set.
at : ℕ → List Use → (ℕ → List Use) → ℕ → List Use
at k us f j = if j == k then us else f j

at_self : (k : ℕ) (us : List Use) (f : ℕ → List Use) → at k us f k ≡ us
unfolding at
at_self k us f = rw ((==_iff k k).1 refl)

at_below : (k : ℕ) (us : List Use) (f : ℕ → List Use) (j : ℕ) → j < k → at k us f j ≡ f j
unfolding at
at_below k us f j h = ground arith

module _ (S : CipherSuite) (B : Blake3) where
  use_all-append :
      (d : Direction) (us vs : List Use) (l : RecordLayer S B)
      → use_all S B d (us ++ vs) l ≡ use_all S B d vs (use_all S B d us l)
  use_all-append d [] vs l = refl
  use_all-append d (u ∷ us) vs l = use_all-append d us vs (use_layer S B d u l)

  abbrev pub Others : Type 0
  Others = ℕ → RecordLayer S B → RecordLayer S B

  -- The pump's ends of its connections, with the layer.
  abbrev pub Holding : Type 0 → Type 0
  Holding Ends = Ends × RecordLayer S B

  abbrev pub Round : Type 0 → Type 0
  Round Ends = OrtResult (Option (Unit {0})) × Holding Ends

  -- What is seen of a pump from outside: where it is, and its ends.
  abbrev pub seen : {Ends : Type 0} → Round Ends → Phase × Ends
  seen (r, v) = (phase_of r, v.0)

  -- After a round.
  abbrev pub goes_on : {Ends : Type 0} → Round Ends → (Holding Ends → Phase × Ends) → Phase × Ends
  goes_on (ok none, v) next = next v
  goes_on (ok (some _), v) next = (ended, v.0)
  goes_on (err e, v) next = (failed e, v.0)

  -- `run` is rounds, each from the layer that the other pump left.
  pub record IsRun (Ends : Type 0) (round : Holding Ends → Round Ends)
      (run : Others → ℕ → Holding Ends → Round Ends) : Type 0 where
    pub start : (f : Others) (v : Holding Ends) → seen (run f 0 v) ≡ (running, v.0)
    pub next :
        (f : Others) (n : ℕ) (v : Holding Ends)
        → seen (run f (suc n) v) ≡ goes_on (round (v.0, f n v.1)) (λ w. seen (run f n w))

  module _ (d : Direction) (Ends : Type 0) (round : Holding Ends → Round Ends)
      (run : Others → ℕ → Holding Ends → Round Ends) (is : IsRun Ends round run) where
    -- Only the rounds that are left count.
    run-agree :
        (f g : Others) (n : ℕ) (v : Holding Ends)
        → ((k : ℕ) → k < n → f k ≡ g k)
        → seen (run f n v) ≡ seen (run g n v)
    run-agree f g zero v h = is.start f v ∙ sym (is.start g v)
    run-agree f g (suc n) v h =
        is.next f n v
        ∙ ap (λ x. goes_on (round (v.0, x v.1)) (λ w. seen (run f n w))) (h n (omega arith))
        ∙ ap (goes_on (round (v.0, g n v.1)))
            (fun_ext (λ w. run-agree f g n w (λ k below. h k (omega arith))))
        ∙ sym (is.next g n v)

    -- A run whose first round comes after `us`.
    first-round :
        (n : ℕ) (us : List Use) (uses : ℕ → List Use) (v : Holding Ends)
        → seen (run (scheduled S B d (at n us uses)) (suc n) v)
          ≡ goes_on
              (round (v.0, use_all S B (flip d) us v.1))
              (λ w. seen (run (scheduled S B d uses) n w))
    first-round n us uses v =
        is.next (scheduled S B d (at n us uses)) n v
        ∙ ap
            (λ x.
              goes_on (round (v.0, use_all S B (flip d) x v.1))
                (λ w. seen (run (scheduled S B d (at n us uses)) n w)))
            (at_self n us uses)
        ∙ ap (goes_on (round (v.0, use_all S B (flip d) us v.1))) (
            fun_ext (λ w.
              run-agree _ _ n w
                (λ k below. ap (λ x l. use_all S B (flip d) x l) (at_below n us uses k below))))

    -- A run from `v` shows `s`, for some number of rounds and some schedule of the other pump.
    abbrev pub Shows : Holding Ends → Phase × Ends → Type 0
    Shows v s = (n : ℕ) × (uses : ℕ → List Use) × (seen (run (scheduled S B d uses) n v) ≡ s)

    pub at_start : (v : Holding Ends) → Shows v (running, v.0)
    at_start v = (0, λ _. [], is.start _ v)

    -- Before a run comes what the other pump did.
    pub before-Shows :
        (us : List Use) (v : Holding Ends) (s : Phase × Ends)
        → Shows (v.0, use_all S B (flip d) us v.1) s
        → Shows v s
    before-Shows us v s (zero, uses, h) =
        (zero, uses, is.start _ v ∙ sym (is.start _ (v.0, use_all S B (flip d) us v.1)) ∙ h)
    before-Shows us v s (suc k, uses, h) = (
      suc k,
      at k (us ++ uses k) uses,
      first-round k (us ++ uses k) uses v
          ∙ ap (λ l. goes_on (round (v.0, l)) (λ w. seen (run (scheduled S B d uses) k w)))
              (use_all-append (flip d) us (uses k) v.1)
          ∙ sym (is.next (scheduled S B d uses) k (v.0, use_all S B (flip d) us v.1))
          ∙ h,
    )

    pub round-Shows :
        (v w : Holding Ends) (s : Phase × Ends) → round v ≡ (ok none, w) → Shows w s → Shows v s
    round-Shows v w s e (n, uses, h) = (
      suc n,
      at n [] uses,
      first-round n [] uses v
          ∙ ap (λ x. goes_on x (λ w. seen (run (scheduled S B d uses) n w))) e
          ∙ h,
    )

    pub ends-Shows : (v w : Holding Ends) → round v ≡ (ok (some tt), w) → Shows v (ended, w.0)
    ends-Shows v w e = (
      1,
      λ _. [],
      is.next (scheduled S B d (λ _. [])) 0 v
          ∙ ap (λ x. goes_on x (λ w. seen (run (scheduled S B d (λ _. [])) 0 w))) e,
    )

    pub fails-Shows :
        (v w : Holding Ends) (x : OrtError) → round v ≡ (err x, w) → Shows v (failed x, w.0)
    fails-Shows v w x e = (
      1,
      λ _. [],
      is.next (scheduled S B d (λ _. [])) 0 v
          ∙ ap (λ x. goes_on x (λ w. seen (run (scheduled S B d (λ _. [])) 0 w))) e,
    )
