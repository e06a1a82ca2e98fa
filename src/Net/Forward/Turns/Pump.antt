-- ===== src/Net/Forward/Turns/Pump.antt =====
-- One of the two pumps among the turns of both.
use ort.Prelude.{ℕ, ◌≡◌, refl, sym, ap, ◌∙◌, List, [], ◌∷◌, none, some, ok, err, ◌⊎◌, inl, inr}
use mathlib.Core.Path.{subst}
use ort.Core.Suite.Cipher.{CipherSuite, Blake3}
use ort.Core.Pool.{Direction, flip}
use ort.Net.Stream.{Stream}
use ort.Net.Forward.Shared.{Use, use_all}
use ort.Net.Forward.Turns.{
  Phase, awaiting, running, ended, failed, Turn, phase_of, Joint, turn, turns,
}
use ort.Net.Forward.Turns.Rounds.{
  Holding, Round, Others, IsRun, Shows, at_start, before-Shows, round-Shows, ends-Shows,
  fails-Shows,
}

abbrev pub IsStopped : Phase → Type 0
IsStopped (awaiting expected) = ⊥
IsStopped running = ⊥
IsStopped ended = Unit
IsStopped (failed e) = Unit

module _ (S : CipherSuite) (B : Blake3) (I : Stream) (send_dir d : Direction) (Ends : Type 0)
    (mine : Joint S B I → Phase × Ends) where
  -- What a turn of the other pump does.
  pub record Aside (t t1 : Joint S B I) : Type 0 where
    pub uses : List Use
    pub same : mine t1 ≡ mine t
    pub layered : t1.layer ≡ use_all S B (flip d) uses t.layer

  -- A round leads to `t1`.
  pub record Advances (r : Round S B Ends) (t1 : Joint S B I) : Type 0 where
    pub shown : mine t1 ≡ (phase_of r.0, r.1.0)
    pub layered : t1.layer ≡ r.1.1

  abbrev pub holding : Joint S B I → Holding S B Ends
  holding t = ((mine t).1, t.layer)

  pub record IsPump (round : Holding S B Ends → Round S B Ends) : Type 0 where
    pub stays :
        (x : Turn) (t : Joint S B I)
        → IsStopped (mine t).0
        → mine (turn S B I send_dir x t) ≡ mine t
    pub moves :
        (x : Turn) (t : Joint S B I)
        → (mine t).0 ≡ running
        → Aside t (turn S B I send_dir x t) ⊎ Advances (round (holding t)) (turn S B I send_dir x t)

  module _ (round : Holding S B Ends → Round S B Ends)
      (run : Others S B → ℕ → Holding S B Ends → Round S B Ends) (is : IsRun S B Ends round run)
      (pump : IsPump round) where
    abbrev pub Follows : Joint S B I → Joint S B I → Type 0
    Follows t t' = Shows S B d Ends round run is (holding t) (mine t')

    stopped-turns :
        (ts : List Turn) (t : Joint S B I)
        → IsStopped (mine t).0
        → mine (turns S B I send_dir ts t) ≡ mine t
    unfolding turns
    stopped-turns [] t h = refl
    stopped-turns (x ∷ ts) t h =
        let same = pump.stays x t h in
        stopped-turns ts (turn S B I send_dir x t) (subst (λ m. IsStopped m.0) (sym same) h) ∙ same

    pub Aside-Follows : (t t1 t' : Joint S B I) → Aside t t1 → Follows t1 t' → Follows t t'
    Aside-Follows t t1 t' a h =
        let from : holding t1 ≡ ((mine t).1, use_all S B (flip d) a.uses t.layer) =
          λ i. ((a.same i).1, a.layered i) in
        before-Shows S B d Ends round run is a.uses (holding t) (mine t')
          (subst (λ v. Shows S B d Ends round run is v (mine t')) from h)

    Advances-Follows :
        (ts : List Turn) (t t1 : Joint S B I) (r : Round S B Ends)
        → round (holding t) ≡ r
        → Advances r t1
        → ((mine t1).0 ≡ running → Follows t1 (turns S B I send_dir ts t1))
        → Follows t (turns S B I send_dir ts t1)
    Advances-Follows ts t t1 (ok none, w) e a ih =
        let from : holding t1 ≡ w = λ i. ((a.shown i).1, a.layered i) in
        round-Shows S B d Ends round run is (holding t) w _ e (
          subst (λ v. Shows S B d Ends round run is v (mine (turns S B I send_dir ts t1))) from
            (ih (ap (λ m. m.0) a.shown)))
    Advances-Follows ts t t1 (ok (some _), w) e a ih =
        subst (Shows S B d Ends round run is (holding t))
          (sym (stopped-turns ts t1 (subst (λ m. IsStopped m.0) (sym a.shown) tt) ∙ a.shown))
          (ends-Shows S B d Ends round run is (holding t) w e)
    Advances-Follows ts t t1 (err x, w) e a ih =
        subst (Shows S B d Ends round run is (holding t))
          (sym (stopped-turns ts t1 (subst (λ m. IsStopped m.0) (sym a.shown) tt) ∙ a.shown))
          (fails-Shows S B d Ends round run is (holding t) w x e)

    pub turns-Follows :
        (ts : List Turn) (t : Joint S B I)
        → (mine t).0 ≡ running
        → Follows t (turns S B I send_dir ts t)
    unfolding turns
    turns-Follows [] t going =
        subst (Shows S B d Ends round run is (holding t)) (λ i. (sym going i, (mine t).1))
          (at_start S B d Ends round run is (holding t))
    turns-Follows (x ∷ ts) t going =
        let t1 = turn S B I send_dir x t in
        elim (pump.moves x t going) [
          | inl a ↦
              Aside-Follows t t1 (turns S B I send_dir ts t1) a
                (turns-Follows ts t1 (ap (λ m. m.0) a.same ∙ going))
          | inr a ↦ Advances-Follows ts t t1 _ refl a (turns-Follows ts t1)
        ]
