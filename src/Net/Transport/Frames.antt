-- ===== src/Net/Transport/Frames.antt =====
-- Frames arrive as they were written.
use ort.Prelude.{
  ℕ, ◌≡◌, ◌≤◌, refl, sym, ap, ◌∙◌, List, [], ◌∷◌, ◌++◌, append_assoc, append-nil, Option, none,
  some, ok, err, length, length-be_bytes, All, be_value, arith, Bool-cases, ltb, ltb→lt, ltb→le,
  if◌then◌else◌, take, drop, length-take, take-append-drop, inl, inr,
}
use ort.Proto.Error.{frame_too_large}
use ort.Proto.Frame.{encode_framed, parse_len, prefix_of, max_frame, parse_len-prefix}
use ort.Net.Error.{IoError, IoResult, unexpected_eof, invalid_frame}
use ort.Net.Io.{Io, ◌>>◌, lift, bind-err}
use ort.Net.Stream.{Stream, IsReliable}
use ort.Net.Transport.{read_body, read_frame, write_frame}

-- A body of `n` bytes from what is to come behind its prefix.
abbrev pub body_outcome : ℕ → List ℕ → IoResult (Option (List ℕ))
body_outcome n bs =
    if ltb max_frame n
    then err (invalid_frame (frame_too_large n))
    else if ltb (length bs) n
    then err unexpected_eof
    else ok (some (take n bs))

abbrev pub outcome : List ℕ → IoResult (Option (List ℕ))
outcome bs = if ltb (length bs) 4 then ok none else body_outcome (be_value (take 4 bs)) (drop 4 bs)

module _ (I : Stream) (c : IsReliable I) where
  -- A whole frame at the front of what is to come.
  pub read_frame-encode_framed :
      (r : I.Reader) (body rest : List ℕ)
      → length body ≤ max_frame
      → c.pending r ≡ encode_framed body ++ rest
      → (r' : I.Reader) × (read_frame I r ≡ (ok (some body), r')) × (c.pending r' ≡ rest)
  unfolding read_frame read_body encode_framed
  read_frame-encode_framed r body rest h e =
      let (r1, e1, p1) =
        c.read_whole r 4 (prefix_of body) (body ++ rest) (length-be_bytes 4 _)
          (e ∙ append_assoc (prefix_of body) body rest) in
      let (r2, e2, p2) = c.read_whole r1 (length body) body rest refl p1 in
      (r2, rw (e1, parse_len-prefix body h, e2), p2)

  -- Enough is to come.
  read_take :
      (r : I.Reader) (n : ℕ)
      → n ≤ length (c.pending r)
      → (r' : I.Reader) × (I.read_exact n r ≡ (ok (take n (c.pending r)), r'))
        × (c.pending r' ≡ drop n (c.pending r))
  read_take r n h =
      c.read_whole r n _ _ (omega (arith, length-take n (c.pending r)))
        (sym (take-append-drop n (c.pending r)))

  read_body-body_outcome :
      (r : I.Reader) (len_buf : List ℕ)
      → (read_body I len_buf r).0 ≡ body_outcome (be_value len_buf) (c.pending r)
  unfolding read_body parse_len
  read_body-body_outcome r len_buf =
      let n = be_value len_buf in
      elim (Bool-cases (ltb max_frame n)) [
        | inl large ↦ rw large
        | inr small ↦ elim (Bool-cases (ltb (length (c.pending r)) n)) [
          | inl short ↦
              rw (small, short)
                (bind-err (I.read_exact n) _ r _ (c.read_short r n (ltb→lt _ _ short)))
          | inr whole ↦ let (r', e, p) = read_take r n (ltb→le _ _ whole) in rw (small, whole, e)
        ]
      ]

  -- On a connection that does not fail, what `read_frame` answers follows from the bytes still to
  -- come: nothing where there are fewer than four, a refusal where these give a length over the
  -- cap, an error where the stream ends within the body, and otherwise the body.
  pub read_frame-outcome : (r : I.Reader) → (read_frame I r).0 ≡ outcome (c.pending r)
  unfolding read_frame
  read_frame-outcome r = elim (Bool-cases (ltb (length (c.pending r)) 4)) [
    | inl short ↦ rw (short, c.read_short r 4 (ltb→lt _ _ short))
    | inr whole ↦
        let (r', e, p) = read_take r 4 (ltb→le _ _ whole) in
        rw (whole, e) (read_body-body_outcome r' _ ∙ ap (body_outcome _) p)
  ]

  -- Writing one frame after the other.
  abbrev pub write_frames : List (List ℕ) → Io IoError I.Writer (Unit {0})
  write_frames [] = lift (ok tt)
  write_frames (body ∷ bodies) = do write_frame I body; write_frames bodies

  -- Reading gives these bodies in this order, and then the end of the stream.
  abbrev pub Delivers : I.Reader → List (List ℕ) → Type 0
  Delivers r [] = (read_frame I r).0 ≡ ok none
  Delivers r (body ∷ bodies) =
      (r' : I.Reader) × (read_frame I r ≡ (ok (some body), r')) × Delivers r' bodies

  abbrev framed : List (List ℕ) → List ℕ
  framed [] = []
  framed (body ∷ bodies) = encode_framed body ++ framed bodies

  pub write_frame-sent :
      (w : I.Writer) (body : List ℕ)
      → (w' : I.Writer) × (write_frame I body w ≡ (ok tt, w'))
        × (c.sent w' ≡ c.sent w ++ encode_framed body)
  unfolding write_frame
  write_frame-sent w body =
      let (w1, e1, s1) = c.writes w (encode_framed body) in
      let (w2, e2, s2) = c.flushes w1 in (w2, rw (e1, e2), s2 ∙ s1)

  write_frames-sent :
      (w : I.Writer) (bodies : List (List ℕ))
      → (w' : I.Writer) × (write_frames bodies w ≡ (ok tt, w'))
        × (c.sent w' ≡ c.sent w ++ framed bodies)
  write_frames-sent w [] = (w, refl, sym (append-nil _))
  write_frames-sent w (body ∷ bodies) =
      let (w1, e1, s1) = write_frame-sent w body in
      let (w2, e2, s2) = write_frames-sent w1 bodies in
      (w2, rw (e1, e2), s2 ∙ ap (λ s. s ++ framed bodies) s1 ∙ append_assoc (c.sent w) _ _)

  framed-Delivers :
      (r : I.Reader) (bodies : List (List ℕ))
      → All (λ b. length b ≤ max_frame) bodies
      → c.pending r ≡ framed bodies
      → Delivers r bodies
  framed-Delivers r [] h e = read_frame-outcome r ∙ rw e
  framed-Delivers r (body ∷ bodies) h e =
      let (r', e1, p1) = read_frame-encode_framed r body (framed bodies) h.0 e in
      (r', e1, framed-Delivers r' bodies h.1 p1)

  -- What one end writes frame by frame on a fresh connection that does not fail the other end
  -- reads: writing succeeds, and reading gives the same bodies in the same order and then the end
  -- of the stream. No body is over the cap.
  pub write_frames-Delivers :
      (w : I.Writer) (r : I.Reader) (bodies : List (List ℕ))
      → All (λ b. length b ≤ max_frame) bodies
      → c.sent w ≡ []
      → c.pending r ≡ c.sent (write_frames bodies w).1
      → ((write_frames bodies w).0 ≡ ok tt) × Delivers r bodies
  write_frames-Delivers w r bodies h fresh wired =
      let (w', e, s) = write_frames-sent w bodies in
      let all : c.sent (write_frames bodies w).1 ≡ framed bodies =
        ap (λ x. c.sent x.1) e ∙ s ∙ ap (λ x. x ++ framed bodies) fresh in
      (ap (λ x. x.0) e, framed-Delivers r bodies h (wired ∙ all))
