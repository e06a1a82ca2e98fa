-- ===== src/Net/Transport/Failing.antt =====
-- Frames over a connection that may fail.
use ort.Prelude.{
  ℕ, ◌≡◌, ◌≤◌, sym, ap, ◌∙◌, List, [], ◌++◌, append_assoc, append_injective, Option, some, ok, err,
  length, length-be_bytes, inl, inr, Result-cases, ok_injective,
}
use ort.Proto.Frame.{encode_framed, parse_len, prefix_of, max_frame, parse_len-prefix}
use ort.Net.Error.{IoError, IoResult, unexpected_eof, invalid_frame, invalid_record, other}
use ort.Net.Stream.{Stream, IsOrdered}
use ort.Net.Transport.{prefix_read, read_body, read_frame, write_frame}

module _ (I : Stream) (c : IsOrdered I) where
  -- Of a frame a part was written, all of it where this succeeded.
  pub write_frame-part :
      (w : I.Writer) (body : List ℕ)
      → (part : List ℕ) × (left : List ℕ) × (encode_framed body ≡ part ++ left)
        × (c.sent (write_frame I body w).1 ≡ c.sent w ++ part)
        × ((write_frame I body w).0 ≡ ok tt → left ≡ [])
  unfolding write_frame
  write_frame-part w body =
      let (part, left, split, written, whole) = c.writes w (encode_framed body) in
      elim (Result-cases (I.write_all (encode_framed body) w).0) [
        | inl (_, e) ↦ (
          part,
          left,
          split,
          rw e (c.flushes (I.write_all (encode_framed body) w).1 ∙ written),
          λ _. whole e,
        )
        | inr (x, e) ↦ (part, left, split, rw e written, rw e (λ p. absurd (cc p)))
      ]

  -- `r'` is `r` after some bytes, those of a frame with this body where there is one.
  abbrev Took : I.Reader → IoResult (Option (List ℕ)) → I.Reader → Type 0
  Took r got r' =
      (taken : List ℕ) × (c.pending r ≡ taken ++ c.pending r')
      × ((body : List ℕ)
          → got ≡ ok (some body)
          → (len_buf : List ℕ) × (taken ≡ len_buf ++ body)
            × (length len_buf ≡ 4)
            × (parse_len len_buf ≡ ok (length body)))

  read_body-Took :
      (r r1 : I.Reader) (len_buf : List ℕ)
      → c.pending r ≡ len_buf ++ c.pending r1
      → length len_buf ≡ 4
      → Took r (read_body I len_buf r1).0 (read_body I len_buf r1).1
  unfolding read_body
  read_body-Took r r1 len_buf split four = elim (Result-cases (parse_len len_buf)) [
    | inr (x, bad) ↦ rw bad (len_buf, split, λ body h. absurd (cc h))
    | inl (n, good) ↦
        let (taken, split', known) = c.reads_exact r1 n in
        let all : c.pending r ≡ (len_buf ++ taken) ++ c.pending (I.read_exact n r1).1 =
          split ∙ ap (λ x. len_buf ++ x) split' ∙ sym (append_assoc len_buf taken _) in
        elim (Result-cases (I.read_exact n r1).0) [
          | inr (x, e) ↦ rw (good, e) (len_buf ++ taken, all, λ body h. absurd (cc h))
          | inl (bs, e) ↦
              let (same, size) = known bs e in
              rw (good, e)
                (
                  len_buf ++ taken,
                  all,
                  λ body h.
                      let is : bs ≡ body = cc h in
                      (
                        len_buf,
                        ap (λ x. len_buf ++ x) (sym same ∙ is),
                        four,
                        good ∙ ap (λ k. ok k) (sym size ∙ ap length is),
                      ),
                )
        ]
  ]

  prefix_failed-Took :
      (r r1 : I.Reader) (x : IoError) (taken : List ℕ)
      → c.pending r ≡ taken ++ c.pending r1
      → Took r (prefix_read I (err x) r1).0 (prefix_read I (err x) r1).1
  unfolding prefix_read
  prefix_failed-Took r r1 unexpected_eof taken split = (taken, split, λ body h. absurd (cc h))
  prefix_failed-Took r r1 (invalid_frame x) taken split = (taken, split, λ body h. absurd (cc h))
  prefix_failed-Took r r1 (invalid_record x) taken split = (taken, split, λ body h. absurd (cc h))
  prefix_failed-Took r r1 (other x) taken split = (taken, split, λ body h. absurd (cc h))

  -- Whatever reading a frame answers.
  pub read_frame-Took : (r : I.Reader) → Took r (read_frame I r).0 (read_frame I r).1
  unfolding read_frame
  read_frame-Took r =
      let (taken, split, known) = c.reads_exact r 4 in
      let r1 = (I.read_exact 4 r).1 in
      elim (Result-cases (I.read_exact 4 r).0) [
        | inl (len_buf, e) ↦
            let (same, size) = known len_buf e in
            rw e (read_body-Took r r1 len_buf (split ∙ ap (λ x. x ++ c.pending r1) (sym same)) size)
        | inr (x, e) ↦ rw e (prefix_failed-Took r r1 x taken split)
      ]

  -- Where a frame within the cap is to come, or a part of it, and more behind it, a body that was
  -- read is that frame's.
  pub read_frame-part :
      (r : I.Reader) (body rest cut b : List ℕ)
      → length body ≤ max_frame
      → c.pending r ++ cut ≡ encode_framed body ++ rest
      → (read_frame I r).0 ≡ ok (some b)
      → (b ≡ body) × (c.pending (read_frame I r).1 ++ cut ≡ rest)
  unfolding encode_framed
  read_frame-part r body rest cut b small arrives got =
      let r' = (read_frame I r).1 in
      let (taken, split, known) = read_frame-Took r in
      let (len_buf, is, four, parsed) = known b got in
      let all : len_buf ++ (b ++ (c.pending r' ++ cut)) ≡ prefix_of body ++ (body ++ rest) =
        sym (append_assoc len_buf b _)
        ∙ sym (append_assoc (len_buf ++ b) (c.pending r') cut)
        ∙ ap (λ x. (x ++ c.pending r') ++ cut) (sym is)
        ∙ ap (λ x. x ++ cut) (sym split)
        ∙ arrives
        ∙ append_assoc (prefix_of body) body rest in
      let (same, behind) =
        append_injective len_buf (prefix_of body) _ _ (four ∙ sym (length-be_bytes 4 _)) all in
      let sizes : length b ≡ length body =
        ok_injective (sym parsed ∙ ap parse_len same ∙ parse_len-prefix body small) in
      append_injective b body _ _ sizes behind
