-- ===== src/Core/ConnMeta/Binding.antt =====
-- The signed message determines what it binds, and an honest signature verifies.
use ort.Prelude.{
  ℕ, ◌≡◌, refl, sym, ap, ◌∙◌, List, ◌++◌, ok, map_err, IsU64, length, length-append,
  length-be_bytes, append_injective, be_bytes, be_bytes_injective, arith,
}
use ort.Core.Error.{bad_signature}
use ort.Core.Suite.Cipher.{CipherSuite, IsCorrect}
use ort.Core.ConnMeta.{
  ConnMeta, canonical, client_binding_label, client_binding_msg, sign_client_binding,
  verify_client_binding,
}

-- The Rust types of the fields.
pub record IsConnMeta (cm : ConnMeta) : Type 0 where
  pub src_ip_long : length cm.src_ip ≡ 16
  pub ts_word : IsU64 cm.ts_millis
  pub nonce_long : length cm.nonce ≡ 32

-- The canonical form has 56 bytes.
pub length-canonical : (cm : ConnMeta) → IsConnMeta cm → length (canonical cm) ≡ 56
unfolding canonical
length-canonical cm h = omega (
  arith,
  length-append cm.src_ip (be_bytes 8 cm.ts_millis ++ cm.nonce),
  length-append (be_bytes 8 cm.ts_millis) cm.nonce,
  length-be_bytes 8 cm.ts_millis,
)

-- Different metadata have different canonical forms.
pub canonical_injective :
    (a b : ConnMeta) → IsConnMeta a → IsConnMeta b → canonical a ≡ canonical b → a ≡ b
unfolding canonical
canonical_injective a b ha hb e =
    let (ip, rest) = append_injective a.src_ip b.src_ip _ _ (omega arith) e in
    let (ts, nonce) =
      append_injective (be_bytes 8 a.ts_millis) (be_bytes 8 b.ts_millis) a.nonce b.nonce
        (omega (arith, length-be_bytes 8 a.ts_millis, length-be_bytes 8 b.ts_millis)) rest in
    λ i. record {
      src_ip = ip i;
      ts_millis = be_bytes_injective 8 a.ts_millis b.ts_millis ha.ts_word hb.ts_word ts i;
      nonce = nonce i;
    }

module _ (S : CipherSuite) (hash_long : (m : List ℕ) → length (S.hash256 m) ≡ 32) where
  -- Two binding messages of well-formed metadata are equal only if they bind the same metadata, the
  -- same client key, and ciphertexts and early data with equal hashes. The client key needs no
  -- length of its own: the fields on both sides of it have fixed lengths.
  pub client_binding_msg_injective :
      (a b : ConnMeta) (pk pk' ct ct' ed ed' : List ℕ)
      → IsConnMeta a
      → IsConnMeta b
      → client_binding_msg S a pk ct ed ≡ client_binding_msg S b pk' ct' ed'
      → (a ≡ b) × (pk ≡ pk') × (S.hash256 ct ≡ S.hash256 ct') × (S.hash256 ed ≡ S.hash256 ed')
  unfolding client_binding_msg
  client_binding_msg_injective a b pk pk' ct ct' ed ed' ha hb e =
      let (_, e1) = append_injective client_binding_label client_binding_label _ _ refl e in
      let (metas, e2) =
        append_injective (canonical a) (canonical b) _ _
          (length-canonical a ha ∙ sym (length-canonical b hb)) e1 in
      let long : length pk ≡ length pk' = omega (
        arith,
        ap length e2,
        length-append pk (S.hash256 ct ++ S.hash256 ed),
        length-append pk' (S.hash256 ct' ++ S.hash256 ed'),
        length-append (S.hash256 ct) (S.hash256 ed),
        length-append (S.hash256 ct') (S.hash256 ed'),
        hash_long ct,
        hash_long ct',
        hash_long ed,
        hash_long ed',
      ) in
      let (keys, e3) = append_injective pk pk' _ _ long e2 in
      let (cts, eds) =
        append_injective (S.hash256 ct) (S.hash256 ct') _ _ (hash_long ct ∙ sym (hash_long ct'))
          e3 in
      (canonical_injective a b ha hb metas, keys, cts, eds)

-- A signature made with a key verifies under its public key.
pub verify-sign :
    (S : CipherSuite) (c : IsCorrect S) (sk : S.SigSecret) (client_pk : List ℕ) (cm : ConnMeta)
    (ct ed : List ℕ)
    → client_pk ≡ S.sig_public sk
    → verify_client_binding S client_pk cm ct ed (sign_client_binding S sk cm client_pk ct ed)
      ≡ ok tt
unfolding verify_client_binding sign_client_binding
verify-sign S c sk client_pk cm ct ed e =
    let msg = client_binding_msg S cm client_pk ct ed in
    ap (λ pk. map_err (λ _. bad_signature) (S.sig_verify pk msg (S.sig_sign sk msg))) e
    ∙ rw c.sig_correct
