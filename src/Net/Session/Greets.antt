-- ===== src/Net/Session/Greets.antt =====
-- The server's hello with the suite V1 is within the limits of the wire format.
use ort.Prelude.{
  ℕ, ◌-◌, ◌≡◌, ◌≤◌, ap, ◌∙◌, List, length, length-append, length-be_bytes, IsBytes, IsU64, arith,
}
use ort.Core.Suite.Ids.{code}
use ort.Core.Suite.V1.{Crates, v1, kem_public}
use ort.Core.Suite.V1.Documented.{IsDocumented}
use ort.Core.Handshake.Server.{ServerConfig, server_hello}
use ort.Proto.Frame.{max_frame}
use ort.Proto.Messages.Layout.{encode-layout, length-field16, length-field32}
use ort.Net.Session.Wire.{IsSendable}

-- The longest certificate for which the hello is within the cap.
abbrev pub certificate_limit : ℕ
certificate_limit = max_frame - 1201

-- What the Rust types of the server's key, its certificate and its clock say, and the limit.
pub record Greets (server_pk certificate : List ℕ) (now : ℕ) : Type 0 where
  pub key_bytes : IsBytes server_pk
  pub certificate_bytes : IsBytes certificate
  pub certificate_short : length certificate ≤ certificate_limit
  pub now_word : IsU64 now

module _ (K : Crates) (d : IsDocumented K) (scfg : ServerConfig (v1 K))
    (key : scfg.server_pk ≡ kem_public K scfg.kem_secret) where
  server_pk-length : length scfg.server_pk ≡ 1184
  unfolding kem_public
  server_pk-length = ap length key ∙ d.ml_kem.ek_length _

  pub server_hello-IsSendable :
      (now : ℕ)
      → Greets scfg.server_pk scfg.certificate now
      → IsSendable (server_hello (v1 K) scfg now)
  unfolding server_hello code
  server_hello-IsSendable now g =
      let frame = server_hello (v1 K) scfg now in
      (
        (
          omega arith,
          omega (arith, server_pk-length),
          g.key_bytes,
          omega (arith, g.certificate_short),
          g.certificate_bytes,
          g.now_word,
        ),
        rw (encode-layout frame) (
            omega (
              arith,
              length-append {0},
              length-field16,
              length-field32,
              length-be_bytes 2 (code (v1 K).id),
              length-be_bytes 8 now,
              server_pk-length,
              g.certificate_short,
            )),
      )
