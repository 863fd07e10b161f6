-- ===== src/Crypto/Certificate.antt =====
-- The types of transport certificates, and what one is made for
-- (internal/crypto/transport/transport.go). crypto/x509 is a parameter.
use blockmania.Prelude.{ℕ, [], ◌++◌, Option, none, some, ◌==◌, if◌then◌else◌}
use blockmania.Prelude.Texts.{Text, bytes}
use blockmania.Config.ByteSize.{format_uint}

-- `ECDSA`.
abbrev pub ecdsa : ℕ
ecdsa = 1

pub record Cert : Type 0 where
  pub private_pem : Text
  pub public_pem : Text
  pub type : ℕ

-- `CertType.String`.
abbrev pub cert_type_name : ℕ → Text
cert_type_name c = if c == ecdsa then bytes "ecdsa" else []

-- `node-%d.net-%s.chainspace`.
abbrev pub common_name : ℕ → Text → Text
common_name id network =
    bytes "node-" ++ (format_uint id ++ (bytes ".net-" ++ (network ++ bytes ".chainspace")))

-- What `GenCert` makes of the two PEM texts.
abbrev pub as_cert : Option (Text × Text) → Option Cert
as_cert none = none
as_cert (some (priv, public)) =
    some (record { private_pem = priv; public_pem = public; type = ecdsa })

-- `GenCert`, where `create` makes a key and a certificate for a common name, as PEM; `none` is an
-- error.
unfoldable pub gen_cert : (Text → Option (Text × Text)) → ℕ → Text → ℕ → Option Cert
gen_cert create t network id =
    if t == ecdsa then as_cert (create (common_name id network)) else none
