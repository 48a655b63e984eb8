-- ===== src/Tls/Memory.antt =====
-- pkg/tls/from_memory.go: the certificate that `FromMemory` signs itself.
use cruiser.Base.{
  false, ℕ, ◌+◌, String, Bool, true, List, [], ◌∷◌, Option, none, some, Outcome, ok, err, panic,
}

-- The struct `fromMemory`.
pub record FromMemory : Type 0 where
  pub organization : String
  pub organization_unit : String

abbrev pub from_memory_with_organization : String → FromMemory → FromMemory
from_memory_with_organization organization o = record o { organization = organization }

abbrev pub from_memory_with_organization_unit : String → FromMemory → FromMemory
from_memory_with_organization_unit unit o = record o { organization_unit = unit }

abbrev pub apply_memory_options : List (FromMemory → FromMemory) → FromMemory → FromMemory
apply_memory_options [] o = o
apply_memory_options (option ∷ options) o = apply_memory_options options (option o)

abbrev pub acme : FromMemory
acme = record { organization = "Acme Inc."; organization_unit = "Acme Inc. TLS" }

pub data ExtKeyUsage : Type 0 where
  client_auth server_auth : ExtKeyUsage

-- A bit of `x509.KeyUsage`.
pub data KeyUsage : Type 0 where
  cert_sign digital_signature data_encipherment : KeyUsage

-- `x509.Certificate`, in the fields that are set, and `BasicConstraintsValid`, which is not; the
-- times are in seconds.
pub record Template : Type 0 where
  pub serial_number : ℕ
  pub organization : List String
  pub organizational_unit : List String
  pub not_before : ℕ
  pub not_after : ℕ
  pub is_ca : Bool
  pub basic_constraints_valid : Bool
  pub ext_key_usage : List ExtKeyUsage
  pub key_usage : List KeyUsage

-- What is used of the packages crypto/rsa, crypto/x509 and time. `now` is the n-th reading of the
-- clock; a certificate is created of the template, that of its issuer, the public key of its
-- subject and the private key of its issuer, and read with its template.
pub record Signing : Type 1 where
  pub Key : Type 0
  pub PublicKey : Type 0
  pub Der : Type 0
  pub now : ℕ → ℕ
  pub public_key : Key → PublicKey
  pub generate_key : ℕ → Outcome Key
  pub create_certificate : Template → Template → PublicKey → Key → Option Der
  pub parse_certificate : Der → Option Template

-- `tls.Certificate`: `leaf` is read from the one certificate of the chain.
pub record Certificate (N : Signing) : Type 0 where
  pub leaf : Template
  pub chain : List N.Der
  pub private_key : N.Key

module _ (N : Signing) where
  -- `caCert`: ten times 360 days.
  abbrev pub ca_cert : FromMemory → Template
  ca_cert o = record {
    serial_number = N.now 0;
    organization = o.organization ∷ [];
    organizational_unit = o.organization_unit ∷ [];
    not_before = N.now 1;
    not_after = N.now 2 + 311040000;
    is_ca = true;
    basic_constraints_valid = false;
    ext_key_usage = client_auth ∷ server_auth ∷ [];
    key_usage = cert_sign ∷ digital_signature ∷ data_encipherment ∷ [];
  }

  abbrev pub parse_signed : N.Key → N.Der → Outcome (Certificate N)
  parse_signed key der = elim (N.parse_certificate der) [
    | none ↦ panic
    | some leaf ↦ ok record { leaf = leaf; chain = der ∷ []; private_key = key }
  ]

  -- From the key on: an error of the signing is logged with a panic.
  abbrev pub sign_with : FromMemory → Outcome N.Key → Outcome (Certificate N)
  sign_with o (ok key) =
      elim (N.create_certificate (ca_cert o) (ca_cert o) (N.public_key key) key) [
        | none ↦ panic
        | some der ↦ parse_signed key der
      ]
  sign_with o (err e) = err e
  sign_with o panic = panic

  unfoldable pub self_sign : List (FromMemory → FromMemory) → Outcome (Certificate N)
  self_sign options = sign_with (apply_memory_options options acme) (N.generate_key 4096)
