-- ===== src/Tls.antt =====
-- pkg/tls/from_file.go and pkg/tls/from_memory.go: the TLS configurations.
pub mod Loading
pub mod Memory
pub mod Signing
mod Tests
use cruiser.Base.{String, Bool, true, false, List, [], ◌∷◌, ◌++◌, Outcome, ok, err, panic}

-- The struct `fromFile`.
pub record FromFile : Type 0 where
  pub cert_files : List String
  pub key_files : List String
  pub insecure_skip_verify : Bool

-- The part of `tls.Config` that differs between the configurations.
pub record TlsConfig (Cert : Type 0) : Type 0 where
  pub certificates : List Cert
  pub insecure_skip_verify : Bool

abbrev pub from_file_with_certificate : String → String → FromFile → FromFile
from_file_with_certificate cert_file key_file o = record o {
  cert_files = o.cert_files ++ cert_file ∷ [];
  key_files = o.key_files ++ key_file ∷ [];
}

abbrev pub from_file_with_insecure_skip_verify : Bool → FromFile → FromFile
from_file_with_insecure_skip_verify skip o = record o { insecure_skip_verify = skip }

abbrev pub apply_file_options : List (FromFile → FromFile) → FromFile → FromFile
apply_file_options [] o = o
apply_file_options (option ∷ options) o = apply_file_options options (option o)

abbrev pub no_files : FromFile
no_files = record { cert_files = []; key_files = []; insecure_skip_verify = false }

-- `load` is `tls.LoadX509KeyPair`.
module _ {Cert : Type 0} (load : String → String → Outcome Cert) where
  abbrev pub after_load : Outcome Cert → (Cert → Outcome (List Cert)) → Outcome (List Cert)
  after_load (ok cert) rest = rest cert
  after_load (err e) rest = err e
  after_load panic rest = panic

  -- The loop, with the files that are left; a key file that is missing is out of range.
  unfoldable pub load_certs : List String → List String → List Cert → Outcome (List Cert)
  load_certs [] keys certs = ok certs
  load_certs (cert_file ∷ cert_files) [] certs = panic
  load_certs (cert_file ∷ cert_files) (key_file ∷ key_files) certs =
      after_load (load cert_file key_file)
        (λ cert. load_certs cert_files key_files (certs ++ cert ∷ []))

  abbrev pub config_of : Bool → Outcome (List Cert) → Outcome (TlsConfig Cert)
  config_of skip (ok certs) = ok record { certificates = certs; insecure_skip_verify = skip }
  config_of skip (err e) = err e
  config_of skip panic = panic

  unfoldable pub from_file : List (FromFile → FromFile) → Outcome (TlsConfig Cert)
  from_file options =
      let o = apply_file_options options no_files in
      config_of o.insecure_skip_verify (load_certs o.cert_files o.key_files [])

  -- `FromMemory`, over the certificate that it signs itself.
  abbrev pub from_memory : Outcome Cert → Outcome (TlsConfig Cert)
  from_memory self_signed = config_of true (after_load self_signed (λ cert. ok (cert ∷ [])))
