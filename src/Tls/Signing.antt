-- ===== src/Tls/Signing.antt =====
-- What the configuration of `FromMemory` has, for any options in any order.
use cruiser.Base.{
  ◌<◌, ◌*◌, ◌+◌, ◌&&◌, false, String, true, List, [], ◌∷◌, map, some, Outcome, ok, err, panic, ◌≡◌,
  refl,
}
use cruiser.Tls.{TlsConfig, from_memory}
use cruiser.Tls.Memory.{
  FromMemory, from_memory_with_organization, from_memory_with_organization_unit,
  apply_memory_options, acme, client_auth, server_auth, cert_sign, digital_signature,
  data_encipherment, Template, Signing, Certificate, parse_signed, sign_with, self_sign,
}

-- The options of `FromMemory`.
pub data MemoryOption : Type 0 where
  organization organization_unit : String → MemoryOption

abbrev pub to_memory_option : MemoryOption → FromMemory → FromMemory
to_memory_option (organization name) = from_memory_with_organization name
to_memory_option (organization_unit name) = from_memory_with_organization_unit name

-- The last that was chosen, or the one that was there.
abbrev pub organization_of : List MemoryOption → String → String
organization_of [] s = s
organization_of (organization name ∷ options) s = organization_of options name
organization_of (organization_unit name ∷ options) s = organization_of options s

abbrev pub unit_of : List MemoryOption → String → String
unit_of [] s = s
unit_of (organization name ∷ options) s = unit_of options s
unit_of (organization_unit name ∷ options) s = unit_of options name

options-names :
    (options : List MemoryOption) (o : FromMemory)
    → apply_memory_options (map to_memory_option options) o ≡ record {
      organization = organization_of options o.organization;
      organization_unit = unit_of options o.organization_unit;
    }
options-names [] o = refl
options-names (organization name ∷ options) o =
    options-names options (from_memory_with_organization name o)
options-names (organization_unit name ∷ options) o =
    options-names options (from_memory_with_organization_unit name o)

-- A template as it is read back: x509 writes whether it is one of a CA only with valid basic
-- constraints.
abbrev pub read_back : Template → Template
read_back t = record t { is_ca = t.is_ca && t.basic_constraints_valid }

module _ (N : Signing) where
  -- What is documented: a certificate with a serial number can be signed by its own key, and is read
  -- back.
  abbrev pub Signs : N.Key → Type 0
  Signs key =
      (t : Template)
      → 0 < t.serial_number
      → (der : N.Der) × (N.create_certificate t t (N.public_key key) key ≡ some der)
        × (N.parse_certificate der ≡ some (read_back t))

  -- What is signed: for the names that were chosen, from now for 3600 days.
  abbrev pub signed : List MemoryOption → Template
  signed options = record {
    serial_number = N.now 0;
    organization = organization_of options "Acme Inc." ∷ [];
    organizational_unit = unit_of options "Acme Inc. TLS" ∷ [];
    not_before = N.now 1;
    not_after = N.now 2 + 3600 * 86400;
    is_ca = true;
    basic_constraints_valid = false;
    ext_key_usage = client_auth ∷ server_auth ∷ [];
    key_usage = cert_sign ∷ digital_signature ∷ data_encipherment ∷ [];
  }

  -- The configuration of the certificate, signed by its own key.
  abbrev pub Holds : List MemoryOption → N.Key → Outcome (TlsConfig (Certificate N)) → Type 0
  Holds options key result =
      (der : N.Der) × (N.create_certificate (signed options) (signed options) (N.public_key key) key
        ≡ some der)
      × (result
          ≡ ok record {
            certificates =
                record {
                  leaf = record (signed options) { is_ca = false };
                  chain = der ∷ [];
                  private_key = key;
                }
                ∷ [];
            insecure_skip_verify = true;
          })

  -- What follows the key, by what became of it.
  abbrev pub Follows :
      List MemoryOption → Outcome N.Key → Outcome (TlsConfig (Certificate N)) → Type 0
  Follows options (ok key) result = Holds options key result
  Follows options (err e) result = result ≡ err e
  Follows options panic result = result ≡ panic

  module _ (load : String → String → Outcome (Certificate N)) where
    sign_with-Holds :
        (options : List MemoryOption) (key : N.Key)
        → Signs key
        → 0 < N.now 0
        → Holds options key (
            from_memory load
              (sign_with N (apply_memory_options (map to_memory_option options) acme) (ok key)))
    sign_with-Holds options key signs later =
        let (der, created, parsed) = signs (signed options) later in
        (
          der,
          created,
          rw (options-names options acme, created, parsed, sign_with, parse_signed) refl,
        )

    sign_with-Follows :
        (options : List MemoryOption) (key : Outcome N.Key)
        → ((k : N.Key) → Signs k)
        → 0 < N.now 0
        → Follows options key (
            from_memory load
              (sign_with N (apply_memory_options (map to_memory_option options) acme) key))
    sign_with-Follows options (ok key) signs later = sign_with-Holds options key (signs key) later
    sign_with-Follows options (err e) signs later = refl
    sign_with-Follows options panic signs later = refl

    -- `FromMemory` with any options, in any order, fails as the making of the key does, and otherwise
    -- gives a configuration that skips the verification and has one certificate, which the key
    -- signed for itself: it is for the organization and the unit that were chosen last, by default
    -- those of Acme, ends 3600 days after the clock was read, and is read back as one of no CA,
    -- although it was to be. It is for keys that can sign with a serial number, and a clock that is
    -- past its zero.
    pub from_memory-Follows :
        (options : List MemoryOption)
        → ((key : N.Key) → Signs key)
        → 0 < N.now 0
        → Follows options
            (N.generate_key 4096)
            (from_memory load (self_sign N (map to_memory_option options)))
    unfolding self_sign
    from_memory-Follows options signs later =
        sign_with-Follows options (N.generate_key 4096) signs later
