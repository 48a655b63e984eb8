-- ===== src/Tls/Tests.antt =====
-- Two certificates and a choice between them; and a certificate that is made in memory.
use cruiser.Base.{ℕ, String, true, List, [], ◌∷◌, map, some, Outcome, ok, panic, arith, ◌≡◌, refl}
use cruiser.Tls.{from_file, from_memory}
use cruiser.Tls.Memory.{Template, Signing, Certificate, self_sign}
use cruiser.Tls.Signing.{
  MemoryOption, organization, organization_unit, to_memory_option, read_back, signed, Follows,
  from_memory-Follows,
}
use cruiser.Tls.Loading.{certificate, skip_verify, to_option, from_file-load_all}

abbrev load : String → String → Outcome String
load cert_file key_file = ok key_file

from_file-load_all_example :
    from_file load (
      map to_option
        (certificate "a.crt" "a.key" ∷ skip_verify true ∷ certificate "b.crt" "b.key" ∷ []))
    ≡ ok (record { certificates = "a.key" ∷ "b.key" ∷ []; insecure_skip_verify = true })
from_file-load_all_example =
    from_file-load_all load
      (certificate "a.crt" "a.key" ∷ skip_verify true ∷ certificate "b.crt" "b.key" ∷ [])

-- Keys and certificates that are what they are made of.
abbrev signing : Signing
signing = record {
  Key = ℕ;
  PublicKey = ℕ;
  Der = Template;
  now = λ n. 1700000000;
  public_key = λ k. k;
  generate_key = λ bits. ok bits;
  create_certificate = λ t issuer k key. some t;
  parse_certificate = λ der. some (read_back der);
}

abbrev load_none : String → String → Outcome (Certificate signing)
load_none cert_file key_file = panic

abbrev two_names : List MemoryOption
two_names = organization "First" ∷ organization_unit "Edge" ∷ organization "Last" ∷ []

from_memory-Follows_example :
    Follows signing two_names
      (ok 4096)
      (from_memory load_none (self_sign signing (map to_memory_option two_names)))
from_memory-Follows_example =
    from_memory-Follows signing load_none two_names (λ key t p. (t, refl, refl)) (omega arith)

signed_last : (signed signing two_names).organization ≡ "Last" ∷ []
signed_last = refl
