-- ===== src/Tls/Loading.antt =====
-- What `FromFile` loads, for any options in any order.
use mathlib.Core.List.{append-nil, append_assoc}
use cruiser.Base.{
  String, Bool, false, List, [], ◌∷◌, ◌++◌, map, Outcome, ok, err, panic, ◌≡◌, refl, sym, ap, ◌∙◌,
}
use cruiser.Tls.{
  FromFile, from_file_with_certificate, from_file_with_insecure_skip_verify, apply_file_options,
  no_files, after_load, load_certs, config_of, from_file,
}

-- The options of `FromFile`.
pub data FileOption : Type 0 where
  certificate : (cert_file key_file : String) → FileOption
  skip_verify : Bool → FileOption

abbrev pub to_option : FileOption → FromFile → FromFile
to_option (certificate c k) = from_file_with_certificate c k
to_option (skip_verify b) = from_file_with_insecure_skip_verify b

-- The files of the certificates, in order, each with its key.
abbrev pub pairs_of : List FileOption → List (String × String)
pairs_of [] = []
pairs_of (certificate c k ∷ options) = (c, k) ∷ pairs_of options
pairs_of (skip_verify b ∷ options) = pairs_of options

-- The last choice, or the one that was there.
abbrev pub skips : List FileOption → Bool → Bool
skips [] b = b
skips (certificate c k ∷ options) b = skips options b
skips (skip_verify new ∷ options) b = skips options new

abbrev first_of : String × String → String
first_of (c, k) = c

abbrev second_of : String × String → String
second_of (c, k) = k

options-files :
    (options : List FileOption) (o : FromFile)
    → apply_file_options (map to_option options) o ≡ record {
      cert_files = o.cert_files ++ map first_of (pairs_of options);
      key_files = o.key_files ++ map second_of (pairs_of options);
      insecure_skip_verify = skips options o.insecure_skip_verify;
    }
options-files [] o =
    ap (λ l. record o { cert_files = l }) (sym (append-nil o.cert_files))
    ∙ ap
        (λ l. record {
          cert_files = o.cert_files ++ [];
          key_files = l;
          insecure_skip_verify = o.insecure_skip_verify;
        })
        (sym (append-nil o.key_files))
options-files (certificate c k ∷ options) o =
    options-files options (from_file_with_certificate c k o)
    ∙ ap
        (λ l. record {
          cert_files = l;
          key_files = (o.key_files ++ k ∷ []) ++ map second_of (pairs_of options);
          insecure_skip_verify = skips options o.insecure_skip_verify;
        })
        (append_assoc o.cert_files (c ∷ []) (map first_of (pairs_of options)))
    ∙ ap
        (λ l. record {
          cert_files = o.cert_files ++ c ∷ map first_of (pairs_of options);
          key_files = l;
          insecure_skip_verify = skips options o.insecure_skip_verify;
        })
        (append_assoc o.key_files (k ∷ []) (map second_of (pairs_of options)))
options-files (skip_verify b ∷ options) o =
    options-files options (record o { insecure_skip_verify = b })

module _ {Cert : Type 0} where
  abbrev pub after_all : List Cert → Outcome (List Cert) → Outcome (List Cert)
  after_all certs (ok more) = ok (certs ++ more)
  after_all certs (err e) = err e
  after_all certs panic = panic

  after_all-append :
      (certs : List Cert) (cert : Cert) (o : Outcome (List Cert))
      → after_all (certs ++ cert ∷ []) o ≡ after_all certs (after_all (cert ∷ []) o)
  after_all-append certs cert (ok more) = ap ok (append_assoc certs (cert ∷ []) more)
  after_all-append certs cert (err e) = refl
  after_all-append certs cert panic = refl

  after_all-nil : (o : Outcome (List Cert)) → after_all [] o ≡ o
  after_all-nil (ok more) = refl
  after_all-nil (err e) = refl
  after_all-nil panic = refl

  module _ (load : String → String → Outcome Cert) where
    -- The certificates of all pairs, or the outcome of the first that cannot be loaded.
    abbrev pub load_all : List (String × String) → Outcome (List Cert)
    load_all [] = ok []
    load_all (pair ∷ pairs) =
        let rest = load_all pairs in
        after_load load (load (first_of pair) (second_of pair)) (λ cert. after_all (cert ∷ []) rest)

    loaded_first :
        (o : Outcome Cert) (certs : List Cert) (f : List Cert → Outcome (List Cert))
        (rest : Outcome (List Cert))
        → ((certs : List Cert) → f certs ≡ after_all certs rest)
        → after_load load o (λ cert. f (certs ++ cert ∷ []))
          ≡ after_all certs (after_load load o (λ cert. after_all (cert ∷ []) rest))
    loaded_first (ok cert) certs f rest same =
        same (certs ++ cert ∷ []) ∙ after_all-append certs cert rest
    loaded_first (err e) certs f rest same = refl
    loaded_first panic certs f rest same = refl

    load_certs-load_all :
        (pairs : List (String × String)) (certs : List Cert)
        → load_certs load (map first_of pairs) (map second_of pairs) certs
          ≡ after_all certs (load_all pairs)
    unfolding load_certs
    load_certs-load_all [] certs = ap ok (sym (append-nil certs))
    load_certs-load_all (pair ∷ pairs) certs =
        loaded_first (load (first_of pair) (second_of pair)) certs
          (load_certs load (map first_of pairs) (map second_of pairs)) (load_all pairs)
          (load_certs-load_all pairs)

    -- `FromFile` with any options, in any order, loads the certificates in the order of their
    -- options, each with its own key, and returns the error of the first that cannot be loaded; it
    -- takes the last choice for the verification, which is made by default. It never runs out of
    -- key files.
    pub from_file-load_all :
        (options : List FileOption)
        → from_file load (map to_option options)
          ≡ config_of load (skips options false) (load_all (pairs_of options))
    unfolding from_file
    from_file-load_all options =
        ap
          (λ o. config_of load o.insecure_skip_verify (load_certs load o.cert_files o.key_files []))
          (options-files options no_files)
        ∙ ap (config_of load (skips options false)) (
            load_certs-load_all (pairs_of options) [] ∙ after_all-nil (load_all (pairs_of options)))
