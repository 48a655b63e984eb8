-- ===== src/Commands/Flags.antt =====
-- cmd/root.go and cmd/xds.go: the flags that `init` and `initXds` define and bind to keys, and what
-- viper then knows of them.
pub mod Kept
mod Tests
use cruiser.Base.{
  String, Bool, true, false, List, [], ◌∷◌, ◌++◌, Option, none, some, Dict, index, assign, has,
  keys, ◌==◌, ◌||◌, if◌then◌else◌, replace_dashes,
}
use cruiser.Commands.Presetting.{Viper}

-- The persistent flags of the root, with their defaults as texts.
abbrev pub root_flags : Dict String
root_flags =
    ("config", "")
    ∷ ("enable-tls", "true")
    ∷ ("tls-certificate", "")
    ∷ ("tls-private-key", "")
    ∷ ("tls-insecure-skip-verify", "false")
    ∷ ("listener-address", "0.0.0.0:4880")
    ∷ ("shutdown-timeout", "20s")
    ∷ ("period-sync-interval", "5s")
    ∷ ("tfstate-source", "")
    ∷ ("dynamodb-endpoint", "")
    ∷ ("aws-tfstate-bucket", "")
    ∷ ("health-check-interval", "0s")
    ∷ ("health-check-parallelism", "4")
    ∷ ("aws-s3-assume-role", "")
    ∷ []

-- The keys that `init` binds, each with the flag that it looks up.
abbrev pub root_bindings : Dict String
root_bindings =
    ("enable_tls", "enable-tls")
    ∷ ("tls_certificate", "tls-certificate")
    ∷ ("tls_private_key", "tls-private-key")
    ∷ ("tls_insecure_skip_verify", "tls-insecure-skip-verify")
    ∷ ("listener_address", "listener-address")
    ∷ ("shutdown_timeout", "shutdown-timeout")
    ∷ ("period_sync_interval", "period-sync-interval")
    ∷ ("tfstate_source", "tfstate-source")
    ∷ ("dynamodb_endpoint", "dynamodb-endpoint")
    ∷ ("aws_tfstate_bucket", "aws-tfstate-bucket")
    ∷ ("health_check_interval", "health-check-interval")
    ∷ ("health_check_parallelism", "health-check-parallelism")
    ∷ ("aws_s3_assume_role", "aws-s3-assume-role")
    ∷ []

-- The persistent flags of the xDS command.
abbrev pub xds_flags : Dict String
xds_flags = ("aws-service-port-tag-key", "port") ∷ ("aws-service-discovery-namespaces", "[]") ∷ []

abbrev pub xds_bindings : Dict String
xds_bindings =
    ("aws_service_discovery_namespaces", "aws-service-discovery-namespaces")
    ∷ ("aws_service_port_tag_key", "aws-service-port-tag-key")
    ∷ []

-- `viper.BindPFlag(key, flags.Lookup(name))`: without the flag it returns an error, which is
-- ignored.
abbrev pub bind_flag : Dict String → String → String → Dict String → Dict String
bind_flag flags key name bound = if has flags name then assign bound key name else bound

unfoldable pub bind_flags : Dict String → Dict String → Dict String → Dict String
bind_flags flags [] bound = bound
bind_flags flags ((key, name) ∷ bindings) bound =
    bind_flags flags bindings (bind_flag flags key name bound)

-- The bindings after `init`. `initXds` looks its flags up among those of the root, too.
unfoldable pub init_bindings : Dict String
init_bindings = bind_flags root_flags xds_bindings (bind_flags root_flags root_bindings [])

abbrev pub binds : String → Option String → Bool
binds name none = false
binds name (some flag) = flag == name

-- `presetRequiredFlags` also binds each flag to its own name, which is the key if it has no dash.
unfoldable pub is_bound : String → Bool
is_bound name =
    replace_dashes name == name || binds name (index init_bindings (replace_dashes name))

abbrev pub or_else : Option String → Option String → Option String
or_else (some value) _ = some value
or_else none other = other

-- `environment` gives the variable that is named by a key in capitals, and `file` the key in the
-- configuration file.
abbrev pub viper_of :
    (String → Option String)
    → (String → Option String)
    → (String → String → Bool)
    → (String → List String)
    → Viper
viper_of environment file accepts fields = record {
  underscored = replace_dashes;
  is_bound = is_bound;
  configured = λ key. or_else (environment key) (file key);
  accepts = accepts;
  fields = fields;
}
