-- ===== src/Commands.antt =====
-- cmd/root.go: what the flags choose, before a command runs; and the server that cmd/router.go and
-- cmd/xds.go make of it.
pub mod Configuring
pub mod Syncing
pub mod Routing
pub mod Presetting
pub mod Flags
pub mod Executing
pub mod Xds
mod Tests
use cruiser.Base.{
  ℕ, suc, String, Bool, true, false, List, [], ◌∷◌, ◌++◌, Option, none, some, ◌==◌, ◌||◌,
  if◌then◌else◌, Outcome, ok, err, panic, Error, empty_aws_tfstate_bucket,
  invalid_tfstate_source_selector,
}
use cruiser.Base.Run.{Run, ◌>>◌}
use cruiser.Tls.{
  TlsConfig, from_file, from_memory, from_file_with_certificate,
  from_file_with_insecure_skip_verify,
}
use cruiser.Server.Lifecycle.{
  Net, Server, ListenerProtocol, http2, h2c, new_server, with_listener_address,
  with_shutdown_timeout, with_listener_protocol, with_http_handler, with_tls_config,
}
use cruiser.State.Manager.{Manager}
use cruiser.State.Manager.Rounds.{
  Source, StateManager, new_state_manager, with_tfstate_source, with_periodic_sync_interval,
  with_managers,
}
use cruiser.Aws.Checks.{
  Config, new_provider, with_dynamodb_endpoint, with_health_check_interval,
  with_health_check_parallelism,
}

-- The variables of the flags that are read here.
pub record Settings : Type 0 where
  pub enable_tls : Bool
  pub cert_file : String
  pub key_file : String
  pub tls_insecure_skip_verify : Bool
  pub listener_address : String
  pub shutdown_timeout : ℕ
  pub tfstate_source_selector : String
  pub aws_tfstate_bucket : String
  pub aws_s3_assume_role : String
  pub period_sync_interval : ℕ
  pub dynamodb_endpoint : String
  pub health_check_interval : ℕ
  pub health_check_parallelism : ℕ

-- What `s3.NewTfstateSource` is given: the bucket, and the role of its client, if any.
pub record TfstateSource : Type 0 where
  pub bucket : String
  pub assume_role : Option String

-- The other variables, which the command sets.
pub record Globals (Cert : Type 0) : Type 0 where
  pub listener_protocol : ListenerProtocol
  pub tls_context : Option (TlsConfig Cert)
  pub tfstate_source : Option TfstateSource
  pub backend_providers : List Config

abbrev pub at_start : (Cert : Type 0) → Globals Cert
at_start Cert = record {
  listener_protocol = h2c;
  tls_context = none;
  tfstate_source = none;
  backend_providers = [];
}

-- `load` is `tls.LoadX509KeyPair`, and `self_signed` the certificate of `FromMemory`.
module _ {Cert : Type 0} (load : String → String → Outcome Cert) (self_signed : Outcome Cert) where
  abbrev pub set_context : Outcome (TlsConfig Cert) → Run (Globals Cert) (Unit {0})
  set_context (ok context) g = (record g { tls_context = some context }, ok tt)
  set_context (err e) g = (g, err e)
  set_context panic g = (g, panic)

  -- The context of the files, if both are named, and else that of a certificate made for it.
  abbrev pub choose_context : Settings → Outcome (TlsConfig Cert)
  choose_context s =
      if s.cert_file == "" || s.key_file == ""
      then from_memory load self_signed
      else from_file load (
          from_file_with_certificate s.cert_file s.key_file
          ∷ from_file_with_insecure_skip_verify s.tls_insecure_skip_verify
          ∷ [])

  unfoldable pub configure_tls : Settings → Run (Globals Cert) (Unit {0})
  configure_tls s g =
      if s.enable_tls
      then set_context (choose_context s) (record g { listener_protocol = http2 })
      else (g, ok tt)

  abbrev pub aws_provider : Settings → Config
  aws_provider s = new_provider (
      with_dynamodb_endpoint s.dynamodb_endpoint
      ∷ with_health_check_interval s.health_check_interval
      ∷ with_health_check_parallelism s.health_check_parallelism
      ∷ [])

  abbrev pub add_provider : Settings → Run (Globals Cert) (Unit {0})
  add_provider s g =
      (record g { backend_providers = g.backend_providers ++ aws_provider s ∷ [] }, ok tt)

  unfoldable pub select_tfstate_source : Settings → Run (Globals Cert) (Unit {0})
  select_tfstate_source s g =
      if s.tfstate_source_selector == "aws-s3"
      then if s.aws_tfstate_bucket == "" then (g, err empty_aws_tfstate_bucket) else (
        record g {
          tfstate_source = some record {
            bucket = s.aws_tfstate_bucket;
            assume_role = if s.aws_s3_assume_role == "" then none else some s.aws_s3_assume_role;
          };
        },
        ok tt,
      )
      else if s.tfstate_source_selector == ""
      then (g, ok tt)
      else (g, err invalid_tfstate_source_selector)

  -- `PersistentPreRunE` of the root command.
  unfoldable pub persistent_pre_run : Settings → Run (Globals Cert) (Unit {0})
  persistent_pre_run s = configure_tls s >> add_provider s >> select_tfstate_source s

-- The state manager of a command, whose source is nil where none is selected. `source` is
-- `s3.NewTfstateSource`.
abbrev pub source_of : {B : Type 0} → (TfstateSource → B) → Option TfstateSource → Option B
source_of source none = none
source_of source (some t) = some (source t)

abbrev pub command_state_manager :
    {Cert B S : Type 0}
    → (TfstateSource → Source B)
    → Settings
    → Globals Cert
    → List (Manager S)
    → StateManager B S
command_state_manager source s g managers = new_state_manager (
    with_tfstate_source (source_of source g.tfstate_source)
    ∷ with_periodic_sync_interval s.period_sync_interval
    ∷ with_managers managers
    ∷ [])

-- The context as the function that the server is given.
abbrev pub context_of : {C D : Type 0} → (C → D) → Option C → Option (Option D)
context_of config none = none
context_of config (some context) = some (some (config context))

-- The server of a command, on the handler of the command.
module _ {N : Net} {Cert : Type 0} (config : TlsConfig Cert → N.TlsConfig) where
  abbrev pub command_server : Settings → Globals Cert → N.Handler → Server N
  command_server s g handler = new_server (
      with_listener_address s.listener_address
      ∷ with_shutdown_timeout s.shutdown_timeout
      ∷ with_listener_protocol g.listener_protocol
      ∷ with_http_handler (some handler)
      ∷ with_tls_config (context_of config g.tls_context)
      ∷ [])
