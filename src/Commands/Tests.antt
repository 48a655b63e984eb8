-- ===== src/Commands/Tests.antt =====
-- A command with TLS and a bucket, and one without either.
use cruiser.Base.{
  [], ◌∷◌, ℕ, String, true, false, List, none, Outcome, ok, err, panic, other, ◌≡◌, refl,
}
use cruiser.Tls.{TlsConfig, from_file, load_certs}
use cruiser.Server.Lifecycle.{Net, open_server}
use cruiser.Commands.{
  Settings, TfstateSource, command_state_manager, at_start, configure_tls, select_tfstate_source,
  persistent_pre_run, command_server,
}
use cruiser.Commands.Configuring.{
  IsConfigured, persistent_pre_run-IsConfigured, plain_server_panics, sourceless_round_panics,
}
use cruiser.State.Manager.{Manager}
use cruiser.State.Manager.Rounds.{Source, sync_round}

abbrev load : String → String → Outcome String
load cert_file key_file = ok cert_file

abbrev secure : Settings
secure = record {
  enable_tls = true;
  cert_file = "a.crt";
  key_file = "a.key";
  tls_insecure_skip_verify = false;
  listener_address = "0.0.0.0:4880";
  shutdown_timeout = 20;
  tfstate_source_selector = "aws-s3";
  aws_tfstate_bucket = "states";
  aws_s3_assume_role = "";
  period_sync_interval = 5;
  dynamodb_endpoint = "";
  health_check_interval = 0;
  health_check_parallelism = 4;
}

abbrev plain : Settings
plain = record secure { enable_tls = false; tfstate_source_selector = "" }

secure_runs : (persistent_pre_run load (err (other "key")) secure (at_start String)).1 ≡ ok tt
unfolding persistent_pre_run configure_tls select_tfstate_source from_file load_certs
secure_runs = refl

plain_runs : (persistent_pre_run load (err (other "key")) plain (at_start String)).1 ≡ ok tt
unfolding persistent_pre_run configure_tls select_tfstate_source
plain_runs = refl

persistent_pre_run-IsConfigured_example :
    IsConfigured load
      (err (other "key"))
      secure
      (persistent_pre_run load (err (other "key")) secure (at_start String)).0
persistent_pre_run-IsConfigured_example =
    persistent_pre_run-IsConfigured load (err (other "key")) secure secure_runs

abbrev net : Net
net = record {
  Listener = String;
  TlsConfig = List String;
  Handler = String;
  tls_listen = λ a c. ok a;
  net_listen = λ a. ok a;
  h2c_handler = λ h. h;
  configure_server = λ h. none;
}

abbrev certificates_of : TlsConfig String → List String
certificates_of c = c.certificates

plain_server_panics_example :
    let server =
      command_server {N = net} certificates_of plain
        (persistent_pre_run load (err (other "key")) plain (at_start String)).0
        "router" in
    open_server server ≡ (server, panic)
plain_server_panics_example =
    plain_server_panics load (err (other "key")) {N = net} certificates_of plain "router" refl refl
      plain_runs

abbrev no_manager : Manager ℕ
no_manager = record { read_from_tfstate = λ t n. (n, ok tt); build = λ n. (n, ok tt) }

abbrev empty_source : TfstateSource → Source ℕ
empty_source t n = (n, ok none)

sourceless_round_panics_example :
    sync_round
      (command_state_manager empty_source plain
        (persistent_pre_run load (err (other "key")) plain (at_start String)).0
        (no_manager ∷ []))
      (3, 7)
    ≡ ((3, 7), panic)
sourceless_round_panics_example =
    sourceless_round_panics load (err (other "key")) empty_source plain (no_manager ∷ []) (3, 7)
      refl plain_runs
