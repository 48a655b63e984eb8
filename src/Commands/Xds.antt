-- ===== src/Commands/Xds.antt =====
-- cmd/xds.go: what the command sets up, and the goroutine of `xds start`, which takes the updates.
use cruiser.Base.{ℕ, suc, String, List, [], ◌∷◌, Option, none, some, Outcome, ok, Error}
use cruiser.Base.Run.{Run, and_then}
use cruiser.State.Envoy.{Envoy, LinearCache}
use cruiser.State.Xds.{XdsState, new_xds_state}
use cruiser.State.Manager.{Manager}
use cruiser.State.Manager.Rounds.{Source, StateManager}
use cruiser.Server.Lifecycle.{Net, Server, close_server}
use cruiser.Aws.Discovery.{Xds, new_xds}
use cruiser.Tls.{TlsConfig}
use cruiser.Commands.{
  Settings, TfstateSource, Globals, persistent_pre_run, command_server, command_state_manager,
}

-- The variables of the flags of this command.
pub record XdsSettings : Type 0 where
  pub aws_service_discovery_namespaces : List String
  pub aws_service_port_tag_key : String

-- The other variables. `stopped` says that the gRPC server was stopped.
pub record XdsCommand (N : Net) (B : Type 0) (E : Envoy) (C : LinearCache) : Type 0 where
  pub xds_server : Server N
  pub xds_state : XdsState E C
  pub state_manager : StateManager B (XdsState E C)
  pub aws_service_discovery_xds : Option (Xds E C)
  pub stopped : ℕ

-- Without namespaces there is no service discovery.
abbrev pub discovery_of :
    {E : Envoy} {C : LinearCache} → XdsSettings → XdsState E C → Option (Xds E C)
discovery_of x state = elim x.aws_service_discovery_namespaces [
  | [] ↦ none
  | name ∷ names ↦ some (new_xds (name ∷ names) x.aws_service_port_tag_key state)
]

-- `PersistentPreRunE`. `serve` is the gRPC server as a handler, and `manager` the xDS state as a
-- manager.
unfoldable pub xds_pre_run :
    {N : Net} {B Cert : Type 0} {E : Envoy} {C : LinearCache}
    → (String → String → Outcome Cert)
    → Outcome Cert
    → (TlsConfig Cert → N.TlsConfig)
    → (TfstateSource → Source B)
    → N.Handler
    → Manager (XdsState E C)
    → Settings
    → XdsSettings
    → Run (Globals Cert) (XdsCommand N B E C)
xds_pre_run {N = N} load self_signed config source serve manager s x g =
    and_then (persistent_pre_run load self_signed s g) (λ _ g. (
      g,
      ok (record {
        xds_server = command_server {N = N} config s g serve;
        xds_state = new_xds_state;
        state_manager = command_state_manager source s g (manager ∷ []);
        aws_service_discovery_xds = discovery_of x new_xds_state;
        stopped = 0;
      }),
    ))

-- `PostRunE`: `GracefulStop`, and then the server is closed.
abbrev pub xds_post_run :
    {N : Net} {B : Type 0} {E : Envoy} {C : LinearCache}
    → Option Error
    → Option Error
    → Error
    → XdsCommand N B E C
    → XdsCommand N B E C × Option (Outcome (Unit {0}))
xds_post_run shut forced served c =
    let (server, o) = close_server shut forced served c.xds_server in
    (record c { xds_server = server; stopped = suc c.stopped }, o)

-- What the `select` of `xds start` receives.
pub data XdsEvent : Type 0 where
  cancelled updated : XdsEvent
  failed : Error → XdsEvent

-- The goroutine is in its loop, or has returned; `updates` counts what it has received, and `kills`
-- the sends of `os.Kill`.
pub record Drain : Type 0 where
  pub returned : ℕ
  pub updates : ℕ
  pub kills : ℕ

unfoldable pub run_drain : List XdsEvent → Drain → Drain
run_drain [] d = d
run_drain (cancelled ∷ es) d = record d { returned = 1 }
run_drain (failed e ∷ es) d = record d { returned = 1; kills = suc d.kills }
run_drain (updated ∷ es) d = run_drain es (record d { updates = suc d.updates })
