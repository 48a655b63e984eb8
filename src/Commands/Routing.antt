-- ===== src/Commands/Routing.antt =====
-- cmd/router.go: the goroutine of `router start`, which makes a router of each update of the routes
-- and swaps it in; and what the command sets up before and takes down after.
pub mod Crashing
mod Tests
use cruiser.Base.{
  ℕ, suc, String, Bool, true, false, List, [], ◌∷◌, ◌++◌, Option, none, some, Dict, length, keys,
  Outcome, ok, err, panic, Error, if◌then◌else◌,
}
use cruiser.Base.Run.{Run, ◌>>=◌, ◌>>◌, and_then}
use cruiser.Proto.{Handler, Route}
use cruiser.State.Routes.{RoutesState, get_routes}
use cruiser.State.Manager.{Manager}
use cruiser.State.Manager.Rounds.{Source, StateManager}
use cruiser.Server.Lifecycle.{Net, Server, close_server}
use cruiser.Server.Router.{
  Mux, BackendProvider, Router, new_router, with_backend_provider, with_router_config,
}
use cruiser.Server.Swap.{SwapHandler, new_swap_handler, swap, close}
use cruiser.Tls.{TlsConfig}
use cruiser.Commands.{
  Settings, TfstateSource, Globals, persistent_pre_run, command_server, command_state_manager,
}

-- What the `select` receives: the context is cancelled, the state manager has an error, or the
-- routes have an update. `U` is what `GetRoutes` reads.
pub data Event (U : Type 0) : Type 0 where
  cancelled : Event U
  failed : Error → Event U
  updated : U → Event U

-- The goroutine is in its loop, in a health check that does not return, has returned, or has
-- panicked, which ends the program.
pub data LoopPhase : Type 0 where
  looping checking returned crashed : LoopPhase

-- `kills` counts the sends of `os.Kill`, and `health_checks` are the handlers of each call of
-- `HealthCheckHandlers`.
pub record Loop {H : Type 0} (M : Mux H) : Type 0 where
  pub phase : LoopPhase
  pub kills : ℕ
  pub health_checks : List (List Handler)
  pub handler : SwapHandler (Router M)

abbrev pub new_loop : {H : Type 0} {M : Mux H} → Loop M
new_loop = record { phase = looping; kills = 0; health_checks = []; handler = new_swap_handler }

-- The goroutine that watches stores what it holds.
abbrev pub settle : {H : Type 0} → SwapHandler H → SwapHandler H
settle s = elim s.holding [ none ↦ s | some h ↦ record s { handler = some h; holding = none } ]

-- `GetRoutes` on the state of an update: the order of its range over the nodes, and a walk that is
-- as deep as there are nodes.
abbrev pub get_update : RoutesState × List String → Outcome (List Route)
get_update (s, order) = elim (get_routes (length (keys s.routes.nodes)) order s) [
  | none ↦ panic
  | some outcome ↦ outcome
]

-- `provider` is the one that cmd/root.go adds. `get` is `GetRoutes`. `returns` says whether a call
-- of the provider's `HealthCheckHandlers` returns, given the handlers of all calls so far.
module _ {H : Type 0} (M : Mux H) (range : Dict String → List String) (provider : BackendProvider H)
    {U : Type 0} (get : U → Outcome (List Route)) (returns : List (List Handler) → Bool) where
  abbrev pub make_router : List Route → Option (Router M)
  make_router routes =
      new_router M range
        (with_backend_provider M range provider ∷ with_router_config M range routes ∷ [])

  -- `routerHandler.Swap(router)`, which waits until the handler before is stored.
  abbrev pub swap_in : Router M → Loop M → Loop M
  swap_in r l = elim (swap r (settle l.handler)) [
    | some (t, ok _) ↦ record l { handler = t }
    | _ ↦ record l { phase = crashed }
  ]

  -- `router.DoHealthcheck`, over the one provider, and what follows it.
  unfoldable pub check_and_swap : Router M → Loop M → Loop M
  check_and_swap r l =
      let called = record l { health_checks = l.health_checks ++ r.handlers ∷ [] } in
      if returns called.health_checks then swap_in r called else record called { phase = checking }

  abbrev pub stop : Loop M → Loop M
  stop l = record l { phase = returned; kills = suc l.kills }

  -- `NewRouter` gives no router where it panics.
  abbrev pub on_router : Option (Router M) → Loop M → Loop M
  on_router none l = record l { phase = crashed }
  on_router (some r) l = check_and_swap r l

  unfoldable pub on_routes : Outcome (List Route) → Loop M → Loop M
  on_routes (err e) l = stop l
  on_routes panic l = record l { phase = crashed }
  on_routes (ok routes) l = on_router (make_router routes) l

  unfoldable pub on_event : Event U → Loop M → Loop M
  on_event cancelled l = record l { phase = returned }
  on_event (failed e) l = stop l
  on_event (updated u) l = on_routes (get u) l

  -- The loop over the events that are received while it runs.
  unfoldable pub run_loop : List (Event U) → Loop M → Loop M
  run_loop [] l = l
  run_loop (e ∷ es) l = elim l.phase [ looping ↦ run_loop es (on_event e l) | _ ↦ l ]

-- The variables of the command.
pub record RouterCommand {H : Type 0} (M : Mux H) (N : Net) (B : Type 0) : Type 0 where
  pub router_handler : SwapHandler (Router M)
  pub router_server : Server N
  pub state_manager : StateManager B RoutesState

-- `PersistentPreRunE`: `serve` is the handler as one of net/http, `routes` the routes state as a
-- manager, and `source` and `config` are those of the other commands.
unfoldable pub router_pre_run :
    {H : Type 0} {M : Mux H} {N : Net} {B Cert : Type 0}
    → (String → String → Outcome Cert)
    → Outcome Cert
    → (TlsConfig Cert → N.TlsConfig)
    → (TfstateSource → Source B)
    → N.Handler
    → Manager RoutesState
    → Settings
    → Run (Globals Cert) (RouterCommand M N B)
router_pre_run {N = N} load self_signed config source serve routes s g =
    and_then (persistent_pre_run load self_signed s g) (λ _ g. (
      g,
      ok (record {
        router_handler = new_swap_handler;
        router_server = command_server {N = N} config s g serve;
        state_manager = command_state_manager source s g (routes ∷ []);
      }),
    ))

-- `PostRunE`: the handler is closed before the server is.
unfoldable pub router_post_run :
    {H : Type 0} {M : Mux H} {N : Net} {B : Type 0}
    → Option Error
    → Option Error
    → Error
    → RouterCommand M N B
    → RouterCommand M N B × Option (Outcome (Unit {0}))
router_post_run shut forced served c =
    let (h, o) = close c.router_handler in
    elim o [
      | ok _ ↦
          let (server, o) = close_server shut forced served c.router_server in
          (record c { router_handler = h; router_server = server }, o)
      | err e ↦ (record c { router_handler = h }, some (err e))
      | panic ↦ (record c { router_handler = h }, some panic)
    ]
