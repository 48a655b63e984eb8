-- ===== src/Commands/Routing/Crashing.antt =====
-- What the first update with a route does to the loop.
use cruiser.Base.{
  String, Bool, true, false, List, [], ◌∷◌, some, Dict, IsRange, length, keys, has, panic, Outcome,
  ◌≡◌, refl, ap, ◌∙◌,
}
use cruiser.Proto.{Handler, Route}
use cruiser.State.Graph.Valid.{IsValid}
use cruiser.State.Routes.{RoutesState, route_key, build, get_routes}
use cruiser.State.Routes.Building.{is_orphan, IsKeyed}
use cruiser.State.Graph.Topological.{topological_sort_panics}
use cruiser.State.Routes.Runs.{Run, Run-IsSound}
use cruiser.State.Routes.Update.{build-get_routes}
use cruiser.Server.Router.{Mux, BackendProvider}
use cruiser.Commands.Routing.{
  Event, updated, looping, crashed, Loop, on_routes, on_event, run_loop, get_update,
}

module _ {H : Type 0} (M : Mux H) (range : Dict String → List String) (provider : BackendProvider H)
    (returns : List (List Handler) → Bool) where
  run_loop-looping :
      (e : Event (RoutesState × List String)) (es : List (Event (RoutesState × List String)))
      (l : Loop M)
      → l.phase ≡ looping
      → run_loop M range provider get_update returns (e ∷ es) l
        ≡ run_loop M range provider get_update returns es
            (on_event M range provider get_update returns e l)
  unfolding run_loop
  run_loop-looping e es l p = rw p refl

  crash-update :
      (s : RoutesState) (nodes : List String) (l : Loop M)
      → get_routes (length (keys s.routes.nodes)) nodes s ≡ some panic
      → on_event M range provider get_update returns (updated (s, nodes)) l
        ≡ record l { phase = crashed }
  unfolding on_event on_routes
  crash-update s nodes l e = rw (e, get_update) refl

  run_loop-crashed :
      (es : List (Event (RoutesState × List String))) (l : Loop M)
      → l.phase ≡ crashed
      → run_loop M range provider get_update returns es l ≡ l
  unfolding run_loop
  run_loop-crashed [] l p = refl
  run_loop-crashed (e ∷ es) l p = rw p refl

  -- The update of a `Build` that was given a route, in which no route that was read names a parent
  -- that was not, and on a graph that was valid, makes the loop panic, which ends the program: no
  -- router is swapped in by it or by what comes later, and no kill is sent.
  pub routes_update_crashes :
      (s : RoutesState) (order nodes : List String) (k : String) (l : Loop M)
      (es : List (Event (RoutesState × List String)))
      → IsKeyed s.routes_map
      → IsRange order s.routes_map
      → IsValid route_key s.routes
      → ((k : String) → is_orphan s.routes_map k ≡ false)
      → has s.routes_map k ≡ true
      → IsRange nodes (build order s).0.routes.nodes
      → l.phase ≡ looping
      → run_loop M range provider get_update returns (updated ((build order s).0, nodes) ∷ es) l
        ≡ record l { phase = crashed }
  routes_update_crashes s order nodes k l es keyed range_of valid placed read nodes_of p =
      run_loop-looping (updated ((build order s).0, nodes)) es l p
      ∙ ap (run_loop M range provider get_update returns es) (
          crash-update (build order s).0 nodes l
            (build-get_routes s keyed order range_of valid placed k read nodes nodes_of))
      ∙ run_loop-crashed es (record l { phase = crashed }) refl

  -- Whatever states were read and whatever builds were made, with whatever errors: an update of
  -- routes of which there is one makes the loop panic, which ends the program: no router is swapped
  -- in by it or by what comes later, and no kill is sent.
  pub any_update_crashes :
      (unmarshal : String → Outcome Route) (s : RoutesState) (nodes : List String) (k : String)
      (l : Loop M) (es : List (Event (RoutesState × List String)))
      → Run unmarshal s
      → IsRange nodes s.routes.nodes
      → has s.routes.nodes k ≡ true
      → l.phase ≡ looping
      → run_loop M range provider get_update returns (updated (s, nodes) ∷ es) l
        ≡ record l { phase = crashed }
  unfolding get_routes
  any_update_crashes unmarshal s nodes k l es run nodes_of there p =
      run_loop-looping (updated (s, nodes)) es l p
      ∙ ap (run_loop M range provider get_update returns es) (
          crash-update s nodes l (
            topological_sort_panics route_key s.routes (Run-IsSound unmarshal run).valid nodes
              nodes_of k there))
      ∙ run_loop-crashed es (record l { phase = crashed }) refl
