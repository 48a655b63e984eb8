-- ===== src/Commands/Routing/Tests.antt =====
-- The update of a build.
use cruiser.Base.{Bool, true, List, [], ◌∷◌, keys, ◌≡◌, refl}
use cruiser.Proto.{Handler}
use cruiser.State.Routes.Sample.{decode, built_state, built_state-IsRange, built_has, loaded_run}
use cruiser.Server.Router.Sample.{mux, provider}
use cruiser.Commands.Routing.{updated, crashed, run_loop, get_update, new_loop}
use cruiser.Commands.Routing.Crashing.{any_update_crashes}

abbrev returns : List (List Handler) → Bool
returns calls = true

any_update_crashes_example :
    run_loop mux keys provider get_update returns
      (updated (built_state, "c" ∷ "r" ∷ []) ∷ [])
      new_loop
    ≡ record new_loop { phase = crashed }
any_update_crashes_example =
    any_update_crashes mux keys provider returns decode built_state ("c" ∷ "r" ∷ []) "c" new_loop []
      loaded_run built_state-IsRange built_has refl
