-- ===== src/Tests/Main.antt =====
-- The program as a whole, with the kit of Tests.Bootstrap and the group of Tests.App.
use go_api_demo.Prelude.{ℕ, ◌≡◌, refl, String, Bool, true, Option, none, List, []}
use go_api_demo.Error.{Error}
use go_api_demo.App.{Running, started}
use go_api_demo.Bootstrap.Parts.{Process, Component}
use go_api_demo.Main.{State, starting, waiting, Steps, here}
use go_api_demo.Main.Laws.{AllStop, Fate, main_lem}
use go_api_demo.Tests.Fixtures.{render, sink}
use go_api_demo.Tests.App.{group, group-IsGroup}
use go_api_demo.Tests.Bootstrap.{kit, kit-IsUp, conf, conv, env, settings, accepted}

-- Each component returns nil when its context is done, and opens nothing.
data MayReturn (c : Component String ℕ String) : Bool → Option Error → Type 0 where
  stopped : MayReturn c true none

abbrev Acts : Component String ℕ String → List String → List String → Type 0
Acts c v w = v ≡ w

abbrev Panics : Component String ℕ String → String → Type 0
Panics c text = text ≡ "slice bounds out of range"

abbrev at_start : Process (List String)
at_start = record { world = []; sink = sink }

abbrev StepsHere : ℕ → State (List String) String ℕ String (Option Error) → Type 0
StepsHere = Steps kit render group MayReturn Acts Panics conv env (starting at_start)

stops :
    AllStop kit kit-IsUp render group group-IsGroup MayReturn Acts Panics conv env conf "kafka:9092"
      [] settings refl accepted
stops c = (none, stopped)

abbrev StateHere : Type 0
StateHere = State (List String) String ℕ String (Option Error)

abbrev FateHere : StateHere → StateHere → Type 0
FateHere =
    Fate kit kit-IsUp render group group-IsGroup MayReturn Acts Panics conv env conf "kafka:9092" []
      settings refl accepted

first : FateHere (starting at_start) (starting at_start)
first =
    main_lem kit kit-IsUp render group group-IsGroup MayReturn Acts Panics conv env conf
      "kafka:9092" [] settings refl accepted stops at_start 0 (starting at_start) here

abbrev running : Running (Component String ℕ String) (Option Error)
running = started group MayReturn first.1.components

-- A signal comes.
abbrev signalled : State (List String) String ℕ String (Option Error)
signalled = waiting first.0 first.1 (record running { interrupted = true })
