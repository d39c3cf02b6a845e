-- ===== src/Main.antt =====
-- cmd/main.go: `main` makes the application, runs it, logs the error of the run, and closes it when
-- it returns. The goroutine of signalShutdownHandler cancels the context of the run, which is the
-- step `interrupt` of App. What a component does to the world while it runs is any relation, `acts`;
-- `may_panic` is what it may panic with, in its goroutine, which ends the program at once.
pub mod Laws
use mathlib.Core.List.{Mem}
use go_api_demo.Prelude.{ℕ, zero, suc, String, ◌<>◌, ◌≡◌, Bool, Option, none, some, List, [], ◌∷◌}
use go_api_demo.Error.{Error, message, Outcome, returned, panicked}
use go_api_demo.App.{Group, Running, started, IsDone}
use go_api_demo.App
use go_api_demo.Config.Lookup.{Env, Strconv}
use go_api_demo.Bootstrap.Parts.{Kit, Process, App, Component}
use go_api_demo.Bootstrap.{new_app, close_app}

-- `main` before it calls `New`, while it waits for `Run` to return, and when it has returned or
-- panicked, with what it has printed.
pub data State (W D R Codec G : Type 0) : Type 0 where
  starting : Process W → State W D R Codec G
  waiting : Process W → App D R Codec → Running (Component D R Codec) G → State W D R Codec G
  ended : Outcome (Unit {0}) → Process W → List String → State W D R Codec G

-- log.Printf of the error that `Run` returns, if there is one.
abbrev pub printed : Option Error → List String
printed none = []
printed (some e) = ("app run error: " <> message e <> "\n") ∷ []

module _ {W D R I Conn Codec Data G : Type 0} (kit : Kit W D R I Conn Codec Data)
    (render : Error → String) (group : Group G)
    (may_return : Component D R Codec → Bool → Option Error → Type 0)
    (acts : Component D R Codec → W → W → Type 0)
    (may_panic : Component D R Codec → String → Type 0) (conv : Strconv) (env : Env) where
  -- `New` has returned, and `Run` is called; or it has panicked.
  abbrev pub after_new : Outcome (App D R Codec) × Process W → State W D R Codec G
  after_new (returned app, p) = waiting p app (started group may_return app.components)
  after_new (panicked text, p) = ended (panicked text) p []

  -- `Run` has returned the error: it is printed, and the deferred Close is called.
  abbrev pub after_run : App D R Codec → Process W → Option Error → State W D R Codec G
  after_run app p err =
      let (result, w) = close_app kit render app p.world in
      ended result (record p { world = w }) (printed err)

  pub data Step : State W D R Codec G → State W D R Codec G → Type 0 where
    new : (p : Process W) → Step (starting p) (after_new (new_app kit render conv env p))
    run :
        (p : Process W) (app : App D R Codec) {a b : Running (Component D R Codec) G}
        → App.Step group may_return a b
        → Step (waiting p app a) (waiting p app b)
    act :
        (p : Process W) (app : App D R Codec) (a : Running (Component D R Codec) G)
        (c : Component D R Codec) (w : W)
        → Mem c a.running
        → acts c p.world w
        → Step (waiting p app a) (waiting (record p { world = w }) app a)
    crash :
        (p : Process W) (app : App D R Codec) (a : Running (Component D R Codec) G)
        (c : Component D R Codec) (text : String)
        → Mem c a.running
        → may_panic c text
        → Step (waiting p app a) (ended (panicked text) p [])
    finish :
        (p : Process W) (app : App D R Codec) (a : Running (Component D R Codec) G)
        → IsDone group may_return a
        → Step (waiting p app a) (after_run app p (group.error a.group))

  -- `n` steps.
  pub data Steps (s : State W D R Codec G) : ℕ → State W D R Codec G → Type 0 where
    here : Steps s zero s
    next : {n : ℕ} {t u : State W D R Codec G} → Steps s n t → Step t u → Steps s (suc n) u
