-- ===== src/Main/Laws.antt =====
-- On cmd/main.go, where every service answers.
use mathlib.Core.List.{Mem}
use mathlib.Core.Path.{subst}
use go_api_demo.Prelude.{
  ℕ, zero, suc, ◌+◌, String, ◌≡◌, refl, ap, sym, Bool, Bool-cases, false, Option, List, [], ◌∷◌,
  ◌⊎◌, inl, inr, length,
}
use go_api_demo.Error.{Error, nil_dereference, Outcome, returned, panicked}
use go_api_demo.Int.{pos_part}
use go_api_demo.App.{Group, Running, ctx_done, started, IsDone, here}
use go_api_demo.App
use go_api_demo.App.Laws.{IsGroup, first_error, Stops, app_run_lem, stop_all}
use go_api_demo.Config
use go_api_demo.Config.{Config, storage_type_sql}
use go_api_demo.Config.Lookup.{Env, Strconv}
use go_api_demo.Bootstrap.{new_app}
use go_api_demo.Bootstrap.Parts.{Kit, Process, App, Component}
use go_api_demo.Bootstrap.Up.{IsUp, Accepted}
use go_api_demo.Bootstrap.Laws.Readers.{readers_of}
use go_api_demo.Bootstrap.Laws.Close.{close_readers, Closes, new_app-close}
use go_api_demo.Main.{
  State, starting, waiting, ended, printed, after_new, after_run, Step, new, run, act, crash,
  finish, Steps, here, next,
}

module _ {W D R I Conn Codec Data G : Type 0} (kit : Kit W D R I Conn Codec Data) (up : IsUp kit)
    (render : Error → String) (group : Group G) (lawful : IsGroup group)
    (may_return : Component D R Codec → Bool → Option Error → Type 0)
    (acts : Component D R Codec → W → W → Type 0)
    (may_panic : Component D R Codec → String → Type 0) (conv : Strconv) (env : Env)
    (conf : Config) where
  abbrev MainSteps : State W D R Codec G → ℕ → State W D R Codec G → Type 0
  MainSteps = Steps kit render group may_return acts may_panic conv env

  -- The application that is run: `New` made it, and its run so far.
  abbrev Runs : App D R Codec → Running (Component D R Codec) G → Type 0
  Runs app a =
      Closes kit up render conf app
      × ((m : ℕ) × App.Steps group may_return (started group may_return app.components) m a)

  -- The state before the last step.
  abbrev pub before :
      {s : State W D R Codec G} {n : ℕ} {t : State W D R Codec G}
      → Steps kit render group may_return acts may_panic conv env s n t
      → State W D R Codec G
  before {s} here = s
  before (next {t = t} steps last) = t

  -- From the state `last`, in which main waited for the application: every component had returned;
  -- the first error was printed; and Close was called on the world as it was: with a storage of the
  -- type "sql" it closed Redis, the database and all readers, and otherwise it closed Redis and
  -- panicked.
  abbrev pub EndsWell : State W D R Codec G → Outcome (Unit {0}) → Process W → List String → Type 0
  EndsWell last result p lines =
      (q : Process W) × (app : App D R Codec) × (a : Running (Component D R Codec) G) × (last
        ≡ waiting q app a)
      × (length (readers_of app.components)
          ≡ pos_part conf.user_consumer_cache.num + pos_part conf.user_consumer_search.num)
      × IsDone group may_return a
      × (length a.results ≡ length app.components)
      × (lines ≡ printed (first_error a.results))
      × (((conf.storage.type ≡ storage_type_sql)
            × (result ≡ returned tt)
            × ((db : D) × (p.world
                  ≡ close_readers kit up render conf (readers_of app.components)
                      (kit.close_db db (kit.close_redis q.world)))))
          ⊎ ((¬ (conf.storage.type ≡ storage_type_sql))
              × (result ≡ panicked nil_dereference)
              × (p.world ≡ kit.close_redis q.world)))

  -- A component that was running panicked, and nothing was closed or printed.
  abbrev pub Crashed : State W D R Codec G → Outcome (Unit {0}) → Process W → List String → Type 0
  Crashed last result p lines =
      (q : Process W) × (app : App D R Codec) × (a : Running (Component D R Codec) G) × (last
        ≡ waiting q app a)
      × (p ≡ q)
      × ((c : Component D R Codec) × (text : String) × Mem c a.running
          × may_panic c text
          × (result ≡ panicked text)
          × (lines ≡ []))

  abbrev IsGood : State W D R Codec G → State W D R Codec G → Type 0
  IsGood last (starting p) = Unit
  IsGood last (waiting p app a) = Runs app a
  IsGood last (ended result p lines) = EndsWell last result p lines ⊎ Crashed last result p lines

  EndsWell-after_run :
      (p : Process W) (app : App D R Codec) (a : Running (Component D R Codec) G)
      → Runs app a
      → IsDone group may_return a
      → IsGood (waiting p app a) (
          after_run kit render group may_return acts may_panic conv env app p (group.error a.group))
  EndsWell-after_run p app a (closes, (m, steps)) done =
      let (_, cases) = app_run_lem group lawful may_return app.components m a steps in
      elim cases [
        | inl going ↦ absurd (going done)
        | inr (all, first) ↦ inl (
          p,
          app,
          a,
          refl,
          closes.0,
          done,
          all,
          ap printed first,
          elim (closes.1 p.world) [
            | inl (sql, (db, e)) ↦ inl (sql, ap (λ r. r.0) e, (db, ap (λ r. r.1) e))
            | inr (other, e) ↦ inr (other, ap (λ r. r.0) e, ap (λ r. r.1) e)
          ],
        )
      ]

  module _ (broker : String) (others : List String) (settings : Config.new conv env ≡ returned conf)
      (brokers : conf.topic_configs.brokers ≡ broker ∷ others) (ok : Accepted kit up conf) where
    IsGood-after_new :
        (p : Process W)
        → IsGood (starting p) (
            after_new kit render group may_return acts may_panic conv env
              (new_app kit render conv env p))
    IsGood-after_new p =
        let (app, q, e, closes) =
          new_app-close kit up render conf conv env broker others settings brokers ok p in
        subst
          (λ r.
            IsGood (starting p) (after_new kit render group may_return acts may_panic conv env r))
          (sym e) (closes, (zero, App.here))

    Step-IsGood :
        {s t : State W D R Codec G}
        → Step kit render group may_return acts may_panic conv env s t
        → (last : State W D R Codec G) → IsGood last s
        → IsGood s t
    Step-IsGood (new p) last good = IsGood-after_new p
    Step-IsGood (run p app step) last (closes, (m, steps)) = (closes, (suc m, App.next steps step))
    Step-IsGood (act p app a c w is acted) last good = good
    Step-IsGood (crash p app a c text is bad) last good =
        inr (p, app, a, refl, refl, (c, text, is, bad, refl, refl))
    Step-IsGood (finish p app a done) last good = EndsWell-after_run p app a good done

    Steps-IsGood :
        (p : Process W) {n : ℕ} {s : State W D R Codec G} (steps : MainSteps (starting p) n s)
        → IsGood (before steps) s
    Steps-IsGood p here = tt
    Steps-IsGood p (next steps last) = Step-IsGood last (before steps) (Steps-IsGood p steps)

    -- Every component can return once its context is done.
    abbrev pub AllStop : Type 0
    AllStop = Stops group lawful may_return []

    MainSteps-run :
        (q : Process W) (app : App D R Codec) {a b : Running (Component D R Codec) G} {n : ℕ}
        → App.Steps group may_return a n b
        → MainSteps (waiting q app a) n (waiting q app b)
    MainSteps-run q app App.here = here
    MainSteps-run q app (App.next steps last) = next (MainSteps-run q app steps) (run q app last)

    -- What becomes of a state. `New` makes an application; while `Run` has not returned, either no
    -- signal has come and no component has failed, or main can end; and where it has ended, it did so
    -- well.
    abbrev pub Fate : State W D R Codec G → State W D R Codec G → Type 0
    Fate last (starting q) =
        (p : Process W) × (app : App D R Codec) × Step kit render group may_return acts may_panic
          conv env (starting q) (waiting p app (started group may_return app.components))
    Fate last (waiting q app a) =
        (ctx_done group may_return a ≡ false)
        ⊎ ((n : ℕ) × (result : Outcome (Unit {0})) × (p : Process W) × (lines : List String)
            × MainSteps (waiting q app a) n (ended result p lines))
    Fate last (ended result q lines) = EndsWell last result q lines ⊎ Crashed last result q lines

    Fate-starting : (last : State W D R Codec G) (q : Process W) → Fate last (starting q)
    Fate-starting last q =
        let (app, p, e, _) =
          new_app-close kit up render conf conv env broker others settings brokers ok q in
        (
          p,
          app,
          subst
              (λ r.
                Step kit render group may_return acts may_panic conv env (starting q)
                  (after_new kit render group may_return acts may_panic conv env r))
              e (new q),
        )

    Fate-waiting :
        AllStop
        → (last : State W D R Codec G) (q : Process W) (app : App D R Codec)
          (a : Running (Component D R Codec) G)
        → Fate last (waiting q app a)
    Fate-waiting stops last q app a = elim (Bool-cases (ctx_done group may_return a)) [
      | inr e ↦ inl e
      | inl e ↦
          let (b, steps, done) = stop_all group lawful may_return [] stops a.running a refl e in
          inr (_, _, _, _, next (MainSteps-run q app steps) (finish q app b done))
    ]

    Fate-IsGood : AllStop → (last s : State W D R Codec G) → IsGood last s → Fate last s
    Fate-IsGood stops last (starting q) good = Fate-starting last q
    Fate-IsGood stops last (waiting q app a) good = Fate-waiting stops last q app a
    Fate-IsGood stops last (ended result q lines) good = good

    pub main_lem :
        AllStop
        → (p : Process W) (n : ℕ) (s : State W D R Codec G) (steps : MainSteps (starting p) n s)
        → Fate (before steps) s
    main_lem stops p n s steps = Fate-IsGood stops (before steps) s (Steps-IsGood p steps)
