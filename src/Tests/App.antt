-- ===== src/Tests/App.antt =====
-- The run of the application.
use go_api_demo.Prelude.{
  ℕ, ◌+◌, ◌≤◌, ◌≡◌, refl, Bool, true, false, ◌||◌, Option, none, some, List, [], ◌∷◌, ◌⊎◌, length,
}
use go_api_demo.Error.{Error, made}
use go_api_demo.App.{Group, Running, ctx_done, started, Steps, finish, here, next, IsDone}
use go_api_demo.App.Laws.{IsGroup, first_error, any_error, Stops, app_run_lem, app_run_stops}

-- A group whose state is its first error.
abbrev pub group : Group (Option Error)
group = record {
  with_context = none;
  finish = λ r g. elim g [ none ↦ r | some e ↦ some e ];
  error = λ g. g;
  cancelled = λ g. elim g [ none ↦ false | some e ↦ true ];
}

keeps :
    (r g : Option Error)
    → group.cancelled (group.finish r g) ≡ (elim r [ none ↦ group.cancelled g | some e ↦ true ])
keeps none none = refl
keeps none (some e) = refl
keeps (some d) none = refl
keeps (some d) (some e) = refl

pub group-IsGroup : IsGroup group
group-IsGroup = record {
  error_start = refl;
  open_start = refl;
  error_finish = λ r g. refl;
  cancelled_finish = keeps;
}

-- Component 0 returns nil when its context is done, any other fails at some time.
data MayReturn : ℕ → Bool → Option Error → Type 0 where
  stopped : MayReturn 0 true none
  failed : {n : ℕ} {b : Bool} → MayReturn n b (some (made "failed"))

abbrev components : List ℕ
components = 0 ∷ 1 ∷ []

abbrev app : Running ℕ (Option Error)
app = record {
  running = 0 ∷ [];
  group = some (made "failed");
  interrupted = false;
  results = some (made "failed") ∷ [];
}

app-Steps : Steps group MayReturn (started group MayReturn components) 1 app
app-Steps = next here (finish (0 ∷ []) 1 [] (some (made "failed")) refl failed)

app_run_lem_example :
    (ctx_done group MayReturn app ≡ (false || any_error app.results))
    × ((¬ IsDone group MayReturn app)
        ⊎ ((length app.results ≡ length components)
            × (group.error app.group ≡ first_error app.results)))
app_run_lem_example = app_run_lem group group-IsGroup MayReturn components 1 app app-Steps

stops : Stops group group-IsGroup MayReturn components
stops c = (some (made "failed"), failed)

app_run_stops_example :
    (1 ≤ length components + 1)
    × ((ctx_done group MayReturn app ≡ false)
        ⊎ ((b : Running ℕ (Option Error)) × Steps group MayReturn app (length app.running) b
            × IsDone group MayReturn b))
app_run_stops_example = app_run_stops group group-IsGroup MayReturn components stops 1 app app-Steps
