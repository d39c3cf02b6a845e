-- ===== src/Trace.antt =====
-- The tracing that the clients of Redis and Elasticsearch are given: instrumentCache of
-- internal/storage/redis/user.go and instrumentSearch of internal/storage/elastic/user.go. The tracer
-- of OpenTelemetry is third-party code: `Tracer` is what the code calls of it.
use Prim.Native.Char.{code}
use Prim.Native.String
use go_api_demo.Prelude.{◌-◌, String, ◌<>◌, Option, List, [], ◌∷◌, map, if◌then◌else◌, ltb, ◌||◌}
use go_api_demo.Prelude.State.{State, ◌>>=◌}
use go_api_demo.Storage.Mysql.{join}
use go_api_demo.Error.{Error}
use go_api_demo.Context.{Context}

-- On the state `W` of the world: a span is that of the context that it starts.
pub record Tracer (W : Type 0) : Type 0 where
  pub start : Context → String → State W Context
  pub set_attributes : Context → List (String × String) → W → W
  pub finish : Context → W → W

-- strings.ToUpper of ASCII text, which the names of commands are.
unfoldable pub to_upper : String → String
to_upper String.[] = ""
to_upper (String.◌∷◌ c s) =
    let rest = to_upper s in
    if ltb (code c) 97 || ltb 122 (code c)
    then String.◌∷◌ c rest
    else String.slice "ABCDEFGHIJKLMNOPQRSTUVWXYZ" (code c - 97) (code c - 96) <> rest

unfoldable pub dial_hook :
    {W Conn : Type 0}
    → (Context → String → String → State W (Conn × Option Error))
    → Context
    → String
    → String
    → State W (Conn × Option Error)
dial_hook next ctx network addr = next ctx network addr

module _ {W : Type 0} (tracer : Tracer W) where
  -- `defer span.End()` after `next`.
  abbrev ending : {A : Type 0} → Context → State W A → State W A
  ending ctx next w = let (a, v) = next w in (a, tracer.finish ctx v)

  module _ {Cmd : Type 0} (name : Cmd → String) where
    unfoldable pub process_hook :
        (Context → Cmd → State W (Option Error)) → Context → Cmd → State W (Option Error)
    unfolding to_upper
    process_hook next ctx cmd = do
      span ← tracer.start ctx ("redis: " <> to_upper (name cmd))
      ending span (next span cmd)

    unfoldable pub process_pipeline_hook :
        (Context → List Cmd → State W (Option Error)) → Context → List Cmd → State W (Option Error)
    unfolding to_upper join
    process_pipeline_hook next ctx cmds = do
      span ←
          tracer.start ctx
            ("redis-pipeline: " <> join (map (λ cmd. to_upper (name cmd)) cmds) " --> ")
      ending span (next span cmds)

-- An http.Request as the transport reads it.
pub record Request : Type 0 where
  pub context : Context
  pub method : String
  pub url_path : String

module _ {W Response : Type 0} (tracer : Tracer W)
    (search : Request → State W (Response × Option Error)) where
  unfoldable pub perform : Request → State W (Response × Option Error)
  perform request = do
    ctx ← tracer.start request.context ("HTTP " <> request.method <> ": " <> request.url_path)
    ending tracer ctx (λ w.
        search (record request { context = ctx })
          (tracer.set_attributes ctx
            (("component", "database/elasticsearch")
              ∷ ("http.method", request.method)
              ∷ ("http.url", request.url_path)
              ∷ [])
            w))
