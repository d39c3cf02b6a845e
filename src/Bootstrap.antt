-- ===== src/Bootstrap.antt =====
-- internal/bootstrap, with the functions that it calls to connect: NewLogger, NewUserCache,
-- NewUserSearch, NewValidator and GetDecoder. Third-party code is a `Kit`: what the code calls of the
-- libraries of logging, Redis, Elasticsearch, validation, SQL, Kafka, Avro and OpenTelemetry. A
-- storage, a cache or a search is the data that its constructor keeps.
pub mod Parts
pub mod Consumers
pub mod Routers
pub mod Up
pub mod Laws
use mathlib.Core.Option
use go_api_demo.Prelude.{String, Option, none, some, List, [], ◌∷◌, ◌++◌, map}
use go_api_demo.Error.{Error, Outcome, returned, panicked}
use go_api_demo.App.{Closer, close}
use go_api_demo.Effect.{Effect, ◌>>=◌, pure}
use go_api_demo.Config.{Config, new}
use go_api_demo.Config.Lookup.{Env, Strconv}
use go_api_demo.Bootstrap.Parts.{
  Kit, Process, App, Closable, redis, database, reader, Component, telemetry, must, lifted,
  or_panic, add_closer, new_logger, new_user_cache, new_user_search,
}
use go_api_demo.Bootstrap.Routers.{new_routers}
use go_api_demo.Bootstrap.Consumers.{new_user_consumers}

module _ {W D R I Conn Codec Data : Type 0} (kit : Kit W D R I Conn Codec Data)
    (render : Error → String) where
  abbrev configured : Outcome Config → Effect (Process W) Config
  configured conf p = (conf, p)

  -- New of internal/bootstrap/bootstrap.go, where `config` is what `config.New` returned.
  unfoldable pub new_from : Outcome Config → Effect (Process W) (App D R Codec)
  new_from config = do
    conf ← configured config
    logger ← lifted (or_panic (new_logger kit conf.logging_production))
    cache ← must render (new_user_cache kit conf.redis conf.telemetry.enabled)
    search ← must render (new_user_search kit conf.elasticsearch_addresses conf.telemetry.enabled)
    routers ← new_routers kit render conf cache.0 search
    consumers ← must render (new_user_consumers kit conf cache.0 search)
    pure (record {
      components = (telemetry conf.telemetry ∷ []) ++ routers.0 ++ consumers.0;
      closers = add_closer (add_closer (add_closer [] (cache.1 ∷ [])) routers.1) consumers.1;
    })

  unfoldable pub new_app : Strconv → Env → Effect (Process W) (App D R Codec)
  unfolding new_from
  new_app conv env = new_from (new conv env)

  abbrev pub closer : Closable D R → Closer W
  closer redis = kit.close_redis
  closer (database db) = kit.close_db db
  closer (reader r) = kit.close_reader r

  -- Close of internal/app/app.go
  abbrev pub close_app : App D R Codec → Effect W (Unit {0})
  close_app app w = close (map (Option.map closer) app.closers) w
