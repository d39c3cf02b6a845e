-- ===== src/Bootstrap/Routers.antt =====
-- `newRouters` of internal/bootstrap/router.go.
use go_api_demo.Prelude.{String, Option, List, [], ◌∷◌}
use go_api_demo.Error.{Error}
use go_api_demo.Effect.{Effect, ◌>>=◌, pure}
use go_api_demo.Config.{Config}
use go_api_demo.Routing.{new_http_router, new_grpc_router}
use go_api_demo.Bootstrap.Parts.{
  Kit, Process, UserCache, UserSearch, UserStorage, creating, reading, searching, Closable,
  Component, http, grpc, add_closer, must, new_validator, new_user_storage,
}

module _ {W D R I Conn Codec Data : Type 0} (kit : Kit W D R I Conn Codec Data)
    (render : Error → String) (conf : Config) (user_cache : UserCache)
    (user_search : UserSearch) where
  abbrev pub http_router : UserStorage D → Component D R Codec
  http_router user_storage = http (
      new_http_router
        (record {
          user_create_controller = creating user_storage;
          user_read_controller = reading user_cache;
          user_search_controller = searching user_search;
        })
        conf.telemetry.enabled conf.http.port conf.http.read_header_timeout)

  abbrev pub grpc_router : UserStorage D → Component D R Codec
  grpc_router user_storage = grpc (
      new_grpc_router
        (record {
          user_create = creating user_storage;
          user_read = reading user_cache;
          user_search = searching user_search;
        })
        conf.telemetry.enabled conf.grpc_port)

  unfoldable pub new_routers :
      Effect (Process W) (List (Component D R Codec) × List (Option (Closable D R)))
  new_routers = do
    validator ← must render (new_validator kit)
    made ← must render (new_user_storage kit conf.my_sql conf.storage conf.telemetry.enabled)
    pure (http_router made.0 ∷ grpc_router made.0 ∷ [], add_closer [] (made.1 ∷ []))
