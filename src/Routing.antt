-- ===== src/Routing.antt =====
-- internal/routing: the routes of the HTTP server, the methods of the gRPC server, and the run of
-- both. The router, the servers and the listener are third-party or standard code.
pub mod Run
use go_api_demo.Prelude.{String, Bool, Option, List, [], ◌∷◌, ◌++◌, map, if◌then◌else◌}
use go_api_demo.Prelude.State.{State}
use go_api_demo.Int.{ℤ}

pub record HttpControllers (H : Type 0) : Type 0 where
  pub user_create_controller : H
  pub user_read_controller : H
  pub user_search_controller : H

-- `route` of the source.
pub record Route (H : Type 0) : Type 0 where
  pub path : String
  pub handler_func : H
  pub method : String

-- What the router has for a path: the answer 200, `pprof.Profile`, a controller, or a controller
-- before which the path is added to the labels of the request.
pub data Handler (H : Type 0) : Type 0 where
  answer_ok profile : Handler H
  plain : H → Handler H
  labelled : String → H → Handler H

-- An entry of the router; without methods it is for all of them.
pub record Entry (H : Type 0) : Type 0 where
  pub path : String
  pub handler : Handler H
  pub methods : List String

-- The entries are in the order in which they were added; `traced` is whether the router is wrapped in
-- otelhttp's handler.
pub record HttpRouter (H : Type 0) : Type 0 where
  pub entries : List (Entry H)
  pub traced : Bool
  pub port : ℤ
  pub read_header_timeout : ℤ

module _ {H : Type 0} where
  unfoldable pub routes : HttpControllers H → List (Route H)
  routes controllers =
      record { path = "/user"; handler_func = controllers.user_create_controller; method = "POST" }
      ∷ record { path = "/user"; handler_func = controllers.user_read_controller; method = "GET" }
      ∷ record {
        path = "/user/search/{searchTerm}";
        handler_func = controllers.user_search_controller;
        method = "GET";
      }
      ∷ []

  unfoldable pub telemetry_handler_func : Bool → H → String → Handler H
  telemetry_handler_func telemetry_enabled f path =
      if telemetry_enabled then labelled path f else plain f

  unfoldable pub new_http_router : HttpControllers H → Bool → ℤ → ℤ → HttpRouter H
  unfolding routes telemetry_handler_func
  new_http_router controllers telemetry_enabled port read_header_timeout = record {
    entries =
        record { path = "/"; handler = answer_ok; methods = [] }
        ∷ record { path = "/debug/pprof/profile"; handler = profile; methods = [] }
        ∷ map
            (λ (r : Route H). record {
              path = r.path;
              handler = telemetry_handler_func telemetry_enabled r.handler_func r.path;
              methods = r.method ∷ [];
            })
            (routes controllers);
    traced = telemetry_enabled;
    port = port;
    read_header_timeout = read_header_timeout;
  }

pub record GrpcControllers (C R S : Type 0) : Type 0 where
  pub user_create : C
  pub user_read : R
  pub user_search : S

pub record GrpcRouter (C R S : Type 0) : Type 0 where
  pub user_server : GrpcControllers C R S
  pub telemetry_enabled : Bool
  pub port : ℤ

unfoldable pub new_grpc_router :
    {C R S : Type 0} → GrpcControllers C R S → Bool → ℤ → GrpcRouter C R S
new_grpc_router controllers telemetry_enabled port = record {
  user_server = record {
    user_create = controllers.user_create;
    user_read = controllers.user_read;
    user_search = controllers.user_search;
  };
  telemetry_enabled = telemetry_enabled;
  port = port;
}

-- The methods of the gRPC server, on the state `S`.
module _ {S Ctx CreateReq ReadReq SearchReq User Users : Type 0}
    (us : GrpcControllers
      (Ctx → CreateReq → State S User)
      (Ctx → ReadReq → State S Users)
      (Ctx → SearchReq → State S Users)) where
  unfoldable pub server_create : Ctx → CreateReq → State S User
  server_create ctx create_req = us.user_create ctx create_req

  unfoldable pub server_read : Ctx → ReadReq → State S Users
  server_read ctx read_req = us.user_read ctx read_req

  unfoldable pub server_search : Ctx → SearchReq → State S Users
  server_search ctx search_req = us.user_search ctx search_req
