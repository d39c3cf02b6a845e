-- ===== src/Search/Laws/Grpc.antt =====
-- On internal/user/search/controllergrpc.go, beside the controller for HTTP.
use go_api_demo.Prelude.{String, ◌≡◌, Option-cases, Bool-cases, inl, inr, byte_len, ltb}
use go_api_demo.Prelude.Dict.{Dict}
use go_api_demo.Error.{Error}
use go_api_demo.Context.{Context}
use go_api_demo.Response.{new_writer}
use go_api_demo.Sanitise.{remove_others, alpha_with_hyphen}
use go_api_demo.Server.{Host}
use go_api_demo.Time.Rfc3339.{Zone}
use go_api_demo.User.{Searcher}
use go_api_demo.Search.{search_users, search_term_min_len}
use go_api_demo.Search.Http
use go_api_demo.Search.Http.{param, search_http}
use go_api_demo.Search.Grpc.{respond, search_grpc}

module _ {S : Type 0} (searcher : Searcher S) (zone : Zone) (render : Error → String)
    (ctx : Context) (h : Host S) where
  host-respond :
      (term : String)
      → (respond alpha_with_hyphen searcher zone render ctx term h).1
        ≡ (Http.respond alpha_with_hyphen searcher zone render ctx term
            (record { writer = new_writer; host = h })).host
  unfolding respond Http.respond
  host-respond term = elim (Option-cases (search_users searcher ctx term h.store).0.1) [
    | inl e ↦ rw (e, respond) (rw (e, Http.respond))
    | inr (d, e) ↦ rw (e, respond) (rw (e, Http.respond))
  ]

  -- A search over gRPC and one over HTTP for the same text change the store and the log alike.
  pub search_grpc-http :
      (params : Dict String)
      → (search_grpc alpha_with_hyphen searcher zone render ctx (param "searchTerm" params) h).1
        ≡ (search_http alpha_with_hyphen searcher zone render ctx params
            (record { writer = new_writer; host = h })).host
  unfolding search_grpc search_http alpha_with_hyphen
  search_grpc-http params =
      elim (Bool-cases
        (ltb (byte_len (remove_others (param "searchTerm" params))) search_term_min_len)) [
          | inl e ↦ rw (e, search_grpc)
          | inr e ↦ rw (e, search_grpc) (host-respond _)
        ]
