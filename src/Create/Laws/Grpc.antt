-- ===== src/Create/Laws/Grpc.antt =====
-- On internal/user/create/controllergrpc.go, beside the controller for HTTP.
use go_api_demo.Prelude.{String, ◌≡◌, inl, inr, Option-cases, none, some}
use go_api_demo.Error.{Error, Outcome-cases}
use go_api_demo.Context.{Context}
use go_api_demo.Json.{Document}
use go_api_demo.Response.{new_writer}
use go_api_demo.Server.{Host}
use go_api_demo.Time.Rfc3339.{Zone}
use go_api_demo.User.{Creator}
use go_api_demo.Validate.{Engine, validate_struct}
use go_api_demo.Create.{create, input_fields, InputData, Draw}
use go_api_demo.Create.Http
use go_api_demo.Create.Http.{validated, decode_input, create_http}
use go_api_demo.Create.Grpc.{respond, CreateRequest, create_grpc}

abbrev pub request_of : InputData → CreateRequest
request_of input = record { first_name = input.first_name; last_name = input.last_name }

module _ {S : Type 0} (engine : Engine) (creator : Creator S) (zone : Zone)
    (render : Error → String) (ctx : Context) (draw : Draw) (input : InputData) (h : Host S) where
  host-respond :
      (respond engine creator zone render ctx draw input h).1
      ≡ (Http.respond engine creator zone render ctx draw input
          (record { writer = new_writer; host = h })).host
  unfolding respond Http.respond
  host-respond = elim (Option-cases (create creator ctx draw input h.store).0.1) [
    | inl e ↦ rw (e, respond) (rw (e, Http.respond))
    | inr (d, e) ↦ rw (e, respond) (rw (e, Http.respond))
  ]

  host-validated :
      (create_grpc engine creator zone render ctx draw (request_of input) h).1
      ≡ (validated engine creator zone render ctx draw input
          (record { writer = new_writer; host = h })).1.host
  unfolding create_grpc validated
  host-validated = elim (Outcome-cases (validate_struct engine (input_fields input))) [
    | inr (text, e) ↦ rw (e, create_grpc) (rw (e, validated))
    | inl (none, e) ↦ rw (e, create_grpc) (rw (e, validated) host-respond)
    | inl (some errs, e) ↦ rw (e, create_grpc) (rw (e, validated))
  ]

-- For a body that decodes, HTTP and gRPC change the store and the log alike.
pub create_grpc-http :
    {S : Type 0} (engine : Engine) (creator : Creator S) (zone : Zone) (render : Error → String)
    (ctx : Context) (draw : Draw) (body : Document) (input : InputData) (h : Host S)
    → decode_input body ≡ (input, none)
    → (create_grpc engine creator zone render ctx draw (request_of input) h).1
      ≡ (create_http engine creator zone render ctx draw body
          (record { writer = new_writer; host = h })).1.host
unfolding create_http
create_grpc-http engine creator zone render ctx draw body input h decoded =
    rw (decoded, create_http)
      (rw decoded (host-validated engine creator zone render ctx draw input h))
