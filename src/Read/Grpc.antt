-- ===== src/Read/Grpc.antt =====
-- internal/user/read/controllergrpc.go
use go_api_demo.Prelude.{String, Option, none, some, List, [], ◌∷◌}
use go_api_demo.Error.{Error}
use go_api_demo.Context.{Context}
use go_api_demo.Create.Grpc.{UserResponse}
use go_api_demo.Log.{error_context}
use go_api_demo.Server.{Host, with_log}
use go_api_demo.Time.Rfc3339.{Zone}
use go_api_demo.User.{Reader}
use go_api_demo.Read.{read, Usr, view_model}

-- UsersResponse of proto/user.proto; a nil response is `none`.
pub record UsersResponse : Type 0 where
  pub users : List UserResponse

abbrev pub Reply : Type 0
Reply = Option UsersResponse × Option Error

-- The loop over the view model.
unfoldable pub user_responses : List Usr → List UserResponse
user_responses [] = []
user_responses (u ∷ vm) =
    record {
      id = u.id;
      first_name = u.first_name;
      last_name = u.last_name;
      created_at = u.created_at;
    }
    ∷ user_responses vm

module _ {S : Type 0} (user_reader : Reader S) (zone : Zone) (render : Error → String) where
  unfoldable pub read_grpc : Context → Host S → Reply × Host S
  read_grpc ctx h =
      let ((od, err), s) = read user_reader ctx h.store in
      let h' = record h { store = s } in
      elim err [
        | some e ↦ ((none, some e), with_log (error_context render ctx e) h')
        | none ↦ ((some (record { users = user_responses (view_model zone od) }), none), h')
      ]
