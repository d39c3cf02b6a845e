-- ===== src/Read/Http.antt =====
-- internal/user/read/controllerhttp.go
use go_api_demo.Prelude.{String, none, some, List, [], ◌∷◌}
use go_api_demo.Error.{Error}
use go_api_demo.Context.{Context}
use go_api_demo.Json.{Json, str, arr, obj, items, end, member}
use go_api_demo.Log.{error_context}
use go_api_demo.Response.{write_response, write_500_response}
use go_api_demo.Server.{Exchange, with_log, with_writer, with_host}
use go_api_demo.Time.Rfc3339.{Zone}
use go_api_demo.User.{Reader}
use go_api_demo.Read.{read, Usr, view_model}

unfoldable pub user_json : Usr → Json
user_json u = obj (
    member "id" (str u.id) (
      member "first_name" (str u.first_name)
        (member "last_name" (str u.last_name) (member "created_at" (str u.created_at) end))))

-- The loop over the view model.
unfoldable pub users_json : List Usr → List Json
users_json [] = []
users_json (u ∷ vm) = user_json u ∷ users_json vm

module _ {S : Type 0} (user_reader : Reader S) (zone : Zone) (render : Error → String) where
  unfoldable pub read_http : Context → Exchange S → Exchange S
  read_http ctx x =
      let ((od, err), s) = read user_reader ctx x.host.store in
      let x' = with_host (λ h. record h { store = s }) x in
      elim err [
        | some e ↦
            with_writer write_500_response (with_host (with_log (error_context render ctx e)) x')
        | none ↦
            with_writer (write_response 200 (some (arr (items (users_json (view_model zone od))))))
              x'
      ]
