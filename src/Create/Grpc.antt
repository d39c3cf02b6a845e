-- ===== src/Create/Grpc.antt =====
-- internal/user/create/controllergrpc.go
use go_api_demo.Prelude.{String, ◌<>◌, Option, none, some}
use go_api_demo.Error.{Error, made, Outcome, returned, panicked}
use go_api_demo.Context.{Context}
use go_api_demo.Fmt.{show_map}
use go_api_demo.Log.{infof_context, error_context}
use go_api_demo.Server.{Host, with_log}
use go_api_demo.Time.Rfc3339.{Zone}
use go_api_demo.User.{Creator}
use go_api_demo.Validate.{Engine, validate_struct}
use go_api_demo.Create.{InputData, input_fields, Draw, create, view_model}

-- The messages of proto/user.proto that the method reads and makes.
pub record CreateRequest : Type 0 where
  pub first_name : String
  pub last_name : String

pub record UserResponse : Type 0 where
  pub id : String
  pub first_name : String
  pub last_name : String
  pub created_at : String

abbrev pub Reply : Type 0
Reply = Option UserResponse × Option Error

module _ {S : Type 0} (engine : Engine) (user_creator : Creator S) (zone : Zone)
    (render : Error → String) where
  unfoldable pub respond : Context → Draw → InputData → Host S → Reply × Host S
  respond ctx draw input h =
      let ((od, err), s) = create user_creator ctx draw input h.store in
      let h' = record h { store = s } in
      elim err [
        | some e ↦ ((none, some e), with_log (error_context render ctx e) h')
        | none ↦
            let vm = view_model zone od in
            (
              (
                some (record {
                  id = vm.id;
                  first_name = vm.first_name;
                  last_name = vm.last_name;
                  created_at = vm.created_at;
                }),
                none,
              ),
              h',
            )
      ]

  unfoldable pub create_grpc : Context → Draw → CreateRequest → Host S → Outcome Reply × Host S
  unfolding respond
  create_grpc ctx draw req h =
      let input : InputData = record { first_name = req.first_name; last_name = req.last_name } in
      elim (validate_struct engine (input_fields input)) [
        | panicked text ↦ (panicked text, h)
        | returned (some errs) ↦ (
          returned (none, some (made (show_map errs))),
          with_log (infof_context ctx ("input invalid: " <> show_map errs)) h,
        )
        | returned none ↦ let (reply, h') = respond ctx draw input h in (returned reply, h')
      ]
