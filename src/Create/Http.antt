-- ===== src/Create/Http.antt =====
-- internal/user/create/controllerhttp.go
use go_api_demo.Prelude.{String, ◌<>◌, Option, none, some, [], ◌∷◌, if◌then◌else◌}
use go_api_demo.Error.{Error, message, Outcome, returned, panicked}
use go_api_demo.Context.{Context}
use go_api_demo.Fmt.{show_map}
use go_api_demo.Json.{
  Json, null, obj, str, Members, end, member, Document, document, broken, is_field, decode_text,
  type_error, first_error,
}
use go_api_demo.Log.{errorf_context, infof_context, error_context}
use go_api_demo.Response.{write_response, write_error_response, write_500_response}
use go_api_demo.Server.{Exchange, with_log, with_writer, with_host}
use go_api_demo.Time.Rfc3339.{Zone}
use go_api_demo.User.{Creator}
use go_api_demo.Validate.{Engine, validate_struct}
use go_api_demo.Create.{InputData, input_fields, Draw, create, ViewModel, view_model}

abbrev pub empty_input : InputData
empty_input = record { first_name = ""; last_name = "" }

decode_member : String → Json → InputData → InputData × Option Error
decode_member key v input =
    if is_field "first_name" key
    then (let (s, e) = decode_text v input.first_name in (record input { first_name = s }, e))
    else if is_field "last_name" key
    then (let (s, e) = decode_text v input.last_name in (record input { last_name = s }, e))
    else (input, none)

decode_members : Members → InputData → Option Error → InputData × Option Error
decode_members end input saved = (input, saved)
decode_members (member key v rest) input saved =
    let (input', e) = decode_member key v input in decode_members rest input' (first_error saved e)

-- json.NewDecoder(r.Body).Decode(&input)
unfoldable pub decode_input : Document → InputData × Option Error
unfolding decode_member decode_members decode_text is_field
decode_input (broken e) = (empty_input, some e)
decode_input (document null) = (empty_input, none)
decode_input (document (obj ms)) = decode_members ms empty_input none
decode_input (document _) = (empty_input, some type_error)

unfoldable pub output : ViewModel → Json
output vm = obj (
    member "id" (str vm.id) (
      member "first_name" (str vm.first_name)
        (member "last_name" (str vm.last_name) (member "created_at" (str vm.created_at) end))))

module _ {S : Type 0} (engine : Engine) (user_creator : Creator S) (zone : Zone)
    (render : Error → String) where
  -- From the input on: the interactor and the two responses that can follow.
  unfoldable pub respond : Context → Draw → InputData → Exchange S → Exchange S
  respond ctx draw input x =
      let ((od, err), s) = create user_creator ctx draw input x.host.store in
      let x' = with_host (λ h. record h { store = s }) x in
      elim err [
        | some e ↦
            with_writer write_500_response (with_host (with_log (error_context render ctx e)) x')
        | none ↦ with_writer (write_response 201 (some (output (view_model zone od)))) x'
      ]

  unfoldable pub validated :
      Context → Draw → InputData → Exchange S → Outcome (Unit {0}) × Exchange S
  validated ctx draw input x = elim (validate_struct engine (input_fields input)) [
    | panicked text ↦ (panicked text, x)
    | returned (some errs) ↦ (
      returned tt,
      with_writer (write_error_response 400 "failed validation" errs)
          (with_host (with_log (infof_context ctx ("input invalid: " <> show_map errs))) x),
    )
    | returned none ↦ (returned tt, respond ctx draw input x)
  ]

  unfoldable pub create_http :
      Context → Draw → Document → Exchange S → Outcome (Unit {0}) × Exchange S
  unfolding respond validated
  create_http ctx draw body x =
      let (input, err) = decode_input body in
      elim err [
        | some e ↦ (
          returned tt,
          with_writer (write_error_response 400 "failed validation" (("body", "json invalid") ∷ []))
              (with_host (with_log (errorf_context ctx ("json body invalid: " <> message e))) x),
        )
        | none ↦ validated ctx draw input x
      ]
