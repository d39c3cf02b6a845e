-- ===== src/Create/Laws/Interactor.antt =====
-- On internal/user/create/interactor.go.
use go_api_demo.Prelude.{◌≡◌, Option, none, some, [], ◌∷◌}
use go_api_demo.Error.{Error}
use go_api_demo.Context.{Context}
use go_api_demo.User.{User, Creator}
use go_api_demo.Create.{InputData, Draw, OutputData, empty_output, user_of, create}

abbrev pub output_of : User → OutputData
output_of u = record {
  created_at = u.created_at;
  id = u.id;
  first_name = u.first_name;
  last_name = u.last_name;
}

module _ {S : Type 0} (creator : Creator S) (ctx : Context) (draw : Draw) (input : InputData)
    (s : S) where
  abbrev pub call : Option Error × S
  call = creator.create ctx (user_of draw input ∷ []) s

  pub create-ok :
      call.0 ≡ none
      → create creator ctx draw input s ≡ ((output_of (user_of draw input), none), call.1)
  unfolding create
  create-ok done = rw (done, create)

  pub create-failed :
      {e : Error}
      → call.0 ≡ some e
      → create creator ctx draw input s ≡ ((empty_output, some e), call.1)
  unfolding create
  create-failed failed = rw (failed, create)
