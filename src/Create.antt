-- ===== src/Create.antt =====
-- internal/user/create: the input and its rules (controller.go), the interactor and the presenter.
-- `uuid.New` and `time.Now` draw from outside the program: a request carries what it draws.
pub mod Http
pub mod Grpc
pub mod Laws
use go_api_demo.Prelude.{String, Bool, Option, none, some, List, [], ◌∷◌, if◌then◌else◌}
use go_api_demo.Prelude.State.{State}
use go_api_demo.Error.{Error}
use go_api_demo.Context.{Context}
use go_api_demo.Time.{Time, zero_time}
use go_api_demo.Time.Rfc3339.{Zone, format_rfc3339}
use go_api_demo.User.{User, Creator}
use go_api_demo.Validate.{Field, Rule, required, min, max}

pub record InputData : Type 0 where
  pub first_name : String
  pub last_name : String

abbrev pub name_rules : List Rule
name_rules = required ∷ min 3 ∷ max 100 ∷ []

-- The struct as the validator reads it: its fields with their tags.
abbrev pub input_fields : InputData → List Field
input_fields input =
    record {
      struct_name = "inputData";
      go_name = "FirstName";
      json_tag = "first_name";
      rules = name_rules;
      value = input.first_name;
    }
    ∷ record {
      struct_name = "inputData";
      go_name = "LastName";
      json_tag = "last_name";
      rules = name_rules;
      value = input.last_name;
    }
    ∷ []

pub record Draw : Type 0 where
  pub id : String
  pub now : Time

pub record OutputData : Type 0 where
  pub created_at : Time
  pub id : String
  pub first_name : String
  pub last_name : String

abbrev pub empty_output : OutputData
empty_output = record { created_at = zero_time; id = ""; first_name = ""; last_name = "" }

abbrev pub user_of : Draw → InputData → User
user_of draw input = record {
  created_at = draw.now;
  id = draw.id;
  first_name = input.first_name;
  last_name = input.last_name;
}

module _ {S : Type 0} (user_creator : Creator S) where
  unfoldable pub create : Context → Draw → InputData → State S (OutputData × Option Error)
  create ctx draw input s =
      let u = user_of draw input in
      let (err, s') = user_creator.create ctx (u ∷ []) s in
      elim err [
        | some e ↦ ((empty_output, some e), s')
        | none ↦ (
          (
            record {
              id = u.id;
              first_name = u.first_name;
              last_name = u.last_name;
              created_at = u.created_at;
            },
            none,
          ),
          s',
        )
      ]

pub record ViewModel : Type 0 where
  pub id : String
  pub first_name : String
  pub last_name : String
  pub created_at : String

unfoldable pub view_model : Zone → OutputData → ViewModel
view_model zone od = record {
  id = od.id;
  first_name = od.first_name;
  last_name = od.last_name;
  created_at = format_rfc3339 zone od.created_at;
}
