-- ===== src/Processor.antt =====
-- internal/user/consume/processor.go: what a change event of the table `users` does to a store.
-- `mapstructure.Decode` is third-party code: it is the parameter `decode`, from the decoded message
-- to the two rows or an error.
pub mod Laws
use go_api_demo.Prelude.{String, Bool, Option, none, some, List, [], ◌∷◌, if◌then◌else◌}
use go_api_demo.Prelude.State.{State}
use go_api_demo.Error.{Error, made}
use go_api_demo.Context.{Context}
use go_api_demo.Int.{ℤ}
use go_api_demo.User.{User, empty_user, user_eq, Creator}
use go_api_demo.Format.{msec_to_time}

pub record Usr : Type 0 where
  pub id : String
  pub first_name : String
  pub last_name : String
  pub created_at : ℤ

pub record Value : Type 0 where
  pub value : Usr

pub record BeforeAfter : Type 0 where
  pub before : Value
  pub after : Value

pub record UserBeforeAfter : Type 0 where
  pub before : User
  pub after : User

unfoldable pub user_before_after : BeforeAfter → UserBeforeAfter
user_before_after bf = record {
  before = record {
    created_at = msec_to_time bf.before.value.created_at;
    id = bf.before.value.id;
    first_name = bf.before.value.first_name;
    last_name = bf.before.value.last_name;
  };
  after = record {
    created_at = msec_to_time bf.after.value.created_at;
    id = bf.after.value.id;
    first_name = bf.after.value.first_name;
    last_name = bf.after.value.last_name;
  };
}

abbrev pub not_implemented : Error
not_implemented = made "not implemented"

module _ {S Data : Type 0} (decode : Data → BeforeAfter × Option Error) (creator : Creator S) where
  unfoldable pub process : Context → Data → State S (Option Error)
  unfolding user_before_after
  process ctx event s =
      let (before_after, err) = decode event in
      elim err [
        | some e ↦ (some e, s)
        | none ↦
            let u = user_before_after before_after in
            if user_eq u.before u.after
            then (none, s)
            else if user_eq u.before empty_user
            then creator.create ctx (u.after ∷ []) s
            else (some not_implemented, s)
      ]
