-- ===== src/Read.antt =====
-- internal/user/read: the interactor and the presenter. A nil slice and an empty one are both `[]`.
pub mod Http
pub mod Grpc
pub mod Laws
use go_api_demo.Prelude.{String, Option, none, some, List, [], ◌∷◌}
use go_api_demo.Prelude.State.{State}
use go_api_demo.Error.{Error}
use go_api_demo.Context.{Context}
use go_api_demo.Time.{Time}
use go_api_demo.Time.Rfc3339.{Zone, format_rfc3339}
use go_api_demo.User.{User, Reader}

pub record Item : Type 0 where
  pub created_at : Time
  pub id : String
  pub first_name : String
  pub last_name : String

-- The loop of `read`.
unfoldable pub output_data : List User → List Item
output_data [] = []
output_data (u ∷ users) =
    record {
      created_at = u.created_at;
      id = u.id;
      first_name = u.first_name;
      last_name = u.last_name;
    }
    ∷ output_data users

unfoldable pub read : {S : Type 0} → Reader S → Context → State S (List Item × Option Error)
read user_reader ctx s =
    let ((users, err), s') = user_reader.read ctx s in
    elim err [ some e ↦ (([], some e), s') | none ↦ ((output_data users, none), s') ]

pub record Usr : Type 0 where
  pub id : String
  pub first_name : String
  pub last_name : String
  pub created_at : String

unfoldable pub view_model : Zone → List Item → List Usr
view_model zone [] = []
view_model zone (u ∷ od) =
    record {
      id = u.id;
      first_name = u.first_name;
      last_name = u.last_name;
      created_at = format_rfc3339 zone u.created_at;
    }
    ∷ view_model zone od
