-- ===== src/Storage/Memory.antt =====
-- internal/storage/memory/user.go. `Create` holds the lock from its start to its end, so it is one
-- step. `Read` ranges over the map in an order that Go leaves open: the parameter `order` picks it.
pub mod Laws
pub mod Abstract
pub mod Read
use go_api_demo.Prelude.{Option, none, List, [], ◌∷◌}
use go_api_demo.Prelude.State.{State}
use go_api_demo.Prelude.Dict.{Dict, insert}
use go_api_demo.Error.{Error}
use go_api_demo.Context.{Context}
use go_api_demo.User.{User, Creator, Reader}

pub record UserStorage : Type 0 where
  pub users : Dict User

abbrev pub new_user_storage : UserStorage
new_user_storage = record { users = [] }

-- The loop of `Create`.
unfoldable pub put_all : List User → Dict User → Dict User
put_all [] d = d
put_all (usr ∷ users) d = put_all users (insert usr.id usr d)

unfoldable pub create : Context → List User → State UserStorage (Option Error)
unfolding put_all
create ctx users u = (none, record u { users = put_all users u.users })

unfoldable pub read :
    (Dict User → List User) → Context → State UserStorage (List User × Option Error)
read order ctx u = ((order u.users, none), u)

abbrev pub creator : Creator UserStorage
creator = record { create = create }

abbrev pub reader : (Dict User → List User) → Reader UserStorage
reader order = record { read = read order }
