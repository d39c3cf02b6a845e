-- ===== src/Storage/Memory/Laws.antt =====
-- On internal/storage/memory/user.go. The abstract view is a partial function from ids to users.
use go_api_demo.Prelude.{
  String, ◌≡◌, refl, ◌==◌, Option, none, some, List, [], ◌∷◌, arith, All, last_match,
}
use go_api_demo.Prelude.Dict.{Dict, lookup, insert, NodupKeys, lookup-insert, insert-NodupKeys}
use go_api_demo.Context.{Context}
use go_api_demo.User.{User}
use go_api_demo.Storage.Memory.{UserStorage, put_all, create}

-- The abstract view: which user an id has.
abbrev pub Users : Type 0
Users = String → Option User

abbrev pub view : UserStorage → Users
view u id = lookup id u.users

-- What storing some users does to the view: the last of them with an id counts.
abbrev pub stored : List User → Users → Users
stored users before id = elim (last_match (λ (u : User). u.id == id) users) [
  | none ↦ before id
  | some u ↦ some u
]

-- Keys are distinct, and each is the id of its user.
pub record IsValid (s : UserStorage) : Type 0 where
  pub nodup : NodupKeys s.users
  pub keyed : All (λ (e : String × User). e.1.id ≡ e.0) s.users

lookup-put_all :
    (users : List User) (d : Dict User) (id : String)
    → lookup id (put_all users d) ≡ stored users (λ k. lookup k d) id
unfolding put_all
lookup-put_all [] d id = refl
lookup-put_all (u ∷ users) d id =
    ground (arith, lookup-put_all users (insert u.id u d) id, lookup-insert u.id id u d)

-- After `Create`, an id has the last of the created users with that id, and where there is none the
-- user that it had before.
pub view-create :
    (ctx : Context) (users : List User) (s : UserStorage) (id : String)
    → view (create ctx users s).1 id ≡ stored users (view s) id
unfolding create
view-create ctx users s id = lookup-put_all users s.users id

keyed-insert :
    (u : User) (d : Dict User)
    → All (λ (e : String × User). e.1.id ≡ e.0) d
    → All (λ (e : String × User). e.1.id ≡ e.0) (insert u.id u d)
unfolding insert
keyed-insert u [] h = (refl, tt)
keyed-insert u ((j, w) ∷ d) h = ground (arith, keyed-insert u d h.1)

put_all-IsValid :
    (users : List User) (d : Dict User)
    → IsValid (record { users = d })
    → IsValid (record { users = put_all users d })
unfolding put_all
put_all-IsValid [] d v = v
put_all-IsValid (u ∷ users) d v =
    put_all-IsValid users (insert u.id u d)
      (record { nodup = insert-NodupKeys u.id u d v.nodup; keyed = keyed-insert u d v.keyed })

-- `Create` keeps a storage valid: its keys distinct, and each the id of its user.
pub create-IsValid :
    (ctx : Context) (users : List User) (s : UserStorage)
    → IsValid s
    → IsValid (create ctx users s).1
unfolding create
create-IsValid ctx users s v = put_all-IsValid users s.users v
