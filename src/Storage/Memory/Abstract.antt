-- ===== src/Storage/Memory/Abstract.antt =====
-- The storage of internal/storage/memory/user.go without its representation: storages are one if they
-- have the same user for each id, whatever the order in which their maps were filled.
use mathlib.Core.HLevel.{hedberg, Π_prop}
use mathlib.Core.Option
use mathlib.Core.Quot
use mathlib.Core.Quot.{Quot, Quot-set}
use go_api_demo.Prelude.{
  String, ◌≡◌, ◌==◌, ap, sym, ◌∙◌, Option, none, some, List, ◌⊎◌, last_match, arith,
}
use go_api_demo.Context.{Context}
use go_api_demo.User.{User, User-discrete}
use go_api_demo.Storage.Memory.{UserStorage, create}
use go_api_demo.Storage.Memory.Laws.{view, stored, view-create}

abbrev pub SameUsers : UserStorage → UserStorage → Type 0
SameUsers s t = (id : String) → view s id ≡ view t id

abbrev pub Users : Type 0
Users = Quot SameUsers

-- The user of an id.
unfoldable pub user_at : String → Users → Option User
user_at id = Quot.lift (hedberg (Option.discrete User-discrete)) (λ s. view s id) (λ s t h. h id)

pub create-SameUsers :
    (ctx : Context) (us : List User) (s t : UserStorage)
    → SameUsers s t
    → SameUsers (create ctx us s).1 (create ctx us t).1
create-SameUsers ctx us s t h id =
    view-create ctx us s id
    ∙ ap (λ o. elim (last_match (λ (u : User). u.id == id) us) [ none ↦ o | some u ↦ some u ])
        (h id)
    ∙ sym (view-create ctx us t id)

-- `Create`, as it is seen from outside.
unfoldable pub create_in : Context → List User → Users → Users
create_in ctx us =
    Quot.lift Quot-set (λ s. Quot.mk (create ctx us s).1)
      (λ s t h. Quot.sound (create-SameUsers ctx us s t h))

-- No id is that of a user in both lists.
abbrev pub Disjoint : List User → List User → Type 0
Disjoint us vs =
    (id : String)
    → (last_match (λ (u : User). u.id == id) us ≡ none)
      ⊎ (last_match (λ (u : User). u.id == id) vs ≡ none)

stored_comm :
    (us vs : List User) (before : String → Option User) (id : String)
    → (last_match (λ (u : User). u.id == id) us ≡ none)
      ⊎ (last_match (λ (u : User). u.id == id) vs ≡ none)
    → stored us (stored vs before) id ≡ stored vs (stored us before) id
stored_comm us vs before id h = ground arith

twice :
    (ctx : Context) (us vs : List User) (s : UserStorage) (id : String)
    → view (create ctx us (create ctx vs s).1).1 id ≡ stored us (stored vs (view s)) id
twice ctx us vs s id =
    view-create ctx us (create ctx vs s).1 id
    ∙ ap (λ o. elim (last_match (λ (u : User). u.id == id) us) [ none ↦ o | some u ↦ some u ])
        (view-create ctx vs s id)

Option-User-set : IsSet (Option User)
Option-User-set = hedberg (Option.discrete User-discrete)

user_at-create_in :
    (ctx : Context) (us vs : List User) (b : Users) (id : String)
    → user_at id (create_in ctx us (create_in ctx vs b))
      ≡ stored us (stored vs (λ k. user_at k b)) id
unfolding user_at create_in
user_at-create_in ctx us vs =
    Quot.ind (λ b. Π_prop (λ id. Option-User-set _ _)) (λ s id. twice ctx us vs s id)

swap :
    (ctx : Context) (us vs : List User)
    → Disjoint us vs
    → (b : Users) → create_in ctx us (create_in ctx vs b) ≡ create_in ctx vs (create_in ctx us b)
unfolding create_in
swap ctx us vs disjoint =
    Quot.ind (λ b. Quot-set _ _)
      (λ s. Quot.sound (λ id.
        twice ctx us vs s id
        ∙ stored_comm us vs (view s) id (disjoint id)
        ∙ sym (twice ctx vs us s id)))

-- Two creates whose users have no id in common can be done in either order: they leave the same
-- storage, where storages that have the same user for each id are one. In it, an id has the last of
-- the created users with that id, and where there is none the user that it had before.
pub create_comm :
    (ctx : Context) (us vs : List User)
    → Disjoint us vs
    → (b : Users)
    → (create_in ctx us (create_in ctx vs b) ≡ create_in ctx vs (create_in ctx us b))
      × ((id : String)
          → user_at id (create_in ctx us (create_in ctx vs b))
            ≡ stored us (stored vs (λ k. user_at k b)) id)
create_comm ctx us vs disjoint b = (swap ctx us vs disjoint b, user_at-create_in ctx us vs b)
