-- ===== src/Tests/Abstract.antt =====
-- The storage in memory, without its representation.
use mathlib.Core.Path.{subst}
use mathlib.Core.Quot
use go_api_demo.Prelude.{
  String, ◌≡◌, refl, none, last_match, [], ◌∷◌, inl, inr, Bool-cases, ◌==◌, arith, eq_iff,
}
use go_api_demo.User.{User}
use go_api_demo.Storage.Memory.{new_user_storage}
use go_api_demo.Storage.Memory.Laws.{stored}
use go_api_demo.Storage.Memory.Abstract.{Users, user_at, create_in, Disjoint, create_comm}
use go_api_demo.Tests.Fixtures.{ctx, ann, bob}

abbrev empty : Users
empty = Quot.mk new_user_storage

disjoint : Disjoint (ann ∷ []) (bob ∷ [])
disjoint id = elim (Bool-cases ("a1" == id)) [
  | inl a ↦ inr (
      subst (λ k. last_match (λ (u : User). u.id == k) (bob ∷ []) ≡ none) ((eq_iff "a1" id).0 a)
        refl)
  | inr a ↦ inl (ground arith)
]

create_comm_example :
    (create_in ctx (ann ∷ []) (create_in ctx (bob ∷ []) empty)
      ≡ create_in ctx (bob ∷ []) (create_in ctx (ann ∷ []) empty))
    × ((id : String)
        → user_at id (create_in ctx (ann ∷ []) (create_in ctx (bob ∷ []) empty))
          ≡ stored (ann ∷ []) (stored (bob ∷ []) (λ k. user_at k empty)) id)
create_comm_example = create_comm ctx (ann ∷ []) (bob ∷ []) disjoint empty
