-- ===== src/Storage/Memory/Read.antt =====
-- On `Read` of internal/storage/memory/user.go. The order of a range over the map is a parameter.
use mathlib.Core.List.{Mem, Perm, mem-cons, not-mem-nil, mem-cons_self, mem-cons_of_mem}
use mathlib.Core.List.Perm
use mathlib.Core.Logic.Or
use mathlib.Core.Option
use go_api_demo.Prelude.{
  String, ◌≡◌, ◌↔◌, refl, ◌==◌, eq_iff, Bool-cases, none, some, List, [], ◌∷◌, inl, inr, arith, All,
}
use go_api_demo.Prelude.Dict.{Dict, lookup, values, NodupKeys}
use go_api_demo.Context.{Context}
use go_api_demo.User.{User, User-set}
use go_api_demo.Storage.Memory.{UserStorage, create, read}
use go_api_demo.Storage.Memory.Laws.{view, stored, IsValid, view-create, create-IsValid}

mem-values :
    (u : User) (d : Dict User)
    → NodupKeys d
    → All (λ (e : String × User). e.1.id ≡ e.0) d
    → Mem u (values d) ↔ (lookup u.id d ≡ some u)
unfolding values lookup
mem-values u [] n k = (λ m. absurd (not-mem-nil m), λ e. ground arith)
mem-values u ((j, w) ∷ d) n k =
    let ih = mem-values u d n.1 k.1 in
    (
      λ m.
          Or.elim (Option.is_set User-set _ _) (mem-cons.0 m) (λ e. ground (arith, eq_iff j u.id))
            (λ r. ground (arith, eq_iff j u.id, ih.0 r)),
      λ e. elim (Bool-cases (j == u.id)) [
        | inl same ↦ (let uw : u ≡ w = ground arith in rw uw mem-cons_self)
        | inr differ ↦ mem-cons_of_mem w (ih.1 (ground arith))
      ],
    )

-- In a valid storage, `Read` returns no error, changes nothing, and returns exactly the users that
-- the abstract view has, each under its id.
pub mem-read :
    (order : Dict User → List User)
    → ((d : Dict User) → Perm (order d) (values d))
    → (ctx : Context) (s : UserStorage) (u : User) → IsValid s
    → ((read order ctx s).0.1 ≡ none)
      × ((read order ctx s).1 ≡ s)
      × (Mem u (read order ctx s).0.0 ↔ (view s u.id ≡ some u))
unfolding read
mem-read order shuffles ctx s u v =
    let m = mem-values u s.users v.nodup v.keyed in
    let p = Perm.mem_iff (shuffles s.users) in (refl, refl, (λ h. m.0 (p.0 h), λ e. p.1 (m.1 e)))

-- What was created can be read: after `Create`, `Read` has a user exactly if it is the last one
-- created with its id, or was there before and no user with its id was created.
pub mem-read-create :
    (order : Dict User → List User)
    → ((d : Dict User) → Perm (order d) (values d))
    → (ctx : Context) (users : List User) (s : UserStorage) (u : User) → IsValid s
    → Mem u (read order ctx (create ctx users s).1).0.0 ↔ (stored users (view s) u.id ≡ some u)
mem-read-create order shuffles ctx users s u v =
    rw (← view-create ctx users s u.id)
      (mem-read order shuffles ctx (create ctx users s).1 u (create-IsValid ctx users s v)).2
