-- ===== src/Tests/Store.antt =====
-- Change events, the storage in memory and the SQL storage.
use mathlib.Core.Bool.{false≢true}
use mathlib.Core.List.{Perm, Mem}
use mathlib.Core.List.Perm
use go_api_demo.Prelude.{
  ◌*◌, ◌≡◌, ◌≢◌, ◌↔◌, refl, ◌⊎◌, Option, none, some, List, [], ◌∷◌, length, arith, ap, sym, ◌∙◌,
  eq_iff,
}
use go_api_demo.Prelude.Dict.{Dict, values, insert, lookup-nil}
use go_api_demo.Error.{Error, made, message}
use go_api_demo.Int.{pos}
use go_api_demo.User.{User}
use go_api_demo.Processor.{Usr, BeforeAfter, not_implemented, process}
use go_api_demo.Processor.Laws.{
  SameRow, no_row, Effects, process-create, process-other, process_lem,
}
use go_api_demo.Storage.Memory.{UserStorage, new_user_storage, creator, create, read}
use go_api_demo.Storage.Memory.Laws.{IsValid, view, stored, create-IsValid}
use go_api_demo.Storage.Memory.Read.{mem-read-create}
use go_api_demo.Storage.Mysql.{Rows, scanned, value_args, insert_query, read_rows}
use go_api_demo.Storage.Mysql.Laws.{
  statement, Scanned, placeholders, all_args, insert_query-value_args, read_rows_lem,
}
use go_api_demo.Tests.Fixtures.{ctx, ann, bob, bobs_twin}

abbrev row : Usr
row = record { id = "a1"; first_name = "Anne"; last_name = "Bolt"; created_at = pos 1700000000123 }

abbrev renamed : Usr
renamed = record row { last_name = "Bell" }

-- An event is its two rows, or an error.
abbrev decode : BeforeAfter → BeforeAfter × Option Error
decode bf = (bf, none)

abbrev event : Usr → Usr → BeforeAfter
event b a = record { before = record { value = b }; after = record { value = a } }

abbrev run : BeforeAfter → UserStorage → Option Error × UserStorage
run e s = process decode creator ctx e s

row-present : ¬ SameRow row no_row
row-present same = omega (arith, same.3)

renamed-differs : ¬ SameRow row renamed
renamed-differs same = false≢true ((eq_iff "Bolt" "Bell").1 same.2)

process_lem_example : Effects decode creator ctx (event row renamed) new_user_storage
process_lem_example = process_lem decode creator ctx (event row renamed) new_user_storage

update-fails : run (event row renamed) new_user_storage ≡ (some not_implemented, new_user_storage)
update-fails =
    process-other decode creator ctx (event row renamed) new_user_storage refl renamed-differs
      row-present

run-changes : (run (event no_row row) new_user_storage).1 ≢ new_user_storage
unfolding create insert
run-changes e =
    let added =
      process-create decode creator ctx (event no_row row) new_user_storage refl
        (refl, refl, refl, refl) row-present in
    omega (arith, ap (λ u. length u.users) (sym (ap (λ r. r.1) added) ∙ e))

abbrev two : List User
two = bob ∷ bobs_twin ∷ []

abbrev one_stored : UserStorage
one_stored = record { users = ("a1", ann) ∷ [] }

one_stored-IsValid : IsValid one_stored
one_stored-IsValid = record { nodup = (lookup-nil "a1", tt); keyed = (refl, tt) }

abbrev order : Dict User → List User
order d = values d

shuffles : (d : Dict User) → Perm (order d) (values d)
shuffles d = Perm.refl (values d)

create-IsValid_example : IsValid (create ctx two one_stored).1
create-IsValid_example = create-IsValid ctx two one_stored one_stored-IsValid

mem-read-create_example :
    Mem bobs_twin (read order ctx (create ctx two one_stored).1).0.0
    ↔ (stored two (view one_stored) "b2" ≡ some bobs_twin)
mem-read-create_example =
    mem-read-create order shuffles ctx two one_stored bobs_twin one_stored-IsValid

insert_query-value_args_example :
    (insert_query two ≡ statement two)
    × (placeholders (insert_query two) ≡ length (value_args two []))
    × (length (value_args two []) ≡ 4 * 2)
    × (value_args two [] ≡ all_args two)
insert_query-value_args_example = insert_query-value_args two

abbrev found : Rows
found = record { rows = scanned ann ∷ scanned bob ∷ []; err = none }

read_rows_lem_example :
    ((us : List User) × Scanned found us × (read_rows found ≡ (us, none)))
    ⊎ (((us : List User) → ¬ Scanned found us)
        × ((e : Error) × (read_rows found ≡ ([], some (made (message e))))))
read_rows_lem_example = read_rows_lem found
