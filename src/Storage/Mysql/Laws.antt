-- ===== src/Storage/Mysql/Laws.antt =====
-- On internal/storage/mysql/user.go: the statement that stores users, and the loop over rows.
use Prim.Native.Char.{code}
use text.Mathlib.TextLemmas.{cons-append, nil-append}
use mathlib.Core.List.{append_assoc, append-nil}
use go_api_demo.Prelude.{
  ℕ, ◌+◌, ◌*◌, String, ◌<>◌, ◌≡◌, Option-cases, ◌⊎◌, inl, inr, refl, sym, ap, ◌∙◌, none, some, List,
  [], ◌∷◌, ◌++◌, map, arith, length, nat_eq, if◌then◌else◌,
}
use go_api_demo.Error.{Error, made, message}
use go_api_demo.User.{User}
use go_api_demo.Storage.Mysql.{
  Arg, str, time, Row, scanned, unscannable, Rows, value_groups, value_args, join, insert_query,
  scan_rows, read_rows,
}

-- The placeholders in a query text.
pub placeholders : String → ℕ
placeholders String.[] = 0
placeholders (String.◌∷◌ c s) = (if nat_eq (code c) b'?' then 1 else 0) + placeholders s

placeholders-append : (s t : String) → placeholders (s <> t) ≡ placeholders s + placeholders t
unfolding placeholders
placeholders-append String.[] t = rw nil-append (omega arith)
placeholders-append (String.◌∷◌ c s) t = rw cons-append (omega (arith, placeholders-append s t))

abbrev groups : List User → List String
groups = map (λ _. "(?, ?, ?, ?)")

abbrev pub args_of : User → List Arg
args_of u = str u.id ∷ str u.first_name ∷ str u.last_name ∷ time u.created_at ∷ []

-- The columns, each with what a user has in it.
abbrev pub columns : List (String × (User → Arg))
columns =
    ("id", λ u. str u.id)
    ∷ ("first_name", λ u. str u.first_name)
    ∷ ("last_name", λ u. str u.last_name)
    ∷ ("created_at", λ u. time u.created_at)
    ∷ []

-- The arguments in the order of the columns, user by user.
abbrev pub all_args : List User → List Arg
all_args [] = []
all_args (u ∷ users) = map (λ c. c.1 u) columns ++ all_args users

-- The statement that names the columns, with a group of placeholders for each user.
abbrev pub statement : List User → String
statement users =
    ("INSERT INTO users(" <> join (map (λ c. c.0) columns) ", " <> ") VALUES ")
    <> join (map (λ u. "(?, ?, ?, ?)") users) ","

value_groups-append :
    (users : List User) (values : List String) → value_groups users values ≡ values ++ groups users
unfolding value_groups
value_groups-append [] values = sym (append-nil values)
value_groups-append (u ∷ users) values =
    value_groups-append users (values ++ "(?, ?, ?, ?)" ∷ [])
    ∙ append_assoc values ("(?, ?, ?, ?)" ∷ []) (groups users)

value_args-append :
    (users : List User) (args : List Arg) → value_args users args ≡ args ++ all_args users
unfolding value_args
value_args-append [] args = sym (append-nil args)
value_args-append (u ∷ users) args =
    value_args-append users (args ++ args_of u) ∙ append_assoc args (args_of u) (all_args users)

length-all_args : (users : List User) → length (all_args users) ≡ 4 * length users
length-all_args [] = refl
length-all_args (u ∷ users) = omega (arith, length-all_args users)

placeholders-join : (users : List User) → placeholders (join (groups users) ",") ≡ 4 * length users
unfolding join placeholders
placeholders-join [] = refl
placeholders-join (u ∷ []) = refl
placeholders-join (u ∷ v ∷ users) =
    let rest = join (groups (v ∷ users)) "," in
    omega (
      arith,
      placeholders-append "(?, ?, ?, ?)" ("," <> rest),
      placeholders-append "," rest,
      placeholders-join (v ∷ users),
    )

-- The insert statement names the columns id, first_name, last_name and created_at and has a group of
-- placeholders for each user; it has one placeholder for each of its arguments, and the arguments are
-- the ids, names and times of the users, user by user, each in the place of its column.
pub insert_query-value_args :
    (users : List User)
    → (insert_query users ≡ statement users)
      × (placeholders (insert_query users) ≡ length (value_args users []))
      × (length (value_args users []) ≡ 4 * length users)
      × (value_args users [] ≡ all_args users)
unfolding insert_query placeholders join
insert_query-value_args users =
    let args = value_args-append users [] in
    let count = ap length args ∙ length-all_args users in
    (
      ap (λ l. "INSERT INTO users(id, first_name, last_name, created_at) VALUES " <> join l ",")
          (value_groups-append users []),
      omega (
        arith,
        placeholders-append "INSERT INTO users(id, first_name, last_name, created_at) VALUES "
            (join (value_groups users []) ","),
        ap (λ g. placeholders (join g ",")) (value_groups-append users []),
        placeholders-join users,
        count,
      ),
      count,
      value_args-append users [],
    )

scan_rows-append : (us users : List User) → scan_rows (map scanned us) users ≡ (users ++ us, none)
unfolding scan_rows
scan_rows-append [] users = ap (λ l. (l, none)) (sym (append-nil users))
scan_rows-append (u ∷ us) users =
    scan_rows-append us (users ++ u ∷ []) ∙ ap (λ l. (l, none)) (append_assoc users (u ∷ []) us)

scan_rows-cases :
    (rows : List Row) (users : List User)
    → ((us : List User) × (rows ≡ map scanned us))
      ⊎ ((e : Error) × (scan_rows rows users ≡ ([], some (made (message e)))))
unfolding scan_rows
scan_rows-cases [] users = inl ([], refl)
scan_rows-cases (unscannable e ∷ rows) users = inr (e, refl)
scan_rows-cases (scanned u ∷ rows) users = elim (scan_rows-cases rows (users ++ u ∷ [])) [
  | inl (us, e) ↦ inl (u ∷ us, ap (λ l. scanned u ∷ l) e)
  | inr failed ↦ inr failed
]

-- Every row could be scanned, into these users, and the rows ended without an error.
abbrev pub Scanned : Rows → List User → Type 0
Scanned r us = (r.rows ≡ map scanned us) × (r.err ≡ none)

not_scanned :
    (rows : List Row) (us : List User) (e : Error)
    → scan_rows rows [] ≡ ([], some e)
    → ¬ (rows ≡ map scanned us)
not_scanned rows us e failed is =
    let all = ap (λ l. scan_rows l []) is ∙ scan_rows-append us [] in
    absurd (let no = ap (λ r. r.1) (sym failed ∙ all) in cc)

-- A query's users are returned without an error exactly when every row could be scanned and the rows
-- ended without an error: then all of them are, in order. Otherwise there is an error and no user.
pub read_rows_lem :
    (r : Rows)
    → ((us : List User) × Scanned r us × (read_rows r ≡ (us, none)))
      ⊎ (((us : List User) → ¬ Scanned r us)
          × ((e : Error) × (read_rows r ≡ ([], some (made (message e))))))
unfolding read_rows
read_rows_lem r = elim (scan_rows-cases r.rows []) [
  | inr (e, failed) ↦
      inr
        (λ us is. not_scanned r.rows us (made (message e)) failed is.0, (e, rw (failed, read_rows)))
  | inl (us, e) ↦
      let all = ap (λ l. scan_rows l []) e ∙ scan_rows-append us [] in
      elim (Option-cases r.err) [
        | inl fine ↦
            inl (
              us,
              (e, fine),
              rw (all, read_rows) (rw (fine, read_rows) (ap (λ q. (q.0, none)) all)),
            )
        | inr (d, failed) ↦ inr (
          λ vs is. (let no = sym failed ∙ is.1 in cc),
          (d, rw (all, read_rows) (rw (failed, read_rows))),
        )
      ]
]
