-- ===== src/Storage/Mysql.antt =====
-- internal/storage/mysql/user.go. The database behind `database/sql` is third-party code: it is the
-- interface `Db`, whose methods take the query text and the arguments. `with_timeout` is
-- `context.WithTimeout`. A failed statement's error gets a new error with its text.
pub mod Laws
use go_api_demo.Prelude.{ℕ, String, ◌<>◌, Option, none, some, List, [], ◌∷◌, ◌++◌}
use go_api_demo.Prelude.State.{State}
use go_api_demo.Error.{Error, made, message}
use go_api_demo.Context.{Context}
use go_api_demo.Time.{Time}
use go_api_demo.User.{User, Creator, Reader}

pub data Arg : Type 0 where
  str : String → Arg
  time : Time → Arg

-- A row, as `rows.Scan` into the four fields finds it.
pub data Row : Type 0 where
  scanned : User → Row
  unscannable : Error → Row

-- The rows that `rows.Next` reaches, and `rows.Err()` after them.
pub record Rows : Type 0 where
  pub rows : List Row
  pub err : Option Error

pub record Db (D : Type 0) : Type 0 where
  pub exec : Context → String → List Arg → State D (Option Error)
  pub query : Context → String → State D (Rows × Option Error)

-- The two appends of the loop of `Create`.
unfoldable pub value_groups : List User → List String → List String
value_groups [] values = values
value_groups (usr ∷ users) values = value_groups users (values ++ "(?, ?, ?, ?)" ∷ [])

unfoldable pub value_args : List User → List Arg → List Arg
value_args [] args = args
value_args (usr ∷ users) args =
    value_args users
      (args ++ str usr.id ∷ str usr.first_name ∷ str usr.last_name ∷ time usr.created_at ∷ [])

-- strings.Join
unfoldable pub join : List String → String → String
join [] sep = ""
join (s ∷ []) sep = s
join (s ∷ t ∷ rest) sep = s <> sep <> join (t ∷ rest) sep

unfoldable pub insert_query : List User → String
unfolding value_groups join
insert_query users =
    "INSERT INTO users(id, first_name, last_name, created_at) VALUES "
    <> join (value_groups users []) ","

abbrev pub select_query : String
select_query = "\nSELECT id, first_name, last_name, created_at\nFROM users\n"

-- The loop of `Read`.
unfoldable pub scan_rows : List Row → List User → List User × Option Error
scan_rows [] users = (users, none)
scan_rows (scanned u ∷ rows) users = scan_rows rows (users ++ u ∷ [])
scan_rows (unscannable e ∷ rows) users = ([], some (made (message e)))

unfoldable pub read_rows : Rows → List User × Option Error
unfolding scan_rows
read_rows r =
    let (users, err) = scan_rows r.rows [] in
    elim err [
      | some e ↦ ([], some e)
      | none ↦ elim r.err [ some e ↦ ([], some (made (message e))) | none ↦ (users, none) ]
    ]

module _ {D : Type 0} (db : Db D) (with_timeout : Context → ℕ → Context) (query_timeout : ℕ) where
  unfoldable pub create : Context → List User → State D (Option Error)
  create ctx users d =
      let (err, d') =
        db.exec (with_timeout ctx query_timeout) (insert_query users) (value_args users []) d in
      elim err [ some e ↦ (some (made (message e)), d') | none ↦ (none, d') ]

  unfoldable pub read : Context → State D (List User × Option Error)
  read ctx d =
      let ((rows, err), d') = db.query (with_timeout ctx query_timeout) select_query d in
      elim err [ some e ↦ (([], some (made (message e))), d') | none ↦ (read_rows rows, d') ]

  abbrev pub creator : Creator D
  creator = record { create = create }

  abbrev pub reader : Reader D
  reader = record { read = read }
