-- ===== src/Storage/Redis.antt =====
-- internal/storage/redis/user.go. The client of Redis is third-party code: it is the interface
-- `Cache`. A value is kept as the tree of its JSON text. The texts of times in JSON are those of
-- `TimeText`. `NewUserCache` only connects; the hooks, which trace, are in Trace.
pub mod Laws
use go_api_demo.Prelude.{
  String, ◌<>◌, Option, none, some, List, [], ◌∷◌, ◌⊎◌, inl, inr, if◌then◌else◌,
}
use go_api_demo.Prelude.Dict.{Dict, insert}
use go_api_demo.Prelude.State.{State}
use go_api_demo.Error.{Error, made, message}
use go_api_demo.Context.{Context}
use go_api_demo.Json.{
  Json, null, str, obj, Members, end, member, Document, document, broken, is_field, decode_text,
  type_error, first_error,
}
use go_api_demo.Time.JsonText.{TimeText, decode_time}
use go_api_demo.User.{User, empty_user, Creator, Reader}

-- The methods that the code calls. `scan` is the keys that its iterator yields and then its error.
-- `mget` is `Val()` and `Err()`; a value of `none` is no text.
pub record Cache (C : Type 0) : Type 0 where
  pub mset : Context → Dict Json → State C (Option Error)
  pub scan : Context → String → State C (List String × Option Error)
  pub mget : Context → List String → State C (List (Option Document) × Option Error)

abbrev pub user_key : String → String
user_key id = "user:" <> id

abbrev pub not_text : Error
not_text = made "could not assert user val as string"

blanks : List (Option Document) → List User
blanks [] = []
blanks (v ∷ vs) = empty_user ∷ blanks vs

module _ (times : TimeText) where
  -- json.Marshal(u)
  unfoldable pub marshal : User → Json ⊎ Error
  marshal u = elim (times.to_text u.created_at) [
    | inr e ↦ inr (made ("json: error calling MarshalJSON for type time.Time: " <> message e))
    | inl text ↦ inl (
        obj (
          member "CreatedAt" (str text) (
            member "ID" (str u.id)
              (member "FirstName" (str u.first_name) (member "LastName" (str u.last_name) end)))))
  ]

  -- The loop of `Create`.
  unfoldable pub put_users : List User → Dict Json → Dict Json ⊎ Error
  unfolding marshal
  put_users [] usr_map = inl usr_map
  put_users (u ∷ users) usr_map = elim (marshal u) [
    | inr e ↦ inr (made (message e))
    | inl m_usr ↦ put_users users (insert (user_key u.id) m_usr usr_map)
  ]

  -- An error of a time ends the decoding; a value of a wrong kind for a text only leaves an error.
  unfoldable pub decode_members : Members → User → Option Error → User × Option Error
  unfolding decode_time decode_text is_field
  decode_members end u saved = (u, saved)
  decode_members (member key v rest) u saved =
      let go = decode_members rest in
      if is_field "CreatedAt" key
      then (let (t, err) = decode_time times v u.created_at in
          elim err [ some e ↦ (u, some e) | none ↦ go (record u { created_at = t }) saved ])
      else if is_field "ID" key
      then (let (s, e) = decode_text v u.id in go (record u { id = s }) (first_error saved e))
      else if is_field "FirstName" key
      then (let (s, e) = decode_text v u.first_name in
          go (record u { first_name = s }) (first_error saved e))
      else if is_field "LastName" key
      then (let (s, e) = decode_text v u.last_name in
          go (record u { last_name = s }) (first_error saved e))
      else go u saved

  -- json.Unmarshal([]byte(v), &u) for u := user.User{}
  unfoldable pub unmarshal : Document → User × Option Error
  unfolding decode_members
  unmarshal (broken e) = (empty_user, some e)
  unmarshal (document null) = (empty_user, none)
  unmarshal (document (obj ms)) = decode_members ms empty_user none
  unmarshal (document _) = (empty_user, some type_error)

  -- The loop over the values in `Read`, into a slice of empty users.
  unfoldable pub read_values : List (Option Document) → List User × Option Error
  unfolding blanks unmarshal
  read_values [] = ([], none)
  read_values (none ∷ vs) = (empty_user ∷ blanks vs, some not_text)
  read_values (some v ∷ vs) =
      let (u, err) = unmarshal v in
      let (users, err') = read_values vs in
      elim err [
        | some e ↦ (empty_user ∷ blanks vs, some (made (message e)))
        | none ↦ (u ∷ users, err')
      ]

  module _ {C : Type 0} (cache : Cache C) where
    unfoldable pub create : Context → List User → State C (Option Error)
    unfolding put_users
    create ctx [] c = (none, c)
    create ctx (u ∷ users) c = elim (put_users (u ∷ users) []) [
      | inr e ↦ (some e, c)
      | inl usr_map ↦
          let (err, c') = cache.mset ctx usr_map c in
          elim err [ some e ↦ (some (made (message e)), c') | none ↦ (none, c') ]
    ]

    unfoldable pub read_keys : Context → List String → State C (List User × Option Error)
    unfolding read_values
    read_keys ctx [] c = (([], none), c)
    read_keys ctx (k ∷ keys) c =
        let ((vals, err), c') = cache.mget ctx (k ∷ keys) c in (read_values vals, c')

    unfoldable pub read : Context → State C (List User × Option Error)
    unfolding read_keys
    read ctx c =
        let ((keys, err), c') = cache.scan ctx "user:*" c in
        elim err [ some e ↦ (([], some (made (message e))), c') | none ↦ read_keys ctx keys c' ]

    abbrev pub creator : Creator C
    creator = record { create = create }

    abbrev pub reader : Reader C
    reader = record { read = read }
