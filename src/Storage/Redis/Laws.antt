-- ===== src/Storage/Redis/Laws.antt =====
-- On `Create` and `Read` of internal/storage/redis/user.go, over a client that stores.
use text.Mathlib.TextLemmas.{append_cancel_left}
use mathlib.Core.Path.{subst}
use go_api_demo.Prelude.{
  String, ◌≡◌, ◌↔◌, refl, ap, ◌∙◌, ◌==◌, eq_iff, Option, Option-cases, none, some, List, [], ◌∷◌,
  inl, inr, map, All, last_match, arith,
}
use go_api_demo.Prelude.Dict.{Dict, lookup, insert, lookup-insert}
use go_api_demo.Error.{Error}
use go_api_demo.Context.{Context}
use go_api_demo.Json.{Json, str, obj, end, member, Document, document, is_field, decode_text}
use go_api_demo.Time.{Time}
use go_api_demo.Time.JsonText.{TimeText, decode_time}
use go_api_demo.User.{User}
use go_api_demo.Storage.Redis.{
  Cache, user_key, marshal, put_users, decode_members, unmarshal, read_values, create, read_keys,
}

-- The value of a key, as MGET gives it.
abbrev pub found : String → Dict Json → Option Document
found k d = elim (lookup k d) [ none ↦ none | some v ↦ some (document v) ]

-- What is relied on of the client: MSET and MGET succeed; MSET sets the keys of its map and leaves
-- the others; MGET gives the values of the keys, in their order, and changes nothing.
pub record IsStore {C : Type 0} (cache : Cache C) : Type 0 where
  pub entries : C → Dict Json
  pub mset_ok : (ctx : Context) (m : Dict Json) (c : C) → (cache.mset ctx m c).0 ≡ none
  pub mset_sets :
      (ctx : Context) (m : Dict Json) (c : C) (k : String)
      → lookup k (entries (cache.mset ctx m c).1)
        ≡ (elim (lookup k m) [ none ↦ lookup k (entries c) | some v ↦ some v ])
  pub mget_gets :
      (ctx : Context) (keys : List String) (c : C)
      → cache.mget ctx keys c ≡ ((map (λ k. found k (entries c)) keys, none), c)

key_iff : (a b : String) → (user_key a ≡ user_key b) ↔ (a ≡ b)
key_iff a b = (append_cancel_left "user:" a b, λ e. ap user_key e)

module _ (times : TimeText) where
  abbrev text_of : User → String
  text_of u = elim (times.to_text u.created_at) [ inl text ↦ text | inr e ↦ "" ]

  -- The user's time has a text, which reads back as the time.
  abbrev pub KeepsTime : User → Type 0
  KeepsTime u =
      (times.to_text u.created_at ≡ inl (text_of u))
      × (times.of_text (text_of u) ≡ (u.created_at, none))

  abbrev pub json : User → Json
  json u = obj (
      member "CreatedAt" (str (text_of u)) (
        member "ID" (str u.id)
          (member "FirstName" (str u.first_name) (member "LastName" (str u.last_name) end))))

  marshal-json : (u : User) → KeepsTime u → marshal times u ≡ inl (json u)
  unfolding marshal
  marshal-json u keeps = rw (keeps.0, marshal)

  pub unmarshal-json : (u : User) → KeepsTime u → unmarshal times (document (json u)) ≡ (u, none)
  unfolding unmarshal decode_members decode_time decode_text is_field
  unmarshal-json u keeps =
      rw keeps.1 (ap (λ (t : Time × Option Error). (record u { created_at = t.0 }, none)) keeps.1)

  put_all : List User → Dict Json → Dict Json
  put_all [] m = m
  put_all (u ∷ users) m = put_all users (insert (user_key u.id) (json u) m)

  put_users-put_all :
      (users : List User) (m : Dict Json)
      → All KeepsTime users
      → put_users times users m ≡ inl (put_all users m)
  unfolding put_users put_all
  put_users-put_all [] m keeps = refl
  put_users-put_all (u ∷ users) m keeps =
      rw (marshal-json u keeps.0, put_users) (put_users-put_all users _ keeps.1)

  lookup-put_all :
      (users : List User) (m : Dict Json) (id : String)
      → lookup (user_key id) (put_all users m)
        ≡ (elim (last_match (λ (u : User). u.id == id) users) [
          | none ↦ lookup (user_key id) m
          | some u ↦ some (json u)
        ])
  unfolding put_all
  lookup-put_all [] m id = refl
  lookup-put_all (u ∷ users) m id = ground (
    arith,
    lookup-put_all users (insert (user_key u.id) (json u) m) id,
    lookup-insert (user_key u.id) (user_key id) (json u) m,
    eq_iff (user_key u.id) (user_key id),
    eq_iff u.id id,
    key_iff u.id id,
  )

  abbrev rest : List User → List User × Option Error
  rest us = read_values times (map (λ u. some (document (json u))) us)

  read_values-json :
      (us : List User)
      → All KeepsTime us
      → read_values times (map (λ u. some (document (json u))) us) ≡ (us, none)
  unfolding read_values
  read_values-json [] keeps = refl
  read_values-json (u ∷ us) keeps =
      rw (unmarshal-json u keeps.0, read_values)
        (ap (λ (q : User × Option Error). (q.0 ∷ (rest us).0, (rest us).1))
            (unmarshal-json u keeps.0)
          ∙ ap (λ r. (u ∷ r.0, r.1)) (read_values-json us keeps.1))

  -- The last of some users with an id.
  abbrev pub last_of : String → List User → Option User
  last_of id users = last_match (λ (u : User). u.id == id) users

  last-KeepsTime :
      (users : List User) (id : String) (u : User)
      → All KeepsTime users
      → last_of id users ≡ some u
      → KeepsTime u
  last-KeepsTime [] id u keeps e = absurd cc
  last-KeepsTime (v ∷ users) id u keeps e = elim (Option-cases (last_of id users)) [
    | inr (w, f) ↦ last-KeepsTime users id u keeps.1 (ground arith)
    | inl f ↦ (let same : v ≡ u = ground arith in subst KeepsTime same keeps.0)
  ]

  All-last_of :
      (users : List User) (ids : List String) (us : List User)
      → All KeepsTime users
      → map (λ id. last_of id users) ids ≡ map some us
      → All KeepsTime us
  All-last_of users ids [] keeps e = tt
  All-last_of users [] (u ∷ us) keeps e = absurd cc
  All-last_of users (id ∷ ids) (u ∷ us) keeps e =
      (last-KeepsTime users id u keeps cc, All-last_of users ids us keeps cc)

  abbrev over : Option Json → Option Json → Option Json
  over o before = elim o [ none ↦ before | some v ↦ some v ]

  over-nil :
      (o : Option User) (k : String) (before : Option Json)
      → over (elim o [ none ↦ lookup k [] | some u ↦ some (json u) ]) before
        ≡ (elim o [ none ↦ before | some u ↦ some (json u) ])
  unfolding lookup
  over-nil none k before = refl
  over-nil (some u) k before = refl

  module _ {C : Type 0} (cache : Cache C) (store : IsStore cache) where
    pub create-ok :
        (ctx : Context) (users : List User) (c : C)
        → All KeepsTime users
        → ((create times cache ctx users c).0 ≡ none)
          × ((id : String)
              → lookup (user_key id) (store.entries (create times cache ctx users c).1)
                ≡ (elim (last_match (λ (u : User). u.id == id) users) [
                  | none ↦ lookup (user_key id) (store.entries c)
                  | some u ↦ some (json u)
                ]))
    unfolding create
    create-ok ctx [] c keeps = (refl, λ id. refl)
    create-ok ctx (u ∷ users) c keeps =
        let m = put_all (u ∷ users) [] in
        rw (put_users-put_all (u ∷ users) [] keeps, create)
          (rw (store.mset_ok ctx m c) (
            refl,
            λ id.
                store.mset_sets ctx m c (user_key id)
                ∙ ap (λ o. over o (lookup (user_key id) (store.entries c)))
                    (lookup-put_all (u ∷ users) [] id)
                ∙ over-nil (last_of id (u ∷ users)) (user_key id)
                    (lookup (user_key id) (store.entries c)),
          ))

    abbrev after : Context → List User → C → C
    after ctx users c = (create times cache ctx users c).1

    found-after :
        (ctx : Context) (users : List User) (c : C)
        → All KeepsTime users
        → (id : String) (u : User) → last_of id users ≡ some u
        → found (user_key id) (store.entries (after ctx users c)) ≡ some (document (json u))
    found-after ctx users c keeps id u last =
        ap (λ o. elim o [ none ↦ none | some v ↦ some (document v) ])
          ((create-ok ctx users c keeps).1 id
            ∙ ap
                (λ (o : Option User). elim o [
                  | none ↦ lookup (user_key id) (store.entries c)
                  | some x ↦ some (json x)
                ])
                last)

    values-after :
        (ctx : Context) (users : List User) (c : C)
        → All KeepsTime users
        → (ids : List String) (us : List User) → map (λ id. last_of id users) ids ≡ map some us
        → map (λ k. found k (store.entries (after ctx users c))) (map user_key ids)
          ≡ map (λ u. some (document (json u))) us
    values-after ctx users c keeps [] [] e = refl
    values-after ctx users c keeps [] (u ∷ us) e = absurd cc
    values-after ctx users c keeps (id ∷ ids) [] e = absurd cc
    values-after ctx users c keeps (id ∷ ids) (u ∷ us) e =
        let here = found-after ctx users c keeps id u cc in
        let others = values-after ctx users c keeps ids us cc in cc

    -- Over a client that stores, and for users whose times keep their value in JSON, creating the
    -- users succeeds, and reading the keys of some of their ids returns, in the order of the ids and
    -- without an error, the last created user with each id.
    pub read_keys-create :
        (ctx : Context) (users : List User) (c : C)
        → All KeepsTime users
        → (ids : List String) (us : List User) → map (λ id. last_of id users) ids ≡ map some us
        → ((create times cache ctx users c).0 ≡ none)
          × ((read_keys times cache ctx (map user_key ids) (after ctx users c)).0 ≡ (us, none))
    unfolding read_keys
    read_keys-create ctx users c keeps [] [] e = ((create-ok ctx users c keeps).0, refl)
    read_keys-create ctx users c keeps [] (u ∷ us) e = absurd cc
    read_keys-create ctx users c keeps (id ∷ ids) us e = (
      (create-ok ctx users c keeps).0,
      ap (λ r. read_values times r.0.0)
            (store.mget_gets ctx (map user_key (id ∷ ids)) (after ctx users c))
          ∙ ap (read_values times) (values-after ctx users c keeps (id ∷ ids) us e)
          ∙ read_values-json us (All-last_of users (id ∷ ids) us keeps e),
    )
