-- ===== src/Read/Laws.antt =====
-- On the two controllers of internal/user/read.
use go_api_demo.Prelude.{
  String, ◌≡◌, refl, ap, ◌∙◌, sym, Option, Option-cases, none, some, List, [], ◌∷◌, ◌⊎◌, inl, inr,
  map,
}
use go_api_demo.Error.{Error}
use go_api_demo.Context.{Context}
use go_api_demo.Json.{arr, items}
use go_api_demo.Create.Grpc.{UserResponse}
use go_api_demo.Log.{error_context}
use go_api_demo.Response.{new_writer, write_response, write_500_response}
use go_api_demo.Server.{with_log, Host, Exchange}
use go_api_demo.Time.Rfc3339.{Zone, format_rfc3339}
use go_api_demo.User.{User, Reader}
use go_api_demo.Read.{output_data, read, Usr, view_model}
use go_api_demo.Read.Http.{user_json, users_json, read_http}
use go_api_demo.Read.Grpc.{user_responses, read_grpc}

-- How one user is shown.
abbrev pub shown : Zone → User → Usr
shown zone u = record {
  id = u.id;
  first_name = u.first_name;
  last_name = u.last_name;
  created_at = format_rfc3339 zone u.created_at;
}

abbrev pub response_of : Usr → UserResponse
response_of u = record {
  id = u.id;
  first_name = u.first_name;
  last_name = u.last_name;
  created_at = u.created_at;
}

users_json-shown :
    (zone : Zone) (users : List User)
    → users_json (view_model zone (output_data users)) ≡ map (λ u. user_json (shown zone u)) users
unfolding view_model output_data users_json
users_json-shown zone [] = refl
users_json-shown zone (u ∷ users) =
    ap (λ l. user_json (shown zone u) ∷ l) (users_json-shown zone users)

user_responses-shown :
    (zone : Zone) (users : List User)
    → user_responses (view_model zone (output_data users))
      ≡ map (λ u. response_of (shown zone u)) users
unfolding view_model output_data user_responses
user_responses-shown zone [] = refl
user_responses-shown zone (u ∷ users) =
    ap (λ l. response_of (shown zone u) ∷ l) (user_responses-shown zone users)

module _ {S : Type 0} (reader : Reader S) (zone : Zone) (render : Error → String) (ctx : Context)
    (h : Host S) where
  abbrev fetched : (List User × Option Error) × S
  fetched = reader.read ctx h.store

  read-ok :
      fetched.0.1 ≡ none → read reader ctx h.store ≡ ((output_data fetched.0.0, none), fetched.1)
  unfolding read
  read-ok e = rw (e, read)

  read-failed :
      {d : Error} → fetched.0.1 ≡ some d → read reader ctx h.store ≡ (([], some d), fetched.1)
  unfolding read
  read-failed e = rw (e, read)

  abbrev after : Exchange S
  after = read_http reader zone render ctx (record { writer = new_writer; host = h })

  -- GET /user answers 200 with the users that the store returned, all of them and in its order, and
  -- logs nothing; if the store returns an error, whatever users come with it, the answer is 500.
  pub read_http_lem :
      (after.host.store ≡ fetched.1)
      × (((fetched.0.1 ≡ none)
            × (after.writer.status ≡ some 200)
            × (after.writer.body
                ≡ arr (items (map (λ u. user_json (shown zone u)) fetched.0.0)) ∷ [])
            × (after.host.sink ≡ h.sink))
          ⊎ ((e : Error) × (fetched.0.1 ≡ some e) × (after.writer.status ≡ some 500)))
  unfolding read_http write_response write_500_response
  read_http_lem = elim (Option-cases fetched.0.1) [
    | inl e ↦
        rw (read-ok e, read_http)
          (
            ap (λ r. r.1) (read-ok e),
            inl (
              e,
              refl,
              ap (λ r. arr (items (users_json (view_model zone r.0.0))) ∷ []) (read-ok e)
                  ∙ ap (λ l. arr (items l) ∷ []) (users_json-shown zone fetched.0.0),
              refl,
            ),
          )
    | inr (d, e) ↦ rw (read-failed e, read_http) (ap (λ r. r.1) (read-failed e), inr (d, e, refl))
  ]

  -- The gRPC method changes the store and the log as GET /user does, and returns the store's error. Its
  -- reply holds the users that the store returned, in its order, where there is no error, and is nil
  -- where there is one.
  pub read_grpc-http :
      ((read_grpc reader zone render ctx h).1 ≡ after.host)
      × ((read_grpc reader zone render ctx h).0.1 ≡ fetched.0.1)
      × (((fetched.0.1 ≡ none)
            × ((read_grpc reader zone render ctx h).0.0
                ≡ some (record { users = map (λ u. response_of (shown zone u)) fetched.0.0 })))
          ⊎ (((e : Error) × (fetched.0.1 ≡ some e))
              × ((read_grpc reader zone render ctx h).0.0 ≡ none)))
  unfolding read_grpc read_http
  read_grpc-http = elim (Option-cases fetched.0.1) [
    | inl e ↦
        rw (read-ok e, read_grpc)
          (rw (read-ok e, read_http)
            (
              ap (λ r. record h { store = r.1 }) (sym (read-ok e)),
              sym e,
              inl (
                e,
                ap (λ l. some (record { users = l })) (user_responses-shown zone fetched.0.0),
              ),
            ))
    | inr (d, e) ↦
        rw (read-failed e, read_grpc)
          (rw (read-failed e, read_http)
            (
              ap (λ r. with_log (error_context render ctx d) (record h { store = r.1 }))
                  (sym (read-failed e)),
              sym e,
              inr ((d, e), refl),
            ))
  ]
