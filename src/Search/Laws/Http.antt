-- ===== src/Search/Laws/Http.antt =====
-- GET /user/search/{searchTerm}, the controller of internal/user/search/controllerhttp.go.
use go_api_demo.Prelude.{
  ℕ, String, ◌≡◌, ◌<◌, ◌≤◌, refl, ap, ◌∙◌, Option, Option-cases, Bool-cases, none, some, List, [],
  ◌∷◌, ◌⊎◌, inl, inr, map, arith, byte_len, ltb, true, false,
}
use go_api_demo.Prelude.Dict.{Dict}
use go_api_demo.Error.{Error}
use go_api_demo.Context.{Context}
use go_api_demo.Json.{arr, items}
use go_api_demo.Response.{new_writer, write_response, write_error_response, write_500_response}
use go_api_demo.Sanitise.{alpha_with_hyphen, remove_others}
use go_api_demo.Sanitise.Laws.{IsClean, clean_count, alpha_with_hyphen_lem}
use go_api_demo.Server.{Host, Exchange}
use go_api_demo.Time.Rfc3339.{Zone, format_rfc3339}
use go_api_demo.User.{User, Searcher}
use go_api_demo.Search.{output_data, search_users, Usr, view_model, search_term_min_len}
use go_api_demo.Search.Http.{user_json, users_json, param, respond, search_http}

-- How one user is shown.
abbrev pub shown : Zone → User → Usr
shown zone u = record {
  id = u.id;
  first_name = u.first_name;
  last_name = u.last_name;
  created_at = format_rfc3339 zone u.created_at;
}

users_json-shown :
    (zone : Zone) (users : List User)
    → users_json (view_model zone (output_data users)) ≡ map (λ u. user_json (shown zone u)) users
unfolding view_model output_data users_json
users_json-shown zone [] = refl
users_json-shown zone (u ∷ users) =
    ap (λ l. user_json (shown zone u) ∷ l) (users_json-shown zone users)

module _ {S : Type 0} (searcher : Searcher S) (ctx : Context) (term : String) (s : S) where
  abbrev pub found : (List User × Option Error) × S
  found = searcher.search ctx term s

  pub search-ok :
      found.0.1 ≡ none → search_users searcher ctx term s ≡ ((output_data found.0.0, none), found.1)
  unfolding search_users
  search-ok e = rw (e, search_users)

  pub search-failed :
      {d : Error} → found.0.1 ≡ some d → search_users searcher ctx term s ≡ (([], some d), found.1)
  unfolding search_users
  search-failed e = rw (e, search_users)

below : {m n : ℕ} → m ≡ n → ltb m 3 ≡ true → n < 3
below h e = ground arith

not_below : {m n : ℕ} → m ≡ n → ltb m 3 ≡ false → 3 ≤ n
not_below h e = ground arith

module _ {S : Type 0} (searcher : Searcher S) (zone : Zone) (render : Error → String)
    (ctx : Context) (h : Host S) where
  -- The answer to a search for a term: every user that the store returned, in its order.
  abbrev pub Answers : String → Exchange S → Type 0
  Answers term x =
      (x.host.store ≡ (found searcher ctx term h.store).1)
      × ((((found searcher ctx term h.store).0.1 ≡ none)
            × (x.writer.status ≡ some 200)
            × (x.writer.body
                ≡ arr (
                    items
                      (map (λ u. user_json (shown zone u)) (found searcher ctx term h.store).0.0))
                  ∷ [])
            × (x.host.sink ≡ h.sink))
          ⊎ ((e : Error) × ((found searcher ctx term h.store).0.1 ≡ some e)
              × (x.writer.status ≡ some 500)))

  respond-Answers :
      (term : String)
      → Answers term (
          respond alpha_with_hyphen searcher zone render ctx term
            (record { writer = new_writer; host = h }))
  unfolding respond write_response write_500_response
  respond-Answers term = elim (Option-cases (found searcher ctx term h.store).0.1) [
    | inl e ↦
        let ok = search-ok searcher ctx term h.store e in
        rw (ok, respond)
          (
            ap (λ r. r.1) ok,
            inl (
              e,
              refl,
              ap (λ r. arr (items (users_json (view_model zone r.0.0))) ∷ []) ok
                  ∙ ap (λ l. arr (items l) ∷ [])
                      (users_json-shown zone (found searcher ctx term h.store).0.0),
              refl,
            ),
          )
    | inr (d, e) ↦
        let failed = search-failed searcher ctx term h.store e in
        rw (failed, respond) (ap (λ r. r.1) failed, inr (d, e, refl))
  ]

  abbrev pub after : Dict String → Exchange S
  after params =
      search_http alpha_with_hyphen searcher zone render ctx params
        (record { writer = new_writer; host = h })

  -- A request whose term has fewer than three letters and hyphens gets 400 and leaves the store
  -- alone. For any other, the store is asked once, for the letters and hyphens of the term: if that
  -- succeeds the answer is 200 with all the users returned, in order, and else 500.
  pub search_http_lem :
      (params : Dict String)
      → let term = (alpha_with_hyphen (param "searchTerm" params)).0 in
        IsClean term
        × (((clean_count (param "searchTerm" params) < 3)
              × ((after params).writer.status ≡ some 400)
              × ((after params).host.store ≡ h.store))
            ⊎ ((3 ≤ clean_count (param "searchTerm" params)) × Answers term (after params)))
  unfolding search_http write_error_response alpha_with_hyphen
  search_http_lem params =
      let l = alpha_with_hyphen_lem (param "searchTerm" params) in
      (
        l.1,
        elim (Bool-cases
            (ltb (byte_len (remove_others (param "searchTerm" params))) search_term_min_len)) [
              | inl e ↦ rw (e, search_http) (inl (below l.2 e, refl, refl))
              | inr e ↦ rw (e, search_http) (inr (not_below l.2 e, respond-Answers _))
            ],
      )
