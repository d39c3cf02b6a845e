-- ===== src/Search/Http.antt =====
-- internal/user/search/controllerhttp.go
use go_api_demo.Prelude.{
  String, ◌<>◌, ltb, byte_len, if◌then◌else◌, Option, none, some, List, [], ◌∷◌,
}
use go_api_demo.Prelude.Dict.{Dict, lookup}
use go_api_demo.Error.{Error, message}
use go_api_demo.Context.{Context}
use go_api_demo.Json.{Json, str, arr, obj, items, end, member}
use go_api_demo.Log.{errorf_context, infof_context, error_context}
use go_api_demo.Response.{write_error_response, write_response, write_500_response}
use go_api_demo.Server.{Exchange, with_log, with_writer, with_host}
use go_api_demo.Time.Rfc3339.{Zone}
use go_api_demo.User.{Searcher}
use go_api_demo.Search.{search_term_min_len, too_short, search_users, Usr, view_model}

unfoldable pub user_json : Usr → Json
user_json u = obj (
    member "id" (str u.id) (
      member "first_name" (str u.first_name)
        (member "last_name" (str u.last_name) (member "created_at" (str u.created_at) end))))

-- The loop over the view model.
unfoldable pub users_json : List Usr → List Json
users_json [] = []
users_json (u ∷ vm) = user_json u ∷ users_json vm

-- The type `alphaWithHyphen`.
abbrev pub AlphaWithHyphen : Type 0
AlphaWithHyphen = String → String × Option Error

-- `params["searchTerm"]`: the empty text where the route has no such variable.
abbrev pub param : String → Dict String → String
param key params = elim (lookup key params) [ none ↦ "" | some v ↦ v ]

module _ {S : Type 0} (sanitise : AlphaWithHyphen) (searcher : Searcher S) (zone : Zone)
    (render : Error → String) where
  unfoldable pub respond : Context → String → Exchange S → Exchange S
  respond ctx search_term x =
      let ((od, err), s) = search_users searcher ctx search_term x.host.store in
      let x' = with_host (λ h. record h { store = s }) x in
      elim err [
        | some e ↦
            with_writer write_500_response (with_host (with_log (error_context render ctx e)) x')
        | none ↦
            with_writer (write_response 200 (some (arr (items (users_json (view_model zone od))))))
              x'
      ]

  -- `params` is `mux.Vars(r)`.
  unfoldable pub search_http : Context → Dict String → Exchange S → Exchange S
  unfolding respond lookup
  search_http ctx params x =
      let (search_term, err) = sanitise (param "searchTerm" params) in
      elim err [
        | some e ↦
            with_writer write_500_response
              (with_host (with_log (errorf_context ctx ("clean string failed: " <> message e))) x)
        | none ↦
            if ltb (byte_len search_term) search_term_min_len
            then with_writer
                (write_error_response 400 "failed validation" (("invalid", too_short) ∷ []))
                (with_host (with_log (infof_context ctx too_short)) x)
            else respond ctx search_term x
      ]
