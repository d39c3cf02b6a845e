-- ===== src/Search/Grpc.antt =====
-- internal/user/search/controllergrpc.go
use go_api_demo.Prelude.{String, ◌<>◌, ltb, byte_len, if◌then◌else◌, none, some, List, [], ◌∷◌}
use go_api_demo.Error.{Error, message, made}
use go_api_demo.Context.{Context}
use go_api_demo.Create.Grpc.{UserResponse}
use go_api_demo.Log.{errorf_context, infof_context, error_context}
use go_api_demo.Read.Grpc.{Reply}
use go_api_demo.Server.{Host, with_log}
use go_api_demo.Time.Rfc3339.{Zone}
use go_api_demo.User.{Searcher}
use go_api_demo.Search.{search_term_min_len, too_short, search_users, Usr, view_model}
use go_api_demo.Search.Http.{AlphaWithHyphen}

-- The loop over the view model.
unfoldable pub user_responses : List Usr → List UserResponse
user_responses [] = []
user_responses (u ∷ vm) =
    record {
      id = u.id;
      first_name = u.first_name;
      last_name = u.last_name;
      created_at = u.created_at;
    }
    ∷ user_responses vm

module _ {S : Type 0} (sanitise : AlphaWithHyphen) (searcher : Searcher S) (zone : Zone)
    (render : Error → String) where
  unfoldable pub respond : Context → String → Host S → Reply × Host S
  respond ctx search_term h =
      let ((od, err), s) = search_users searcher ctx search_term h.store in
      let h' = record h { store = s } in
      elim err [
        | some e ↦ ((none, some e), with_log (error_context render ctx e) h')
        | none ↦ ((some (record { users = user_responses (view_model zone od) }), none), h')
      ]

  -- The text is `searchReq.SearchTerm`.
  unfoldable pub search_grpc : Context → String → Host S → Reply × Host S
  unfolding respond
  search_grpc ctx requested h =
      let (search_term, err) = sanitise requested in
      elim err [
        | some e ↦
            ((none, some e), with_log (errorf_context ctx ("clean string failed: " <> message e)) h)
        | none ↦
            if ltb (byte_len search_term) search_term_min_len
            then ((none, some (made too_short)), with_log (infof_context ctx too_short) h)
            else respond ctx search_term h
      ]
