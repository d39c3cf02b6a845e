-- ===== src/Tests/Elastic.antt =====
-- The storage in Elasticsearch.
use go_api_demo.Prelude.{
  ℕ, zero, suc, ◌*◌, ◌<◌, ◌≡◌, ◌↔◌, refl, true, false, none, some, [], ◌∷◌, ◌⊎◌, inl, inr, length,
  All,
}
use go_api_demo.Error.{Error, made, message}
use go_api_demo.Json.{obj, end}
use go_api_demo.Time.JsonText.{TimeText}
use go_api_demo.Storage.Elastic.{IndexRequest, Response, Client, source, elastic_user, marshal}
use go_api_demo.Storage.Elastic.Create.{
  Result, request, start, collect, Flight, Step, perform, receive, Steps, here, next, launched,
  IsDone,
}
use go_api_demo.Storage.Elastic.Create.Laws.{answers, IsResponse, Steps-collect}
use go_api_demo.Storage.Elastic.Search.{search}
use go_api_demo.Storage.Elastic.Search.Errors.{asked, Judged, elastic_search_lem}
use go_api_demo.Json.{document}
use go_api_demo.Tests.Fixtures.{ctx, now, ann, bob}

-- Every time has the text and the value of one time.
abbrev times : TimeText
times = record { to_text = λ t. inl "2023-11-14T22:13:20.5Z"; of_text = λ s. (now, none) }

abbrev if_first : ℕ → Response ⊎ Error
if_first zero = inl (record { status_code = 201; is_error = false; body = document (obj end) })
if_first (suc n) = inr (made "connection refused")

-- A client that counts its requests and answers the first one only.
abbrev client : Client ℕ
client = record {
  index = λ c q n. (if_first n, suc n);
  search = λ c q n. (inr (made "no search"), n);
}

abbrev of_ann : IndexRequest
of_ann = request "a1" (source "2023-11-14T22:13:20.5Z" (elastic_user ann))

abbrev of_bob : IndexRequest
of_bob = request "b2" (source "2023-11-14T22:13:20.5Z" (elastic_user bob))

requests_example : start times (ann ∷ bob ∷ []) ≡ (of_ann ∷ of_bob ∷ [], none)
unfolding start marshal
requests_example = refl

abbrev sent : Result
sent = record { err = none; status_code = 201; is_error = false }

abbrev failed : Result
failed = record { err = some (made "connection refused"); status_code = 0; is_error = false }

-- The second request is done first.
abbrev flight : Flight ℕ
flight = record { state = 2; todo = []; sending = []; received = failed ∷ sent ∷ [] }

flight-Steps : Steps client ctx (launched (of_ann ∷ of_bob ∷ []) 0) 4 flight
flight-Steps =
    next
      (next (next (next here (perform (of_ann ∷ []) of_bob [] refl)) (perform [] of_ann [] refl))
        (receive [] failed (sent ∷ []) refl))
      (receive [] sent [] refl)

Steps-collect_example :
    (IsDone flight
      × (4 ≡ 2 * length (ann ∷ bob ∷ []))
      × (length flight.received ≡ length (ann ∷ bob ∷ []))
      × (length (answers client ctx flight-Steps) ≡ length (ann ∷ bob ∷ []))
      × ((collect flight.received none ≡ none) ↔ All IsResponse (answers client ctx flight-Steps)))
    ⊎ ((4 < 2 * length (ann ∷ bob ∷ [])) × ((g : Flight ℕ) × Step client ctx flight g))
Steps-collect_example =
    Steps-collect client ctx times (ann ∷ bob ∷ []) (of_ann ∷ of_bob ∷ []) 0 4 flight
      requests_example flight-Steps

abbrev refusal : Response
refusal = record { status_code = 503; is_error = true; body = document (obj end) }

-- A client whose one response is an error without a body that decodes.
abbrev refusing : Client ℕ
refusing = record {
  index = λ c q n. (inr (made "no index"), n);
  search = λ c q n. (inl refusal, suc n);
}

elastic_search_lem_example :
    ((search times refusing ctx "ann" 0).1 ≡ (asked times refusing ctx "ann" 0).1)
    × (((resp : Response) × ((asked times refusing ctx "ann" 0).0 ≡ inl resp)
          × Judged times resp (search times refusing ctx "ann" 0).0)
        ⊎ ((e : Error) × ((asked times refusing ctx "ann" 0).0 ≡ inr e)
            × ((search times refusing ctx "ann" 0).0 ≡ ([], some (made (message e))))))
elastic_search_lem_example = elastic_search_lem times refusing ctx "ann" 0
