-- ===== src/Tests/Http.antt =====
-- The requests.
use go_api_demo.Prelude.{
  String, ◌≡◌, ◌≢◌, ◌<◌, ◌≤◌, Option, byte_len, rune_count, refl, ◌⊎◌, none, some, List, [], ◌∷◌,
}
use go_api_demo.Prelude.Dict.{Dict}
use go_api_demo.Error.{Error, Outcome, returned}
use go_api_demo.Json.{Json, arr, items}
use go_api_demo.Response.{new_writer, write_response}
use go_api_demo.Server.{Host, Exchange}
use go_api_demo.Time.{unix}
use go_api_demo.Search.{search_users}
use go_api_demo.Time.Rfc3339.{format_rfc3339}
use go_api_demo.User.{Reader, Searcher}
use go_api_demo.Validate.{validate_struct}
use go_api_demo.Validate.Engine.Laws.{Keys}
use go_api_demo.Create.{InputData, input_fields}
use go_api_demo.Create.Http.{decode_input, create_http}
use go_api_demo.Create.Grpc.{create_grpc}
use go_api_demo.Create.Laws.Input.{validate-IsInput, IsInput, Faults}
use go_api_demo.Create.Laws.Http.{create_http_lem, Refused, Stored}
use go_api_demo.Create.Laws.Grpc.{request_of, create_grpc-http}
use go_api_demo.Read.Http.{user_json, read_http}
use go_api_demo.Read.Grpc.{read_grpc}
use go_api_demo.Read.Laws.{shown, response_of, read_http_lem, read_grpc-http}
use go_api_demo.Search.Http.{search_http, param}
use go_api_demo.Search.Grpc.{search_grpc}
use go_api_demo.Search.Laws.Http.{search_http_lem, Answers}
use go_api_demo.Search.Laws.Grpc.{search_grpc-http}
use go_api_demo.Storage.Memory.{UserStorage, creator, reader}
use go_api_demo.Sanitise.{alpha_with_hyphen}
use go_api_demo.Sanitise.Laws.{IsClean, clean_count}
use go_api_demo.Tests.Engine.{engine, engine-IsLawful}
use go_api_demo.Tests.Fixtures.{ctx, sink, zone, render, now, ann, bob, draw, input, body, host}

formatted : format_rfc3339 zone now ≡ "2023-11-14T23:13:20+01:00"
unfolding format_rfc3339 unix
formatted = refl

pub decoded : decode_input body ≡ (input, none)
unfolding decode_input
decoded = refl

abbrev pub made : Outcome (Unit {0}) × Exchange UserStorage
made =
    create_http engine creator zone render ctx draw body
      (record { writer = new_writer; host = host })

pub made-status : made.1.writer.status ≡ some 201
unfolding create_http decode_input validate_struct rune_count go_api_demo.Create.create
    go_api_demo.Storage.Memory.create write_response
made-status = refl

validate-IsInput_example :
    (IsInput input × (validate_struct engine (input_fields input) ≡ returned none))
    ⊎ ((¬ IsInput input)
        × ((list : Dict String) × (validate_struct engine (input_fields input)
              ≡ returned (some list))
            × Keys (Faults input) list
            × (list ≢ [])))
validate-IsInput_example = validate-IsInput engine engine-IsLawful input

create_http_lem_example :
    (made.0 ≡ returned tt)
    × (Refused engine engine-IsLawful creator zone render ctx draw body host made.1
        ⊎ ((i : InputData) × Stored engine engine-IsLawful creator zone render ctx draw body host i
              made.1))
create_http_lem_example =
    create_http_lem engine engine-IsLawful creator zone render ctx draw body host

create_grpc-http_example :
    (create_grpc engine creator zone render ctx draw (request_of input) host).1 ≡ made.1.host
create_grpc-http_example =
    create_grpc-http engine creator zone render ctx draw body input host decoded

-- A store of two users, whatever is asked of it.
abbrev two_users : Reader (Unit {0})
two_users = record { read = λ c s. ((ann ∷ bob ∷ [], none), s) }

abbrev finds_two : Searcher (Unit {0})
finds_two = record { search = λ c term s. ((ann ∷ bob ∷ [], none), s) }

abbrev bare : Host (Unit {0})
bare = record { store = tt; sink = sink }

abbrev shown_two : List Json
shown_two = user_json (shown zone ann) ∷ user_json (shown zone bob) ∷ []

abbrev listed : Exchange (Unit {0})
listed = read_http two_users zone render ctx (record { writer = new_writer; host = bare })

read_http_lem_example :
    (listed.host.store ≡ tt)
    × ((◌≡◌ {A = Option Error} none none
          × (listed.writer.status ≡ some 200)
          × (listed.writer.body ≡ arr (items shown_two) ∷ [])
          × (listed.host.sink ≡ sink))
        ⊎ ((e : Error) × (◌≡◌ {A = Option Error} none (some e))
            × (listed.writer.status ≡ some 500)))
read_http_lem_example = read_http_lem two_users zone render ctx bare

read_grpc-http_example :
    ((read_grpc two_users zone render ctx bare).1 ≡ listed.host)
    × ((read_grpc two_users zone render ctx bare).0.1 ≡ none)
    × ((◌≡◌ {A = Option Error} none none
          × ((read_grpc two_users zone render ctx bare).0.0
              ≡ some (record {
                users = response_of (shown zone ann) ∷ response_of (shown zone bob) ∷ [];
              })))
        ⊎ (((e : Error) × (◌≡◌ {A = Option Error} none (some e)))
            × ((read_grpc two_users zone render ctx bare).0.0 ≡ none)))
read_grpc-http_example = read_grpc-http two_users zone render ctx bare

abbrev pub params : Dict String
params = ("searchTerm", "B-1o!b") ∷ []

abbrev searched : Exchange (Unit {0})
searched =
    search_http alpha_with_hyphen finds_two zone render ctx params
      (record { writer = new_writer; host = bare })

searched-status : searched.writer.status ≡ some 200
unfolding search_http alpha_with_hyphen byte_len search_users write_response
searched-status = refl

search_http_lem_example :
    IsClean (alpha_with_hyphen (param "searchTerm" params)).0
    × (((clean_count (param "searchTerm" params) < 3)
          × (searched.writer.status ≡ some 400)
          × (searched.host.store ≡ tt))
        ⊎ ((3 ≤ clean_count (param "searchTerm" params))
            × Answers finds_two zone render ctx bare
                (alpha_with_hyphen (param "searchTerm" params)).0
                searched))
search_http_lem_example = search_http_lem finds_two zone render ctx bare params

search_grpc-http_example :
    (search_grpc alpha_with_hyphen finds_two zone render ctx (param "searchTerm" params) bare).1
    ≡ searched.host
search_grpc-http_example = search_grpc-http finds_two zone render ctx bare params
