-- ===== src/Response.antt =====
-- internal/response/http.go, over a model of `http.ResponseWriter`: the first status that is
-- written counts, and the headers sent are those set by then.
use go_api_demo.Prelude.{ℕ, String, Option, none, some, List, [], ◌∷◌, ◌++◌}
use go_api_demo.Prelude.Dict.{Dict, insert}
use go_api_demo.Json.{Json, str, obj, Members, end, member}

pub record Writer : Type 0 where
  pub header : Dict String
  pub status : Option ℕ
  pub sent_header : Dict String
  pub body : List Json

abbrev pub new_writer : Writer
new_writer = record { header = []; status = none; sent_header = []; body = [] }

unfoldable pub set_header : String → String → Writer → Writer
set_header k v w = record w { header = insert k v w.header }

unfoldable pub write_header : ℕ → Writer → Writer
write_header code w = elim w.status [
  | none ↦ record w { status = some code; sent_header = w.header }
  | some _ ↦ w
]

-- json.NewEncoder(w).Encode(v); a first write sends status 200 where none was written.
unfoldable pub encode : Json → Writer → Writer
unfolding write_header
encode v w = let w' = write_header 200 w in record w' { body = w'.body ++ v ∷ [] }

pub record ErrorResponse : Type 0 where
  pub errors : Dict String
  pub message : String

-- The members of a map, in the order of its entries. (The encoder sorts them; an object's order
-- carries no meaning.)
unfoldable pub members : Dict String → Members
members [] = end
members ((k, v) ∷ d) = member k (str v) (members d)

-- `errors` is left out where it is empty.
unfoldable pub error_json : ErrorResponse → Json
unfolding members
error_json r = elim r.errors [
  | [] ↦ obj (member "message" (str r.message) end)
  | e ∷ es ↦ obj (member "errors" (obj (members (e ∷ es))) (member "message" (str r.message) end))
]

-- `none` is a nil response.
unfoldable pub write_response : ℕ → Option Json → Writer → Writer
unfolding set_header write_header encode
write_response status_code response w =
    let w' = write_header status_code (set_header "Content-Type" "application/json" w) in
    elim response [ none ↦ w' | some v ↦ encode v w' ]

unfoldable pub write_error_response : ℕ → String → Dict String → Writer → Writer
unfolding write_response error_json
write_error_response status_code msg errs w =
    write_response status_code (some (error_json (record { errors = errs; message = msg }))) w

unfoldable pub write_500_response : Writer → Writer
unfolding write_response error_json
write_500_response w =
    write_response 500
      (some (error_json (record { errors = []; message = "internal server error" }))) w
