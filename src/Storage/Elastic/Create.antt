-- ===== src/Storage/Elastic/Create.antt =====
-- `Create` of internal/storage/elastic/user.go. Each user's request runs in a goroutine of its own,
-- which sends its response to a channel without a buffer; the loop receives them until all have been
-- sent. A step is one request done or one response received, in any order.
pub mod Laws
pub mod One
use go_api_demo.Prelude.{
  ℕ, zero, suc, String, Bool, false, ◌≡◌, Option, none, some, List, [], ◌∷◌, ◌++◌, ◌⊎◌, inl, inr,
}
use go_api_demo.Error.{Error, made, message, followed}
use go_api_demo.Context.{Context}
use go_api_demo.Json.{Json}
use go_api_demo.Time.JsonText.{TimeText}
use go_api_demo.User.{User}
use go_api_demo.Storage.Elastic.{IndexRequest, Response, Client, usrs, elastic_user, marshal}

-- The type `r`, with 0 and false where the code sets no field.
pub record Result : Type 0 where
  pub err : Option Error
  pub status_code : ℕ
  pub is_error : Bool

abbrev pub result_of : Response ⊎ Error → Result
result_of (inr e) = record { err = some e; status_code = 0; is_error = false }
result_of (inl resp) = record {
  err = none;
  status_code = resp.status_code;
  is_error = resp.is_error;
}

abbrev pub request : String → Json → IndexRequest
request id j = record { index = usrs; document_id = id; body = j; refresh = "false" }

-- The loop over the users: the requests of the goroutines that it starts, and the error of the user
-- at which it returns.
unfoldable pub start : TimeText → List User → List IndexRequest × Option Error
start times [] = ([], none)
start times (u ∷ users) =
    let (requests, err) = start times users in
    elim (marshal times (elastic_user u)) [
      | inr e ↦ ([], some (made (message e)))
      | inl j ↦ (request u.id j ∷ requests, err)
    ]

-- The loop over the responses.
unfoldable pub collect : List Result → Option Error → Option Error
collect [] err = err
collect (resp ∷ responses) err = elim resp.err [
  | none ↦ collect responses err
  | some e ↦ elim err [
    | none ↦ collect responses (some e)
    | some d ↦ collect responses (some (followed e (message (made (message d)))))
  ]
]

-- The requests that no goroutine has done, the results that wait to be received, and those that
-- were received, in order.
pub record Flight (E : Type 0) : Type 0 where
  pub state : E
  pub todo : List IndexRequest
  pub sending : List Result
  pub received : List Result

module _ {E : Type 0} (client : Client E) (ctx : Context) where
  pub data Step (f : Flight E) : Flight E → Type 0 where
    perform :
        (xs : List IndexRequest) (q : IndexRequest) (ys : List IndexRequest)
        → f.todo ≡ xs ++ q ∷ ys
        → Step f (record f {
          state = (client.index ctx q f.state).1;
          todo = xs ++ ys;
          sending = result_of (client.index ctx q f.state).0 ∷ f.sending;
        })
    receive :
        (xs : List Result) (r : Result) (ys : List Result)
        → f.sending ≡ xs ++ r ∷ ys
        → Step f (record f { sending = xs ++ ys; received = f.received ++ r ∷ [] })

  -- `n` steps.
  pub data Steps (f : Flight E) : ℕ → Flight E → Type 0 where
    here : Steps f zero f
    next : {n : ℕ} {g h : Flight E} → Steps f n g → Step g h → Steps f (suc n) h

-- Before the first step.
abbrev pub launched : {E : Type 0} → List IndexRequest → E → Flight E
launched requests s = record { state = s; todo = requests; sending = []; received = [] }

-- All goroutines are done and the channel is closed: `Create` returns `collect f.received none`.
abbrev pub IsDone : {E : Type 0} → Flight E → Type 0
IsDone f = (f.todo ≡ []) × (f.sending ≡ [])
