-- ===== src/Storage/Elastic.antt =====
-- internal/storage/elastic/user.go. The client of Elasticsearch is third-party code: `Client` is what
-- the code calls of it. A request's body is kept as the tree of its JSON text. `NewUserSearch` only
-- connects; `instrumentSearch`, which traces, is in Trace.
pub mod Create
pub mod Search
use go_api_demo.Prelude.{ℕ, String, ◌<>◌, Bool, List, [], ◌∷◌, ◌⊎◌, inl, inr}
use go_api_demo.Prelude.State.{State}
use go_api_demo.Error.{Error, made, message}
use go_api_demo.Context.{Context}
use go_api_demo.Json.{Json, str, obj, end, member, Document}
use go_api_demo.Time.{Time}
use go_api_demo.Time.JsonText.{TimeText}
use go_api_demo.User.{User}

-- esapi.IndexRequest and esapi.SearchRequest, as far as the code sets them.
pub record IndexRequest : Type 0 where
  pub index : String
  pub document_id : String
  pub body : Json
  pub refresh : String

pub record SearchRequest : Type 0 where
  pub index : List String
  pub docvalue_fields : List String
  pub query : String

pub record Response : Type 0 where
  pub status_code : ℕ
  pub is_error : Bool
  pub body : Document

pub record Client (E : Type 0) : Type 0 where
  pub index : Context → IndexRequest → State E (Response ⊎ Error)
  pub search : Context → SearchRequest → State E (Response ⊎ Error)

abbrev pub usrs : String
usrs = "users"

pub record ElasticUser : Type 0 where
  pub created_at : Time
  pub id : String
  pub full_name : String
  pub first_name : String
  pub last_name : String

unfoldable pub elastic_user : User → ElasticUser
elastic_user u = record {
  id = u.id;
  full_name = u.first_name <> " " <> u.last_name;
  first_name = u.first_name;
  last_name = u.last_name;
  created_at = u.created_at;
}

abbrev pub source : String → ElasticUser → Json
source created_at u = obj (
    member "created_at" (str created_at) (
      member "id" (str u.id) (
        member "full_name" (str u.full_name)
          (member "first_name" (str u.first_name) (member "last_name" (str u.last_name) end)))))

-- json.Marshal(eU)
unfoldable pub marshal : TimeText → ElasticUser → Json ⊎ Error
marshal times u = elim (times.to_text u.created_at) [
  | inr e ↦ inr (made ("json: error calling MarshalJSON for type time.Time: " <> message e))
  | inl text ↦ inl (source text u)
]
