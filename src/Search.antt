-- ===== src/Search.antt =====
-- internal/user/search: the interactor, the presenter and the shortest search term (controller.go).
-- A nil slice and an empty one are both `[]`.
pub mod Http
pub mod Grpc
pub mod Laws
use go_api_demo.Prelude.{ℕ, String, Option, none, some, List, [], ◌∷◌}
use go_api_demo.Prelude.State.{State}
use go_api_demo.Error.{Error}
use go_api_demo.Context.{Context}
use go_api_demo.Time.{Time}
use go_api_demo.Time.Rfc3339.{Zone, format_rfc3339}
use go_api_demo.User.{User, Searcher}

abbrev pub search_term_min_len : ℕ
search_term_min_len = 3

-- fmt.Sprintf("search term must be >= %v chars", searchTermMinLen)
abbrev pub too_short : String
too_short = "search term must be >= 3 chars"

pub record Item : Type 0 where
  pub created_at : Time
  pub id : String
  pub first_name : String
  pub last_name : String

-- The loop of `search`.
unfoldable pub output_data : List User → List Item
output_data [] = []
output_data (u ∷ users) =
    record {
      created_at = u.created_at;
      id = u.id;
      first_name = u.first_name;
      last_name = u.last_name;
    }
    ∷ output_data users

unfoldable pub search_users :
    {S : Type 0} → Searcher S → Context → String → State S (List Item × Option Error)
search_users searcher ctx search_term s =
    let ((users, err), s') = searcher.search ctx search_term s in
    elim err [ some e ↦ (([], some e), s') | none ↦ ((output_data users, none), s') ]

pub record Usr : Type 0 where
  pub id : String
  pub first_name : String
  pub last_name : String
  pub created_at : String

unfoldable pub view_model : Zone → List Item → List Usr
view_model zone [] = []
view_model zone (u ∷ od) =
    record {
      id = u.id;
      first_name = u.first_name;
      last_name = u.last_name;
      created_at = format_rfc3339 zone u.created_at;
    }
    ∷ view_model zone od
