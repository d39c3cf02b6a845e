-- ===== src/User.antt =====
-- internal/user/user.go: the user, and the interfaces through which the parts of the program store
-- and find users. A method changes the state `S` behind its interface.
use mathlib.Core.Bool.{false≢true}
use mathlib.Core.HLevel.{hedberg}
use go_api_demo.Prelude.{
  Bool-cases, inl, inr, sym, ◌∙◌, String, ◌==◌, eq_iff, ◌≡◌, ◌↔◌, Bool, true, ◌&&◌, Option, List,
  arith,
}
use go_api_demo.Prelude.State.{State}
use go_api_demo.Error.{Error}
use go_api_demo.Context.{Context}
use go_api_demo.Time.{Time, zero_time, time_eq, time_eq_iff}

pub record User : Type 0 where
  pub created_at : Time
  pub id : String
  pub first_name : String
  pub last_name : String

-- user.User{}
abbrev pub empty_user : User
empty_user = record { created_at = zero_time; id = ""; first_name = ""; last_name = "" }

-- `a == b` on structs
unfoldable pub user_eq : User → User → Bool
user_eq a b =
    time_eq a.created_at b.created_at
    && a.id == b.id
    && a.first_name == b.first_name
    && a.last_name == b.last_name

pub user_eq_iff : (a b : User) → (user_eq a b ≡ true) ↔ (a ≡ b)
unfolding user_eq
user_eq_iff a b = ground (
  arith,
  time_eq_iff a.created_at b.created_at,
  eq_iff a.id b.id,
  eq_iff a.first_name b.first_name,
  eq_iff a.last_name b.last_name,
)

pub record Creator (S : Type 0) : Type 0 where
  pub create : Context → List User → State S (Option Error)

pub record Reader (S : Type 0) : Type 0 where
  pub read : Context → State S (List User × Option Error)

pub record Searcher (S : Type 0) : Type 0 where
  pub search : Context → String → State S (List User × Option Error)

pub User-discrete : Discrete User
User-discrete a b = elim (Bool-cases (user_eq a b)) [
  | inl e ↦ yes ((user_eq_iff a b).0 e)
  | inr e ↦ no (λ p. false≢true (sym e ∙ (user_eq_iff a b).1 p))
]

pub User-set : IsSet User
User-set = hedberg User-discrete
