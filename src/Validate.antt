-- ===== src/Validate.antt =====
-- internal/validate/validator.go. The engine of `go-playground/validator` is third-party code: it is
-- the parameter `engine`, from the function that names fields and the fields of a struct (with their
-- values and the rules of their tags) to `Struct`'s errors. `NewValidator` and `validator` register
-- translations with that library and hand it `tag_name`. `IsUUID` asks a library too: `parse`.
pub mod Engine
use Prim.Native.Char.{code}
use Prim.Native.String
use go_api_demo.Prelude.{
  ℕ, String, ◌<>◌, Bool, true, false, Option, none, some, List, [], ◌∷◌, ◌==◌, nat_eq,
  if◌then◌else◌,
}
use go_api_demo.Prelude.Dict.{Dict, insert}
use go_api_demo.Error.{Error, Outcome, returned, panicked}

pub data Rule : Type 0 where
  required : Rule
  min max : ℕ → Rule

-- A field of a struct, with its two tags read.
pub record Field : Type 0 where
  pub struct_name : String
  pub go_name : String
  pub json_tag : String
  pub rules : List Rule
  pub value : String

-- `err.Namespace()` and `err.Translate(v.translator)`
pub record FieldError : Type 0 where
  pub namespace : String
  pub translation : String

abbrev pub Engine : Type 0
Engine = (String → String) → List Field → Option (List FieldError)

-- strings.SplitN(s, ",", 2)[0]
before_comma : String → String
before_comma String.[] = ""
before_comma (String.◌∷◌ c s) =
    let rest = before_comma s in if nat_eq (code c) b',' then "" else String.◌∷◌ c rest

-- strings.SplitN(s, ".", 2)[1], where there is such a part
unfoldable pub after_dot : String → Option String
after_dot String.[] = none
after_dot (String.◌∷◌ c s) = let rest = after_dot s in if nat_eq (code c) b'.' then some s else rest

-- The function handed to `RegisterTagNameFunc`.
unfoldable pub tag_name : String → String
unfolding before_comma
tag_name json_tag = let name = before_comma json_tag in if name == "-" then "" else name

collect : List FieldError → Dict String → Outcome (Option (Dict String))
collect [] list = returned (some list)
collect (e ∷ errs) list = elim (after_dot e.namespace) [
  | none ↦ panicked "runtime error: index out of range [1] with length 1"
  | some key ↦ collect errs (insert key e.translation list)
]

unfoldable pub validate_struct : Engine → List Field → Outcome (Option (Dict String))
unfolding after_dot collect
validate_struct engine input = elim (engine tag_name input) [
  | none ↦ returned none
  | some errs ↦ collect errs []
]

-- `parse` is uuid.Parse, as far as its error goes.
unfoldable pub is_uuid : (String → Option Error) → String → Bool
is_uuid parse u = elim (parse u) [ none ↦ true | some e ↦ false ]
