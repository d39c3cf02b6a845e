-- ===== src/Validate/Engine.antt =====
-- What the code relies on of the validation library: `Struct` returns nil exactly when every rule of
-- every field holds, and otherwise some errors, each of them for a field with a rule that fails, with
-- the struct's name and the field's name in its namespace. The field's name is the one that the
-- registered function gives, or the Go name where that is empty.
pub mod Laws
use go_api_demo.Prelude.{
  ℕ, ◌≤◌, String, ◌<>◌, ◌≡◌, ◌≢◌, ◌↔◌, none, some, List, [], All, Any, ◌==◌, if◌then◌else◌,
  rune_count,
}
use go_api_demo.Validate.{Rule, required, min, max, Field, FieldError, Engine}

abbrev pub Holds : String → Rule → Type 0
Holds s required = s ≢ ""
Holds s (min n) = n ≤ rune_count s
Holds s (max n) = rune_count s ≤ n

abbrev pub IsValid : Field → Type 0
IsValid f = All (Holds f.value) f.rules

abbrev pub field_name : (String → String) → Field → String
field_name name f = let n = name f.json_tag in if n == "" then f.go_name else n

abbrev pub Concerns : (String → String) → FieldError → Field → Type 0
Concerns name e f = (e.namespace ≡ f.struct_name <> "." <> field_name name f) × (¬ IsValid f)

pub record IsLawful (engine : Engine) : Type 0 where
  pub accepts :
      (name : String → String) (fields : List Field)
      → (engine name fields ≡ none) ↔ All IsValid fields
  pub reports :
      (name : String → String) (fields : List Field) (errs : List FieldError)
      → engine name fields ≡ some errs
      → (errs ≢ []) × All (λ e. Any (Concerns name e) fields) errs
