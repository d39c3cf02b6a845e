-- ===== src/Create/Laws/Input.antt =====
-- The rules on the input of a create request, internal/user/create/controller.go.
use go_api_demo.Prelude.{
  ◌≤◌, String, ◌≡◌, ◌≢◌, ◌↔◌, refl, ap, none, some, List, [], ◌∷◌, All, Any, ◌⊎◌, inl, inr, arith,
  rune_count,
}
use go_api_demo.Prelude.Dict.{Dict}
use go_api_demo.Error.{returned}
use go_api_demo.Validate.{Engine, FieldError, tag_name, after_dot, validate_struct}
use go_api_demo.Validate.Engine.{Holds, IsValid, IsLawful, Concerns}
use go_api_demo.Validate.Engine.Laws.{Keys, Named, validate_struct_lem}
use go_api_demo.Create.{InputData, name_rules, input_fields}

-- A name of 3 to 100 characters.
abbrev pub IsName : String → Type 0
IsName s = (3 ≤ rune_count s) × (rune_count s ≤ 100)

abbrev pub IsInput : InputData → Type 0
IsInput input = IsName input.first_name × IsName input.last_name

-- The key of a field whose value is no name.
abbrev pub Faults : InputData → String → Type 0
Faults input key =
    ((key ≡ "first_name") × (¬ IsName input.first_name))
    ⊎ ((key ≡ "last_name") × (¬ IsName input.last_name))

not_empty : (s : String) → 3 ≤ rune_count s → s ≢ ""
unfolding rune_count
not_empty s h e = omega (arith, ap rune_count e)

rules_hold : (s : String) → IsName s → All (Holds s) name_rules
rules_hold s h = (not_empty s h.0, (h.0, (h.1, tt)))

IsValid-iff : (input : InputData) → All IsValid (input_fields input) ↔ IsInput input
IsValid-iff input = (
  λ v. ((v.0.1.0, v.0.1.1.0), (v.1.0.1.0, v.1.0.1.1.0)),
  λ h. (rules_hold input.first_name h.0, (rules_hold input.last_name h.1, tt)),
)

errors-Named :
    (input : InputData) (errs : List FieldError)
    → All (λ e. Any (Concerns tag_name e) (input_fields input)) errs
    → All (Named (Faults input)) errs
unfolding tag_name after_dot
errors-Named input [] h = tt
errors-Named input (e ∷ errs) (inl (ns, bad), h) = (
  ("first_name", ap after_dot ns, inl (refl, λ ok. bad (rules_hold input.first_name ok))),
  errors-Named input errs h,
)
errors-Named input (e ∷ errs) (inr (inl (ns, bad)), h) = (
  ("last_name", ap after_dot ns, inr (refl, λ ok. bad (rules_hold input.last_name ok))),
  errors-Named input errs h,
)
errors-Named input (e ∷ errs) (inr (inr no_field), h) = absurd no_field

-- ValidateStruct on the input of a create request never panics. It accepts exactly the inputs with
-- two names of 3 to 100 characters; otherwise its map is not empty, and each key of it is the JSON
-- name of a field that breaks the rules.
pub validate-IsInput :
    (engine : Engine) (lawful : IsLawful engine) (input : InputData)
    → (IsInput input × (validate_struct engine (input_fields input) ≡ returned none))
      ⊎ ((¬ IsInput input)
          × ((list : Dict String) × (validate_struct engine (input_fields input)
                ≡ returned (some list))
              × Keys (Faults input) list
              × (list ≢ [])))
validate-IsInput engine lawful input =
    elim (validate_struct_lem (Faults input) lawful (input_fields input) (λ errs failed.
      errors-Named input errs (lawful.reports tag_name (input_fields input) errs failed).1)) [
        | inl (valid, e) ↦ inl ((IsValid-iff input).0 valid, e)
        | inr (invalid, r) ↦ inr (λ h. invalid ((IsValid-iff input).1 h), r)
      ]
