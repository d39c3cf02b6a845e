-- ===== src/Validate/Engine/Laws.antt =====
-- On `ValidateStruct` of internal/validate/validator.go, under a lawful engine.
use go_api_demo.Prelude.{
  String, ◌≡◌, ◌≢◌, refl, none, some, List, [], ◌∷◌, All, ◌⊎◌, inl, inr, arith, Option,
  Option-cases, sym, ◌∙◌,
}
use go_api_demo.Prelude.Dict.{Dict, insert}
use go_api_demo.Error.{returned}
use go_api_demo.Validate.{Field, FieldError, Engine, tag_name, after_dot, collect, validate_struct}
use go_api_demo.Validate.Engine.{IsValid, IsLawful}

some≢none {ℓ} : {A : Type ℓ} {a : A} → ◌≡◌ {A = Option A} (some a) none → ⊥
some≢none e = cc

module _ (P : String → Type 0) where
  abbrev pub Keys : Dict String → Type 0
  Keys d = All (λ e. P e.0) d

  insert-Keys : (k v : String) (d : Dict String) → P k → Keys d → Keys (insert k v d)
  unfolding insert
  insert-Keys k v [] p h = (p, tt)
  insert-Keys k v ((j, w) ∷ d) p h = ground (arith, insert-Keys k v d p)

  insert-ne-nil : (k v : String) (d : Dict String) → insert k v d ≢ []
  unfolding insert
  insert-ne-nil k v [] e = cc
  insert-ne-nil k v ((j, w) ∷ d) e = ground arith

  -- The key that an error gets in the map.
  abbrev pub Named : FieldError → Type 0
  Named e = (key : String) × (after_dot e.namespace ≡ some key) × P key

  collect-Keys :
      (errs : List FieldError) (list : Dict String)
      → All Named errs
      → Keys list
      → (errs ≢ []) ⊎ (list ≢ [])
      → (result : Dict String) × (collect errs list ≡ returned (some result))
        × Keys result
        × (result ≢ [])
  unfolding collect
  collect-Keys [] list named keys filled = (list, refl, keys, ground arith)
  collect-Keys (e ∷ errs) list ((key, found, p), named) keys filled =
      rw (found, collect)
        (collect-Keys errs (insert key e.translation list) named
          (insert-Keys key e.translation list p keys) (inr (insert-ne-nil key e.translation list)))

  module _ {engine : Engine} (lawful : IsLawful engine) where
    -- Where the errors' namespaces yield keys, `ValidateStruct` never panics: it returns nil exactly
    -- for a valid struct, and else a map that is not empty.
    pub validate_struct_lem :
        (fields : List Field)
        → ((errs : List FieldError) → engine tag_name fields ≡ some errs → All Named errs)
        → (All IsValid fields × (validate_struct engine fields ≡ returned none))
          ⊎ ((¬ All IsValid fields)
              × ((list : Dict String) × (validate_struct engine fields ≡ returned (some list))
                  × Keys list
                  × (list ≢ [])))
    unfolding validate_struct
    validate_struct_lem fields named = elim (Option-cases (engine tag_name fields)) [
      | inl fine ↦ inl ((lawful.accepts tag_name fields).0 fine, rw (fine, validate_struct))
      | inr (errs, failed) ↦
          let (list, e, keys, filled) =
            collect-Keys errs [] (named errs failed) tt
              (inl (lawful.reports tag_name fields errs failed).0) in
          inr (
            (λ valid. absurd (some≢none (sym failed ∙ (lawful.accepts tag_name fields).1 valid))),
            (list, rw (failed, validate_struct) e, keys, filled),
          )
    ]
