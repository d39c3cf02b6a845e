-- ===== src/Tests/Engine.antt =====
-- A validation engine that does what is relied on.
use mathlib.Core.Bool.{false≢true}
use mathlib.Core.Path.{subst}
use go_api_demo.Prelude.{
  String, ◌<>◌, ◌≡◌, ◌≢◌, ◌↔◌, refl, sym, ◌∙◌, Bool, true, not, ◌&&◌, Bool-cases, Option, none,
  some, List, [], ◌∷◌, All, Any, inl, inr, ◌==◌, eq_iff, leb, rune_count, if◌then◌else◌, arith,
}
use go_api_demo.Validate.{Rule, required, min, max, Field, FieldError, Engine}
use go_api_demo.Validate.Engine.{Holds, IsValid, field_name, Concerns, IsLawful}

abbrev rule_ok : String → Rule → Bool
rule_ok s required = not (s == "")
rule_ok s (min n) = leb n (rune_count s)
rule_ok s (max n) = leb (rune_count s) n

abbrev rules_ok : String → List Rule → Bool
rules_ok s [] = true
rules_ok s (r ∷ rs) = rule_ok s r && rules_ok s rs

abbrev faults : (String → String) → List Field → List FieldError
faults name [] = []
faults name (f ∷ fields) =
    let rest = faults name fields in
    if rules_ok f.value f.rules
    then rest
    else record {
      namespace = f.struct_name <> "." <> field_name name f;
      translation = field_name name f <> " is invalid";
    }
      ∷ rest

abbrev some_faults : List FieldError → Option (List FieldError)
some_faults [] = none
some_faults (e ∷ es) = some (e ∷ es)

abbrev pub engine : Engine
engine name fields = some_faults (faults name fields)

rule_ok_iff : (s : String) (r : Rule) → (rule_ok s r ≡ true) ↔ Holds s r
rule_ok_iff s required = ground (arith, eq_iff s "")
rule_ok_iff s (min n) = ground arith
rule_ok_iff s (max n) = ground arith

rules_ok_iff : (s : String) (rs : List Rule) → (rules_ok s rs ≡ true) ↔ All (Holds s) rs
rules_ok_iff s [] = ground arith
rules_ok_iff s (r ∷ rs) = ground (arith, rule_ok_iff s r, rules_ok_iff s rs)

faults-nil_iff :
    (name : String → String) (fields : List Field) → (faults name fields ≡ []) ↔ All IsValid fields
faults-nil_iff name [] = ground arith
faults-nil_iff name (f ∷ fields) =
    ground (arith, rules_ok_iff f.value f.rules, faults-nil_iff name fields)

weaken :
    {P Q : FieldError → Type 0} (errs : List FieldError)
    → ((e : FieldError) → P e → Q e)
    → All P errs
    → All Q errs
weaken [] f h = tt
weaken (e ∷ errs) f h = (f e h.0, weaken errs f h.1)

faults-Concerns :
    (name : String → String) (fields : List Field)
    → All (λ e. Any (Concerns name e) fields) (faults name fields)
faults-Concerns name [] = tt
faults-Concerns name (f ∷ fields) =
    let rest = weaken (faults name fields) (λ e h. inr h) (faults-Concerns name fields) in
    elim (Bool-cases (rules_ok f.value f.rules)) [
      | inl ok ↦ rw ok rest
      | inr bad ↦
          rw bad (inl (refl, λ v. false≢true (sym bad ∙ (rules_ok_iff f.value f.rules).1 v)), rest)
    ]

some_faults-none : (es : List FieldError) → (some_faults es ≡ none) ↔ (es ≡ [])
some_faults-none [] = ground arith
some_faults-none (e ∷ es) = ground arith

some_faults-some :
    (es errs : List FieldError) → some_faults es ≡ some errs → (errs ≢ []) × (es ≡ errs)
some_faults-some [] errs e = ground arith
some_faults-some (x ∷ es) errs e = ground arith

pub engine-IsLawful : IsLawful engine
engine-IsLawful = record {
  accepts = λ name fields. (
    λ e. (faults-nil_iff name fields).0 ((some_faults-none (faults name fields)).0 e),
    λ v. (some_faults-none (faults name fields)).1 ((faults-nil_iff name fields).1 v),
  );
  reports = λ name fields errs e.
      let (filled, same) = some_faults-some (faults name fields) errs e in
      (
        filled,
        subst (λ l. All (λ x. Any (Concerns name x) fields) l) same (faults-Concerns name fields),
      );
}
