-- ===== src/Sanitise/Laws.antt =====
-- On `AlphaWithHyphen` of internal/sanitise/string.go.
use Prim.Native.Char.{code}
use go_api_demo.Prelude.{
  ℕ, ◌+◌, String, codes, ◌≡◌, refl, ap, Bool-cases, true, inl, inr, none, All, arith, byte_len,
  if◌then◌else◌,
}
use go_api_demo.Prelude.Text.{utf8_width}
use go_api_demo.Sanitise.{is_alpha_or_hyphen, remove_others, alpha_with_hyphen}

abbrev pub IsAlphaOrHyphen : ℕ → Type 0
IsAlphaOrHyphen c = is_alpha_or_hyphen c ≡ true

abbrev pub IsClean : String → Type 0
IsClean s = All IsAlphaOrHyphen (codes s)

-- How many letters and hyphens a text has.
abbrev pub clean_count : String → ℕ
clean_count String.[] = 0
clean_count (String.◌∷◌ c s) = (if is_alpha_or_hyphen (code c) then 1 else 0) + clean_count s

pub IsClean-remove_others : (s : String) → IsClean (remove_others s)
unfolding remove_others
IsClean-remove_others String.[] = tt
IsClean-remove_others (String.◌∷◌ c s) = elim (Bool-cases (is_alpha_or_hyphen (code c))) [
  | inl e ↦ rw (e, remove_others) (e, IsClean-remove_others s)
  | inr e ↦ rw (e, remove_others) (IsClean-remove_others s)
]

remove_others-of_IsClean : (s : String) → IsClean s → remove_others s ≡ s
unfolding remove_others
remove_others-of_IsClean String.[] h = refl
remove_others-of_IsClean (String.◌∷◌ c s) (e, h) =
    rw (e, remove_others) (ap (λ t. String.◌∷◌ c t) (remove_others-of_IsClean s h))

ascii_width : (c : ℕ) → IsAlphaOrHyphen c → utf8_width c ≡ 1
unfolding utf8_width is_alpha_or_hyphen
ascii_width c h = ground arith

byte_len-remove_others : (s : String) → byte_len (remove_others s) ≡ clean_count s
unfolding remove_others byte_len
byte_len-remove_others String.[] = refl
byte_len-remove_others (String.◌∷◌ c s) = elim (Bool-cases (is_alpha_or_hyphen (code c))) [
  | inl e ↦ rw (e, remove_others) (omega (arith, ascii_width (code c) e, byte_len-remove_others s))
  | inr e ↦ rw (e, remove_others) (omega (arith, byte_len-remove_others s))
]

pub alpha_with_hyphen_lem :
    (s : String)
    → ((alpha_with_hyphen s).1 ≡ none)
      × IsClean (alpha_with_hyphen s).0
      × (byte_len (alpha_with_hyphen s).0 ≡ clean_count s)
      × (alpha_with_hyphen (alpha_with_hyphen s).0 ≡ alpha_with_hyphen s)
unfolding alpha_with_hyphen
alpha_with_hyphen_lem s = (
  refl,
  IsClean-remove_others s,
  byte_len-remove_others s,
  ap (λ t. (t, none)) (remove_others-of_IsClean (remove_others s) (IsClean-remove_others s)),
)
