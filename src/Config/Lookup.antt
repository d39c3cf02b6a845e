-- ===== src/Config/Lookup.antt =====
-- internal/config/config.go: the functions that read one variable. `Strconv` is what they take from
-- outside: `strconv.Quote`, which shows in the text of a panic, and `time.ParseDuration`.
use Prim.Native.Char.{code}
use go_api_demo.Prelude.{
  ℕ, zero, suc, ◌-◌, String, ◌<>◌, Bool, true, false, ◌&&◌, ◌||◌, Option, none, some, List, [], ◌∷◌,
  inl, inr, nat_eq, if◌then◌else◌, ◌==◌, rune_count,
}
use go_api_demo.Error.{Error, message, Outcome, returned, panicked}
use go_api_demo.Int.{ℤ}
use go_api_demo.Int.Atoi.{NumError, syntax, range, atoi}

abbrev pub Env : Type 0
Env = String → Option String

pub record Strconv : Type 0 where
  pub quote : String → String
  pub parse_duration : String → ℤ × Option Error

-- strconv.ParseBool
unfoldable pub parse_bool : String → Option Bool
parse_bool s =
    if s == "1" || s == "t" || s == "T" || s == "true" || s == "TRUE" || s == "True"
    then some true
    else if s == "0" || s == "f" || s == "F" || s == "false" || s == "FALSE" || s == "False"
    then some false
    else none

has_prefix : String → String → Bool
has_prefix String.[] s = true
has_prefix (String.◌∷◌ b p) String.[] = false
has_prefix (String.◌∷◌ b p) (String.◌∷◌ c s) = nat_eq (code b) (code c) && has_prefix p s

-- The first part and the others; `skip` characters still belong to a separator.
parts : String → ℕ → String → String × List String
parts sep skip String.[] = ("", [])
parts sep (suc skip) (String.◌∷◌ c s) = parts sep skip s
parts sep zero (String.◌∷◌ c s) =
    let hit = has_prefix sep (String.◌∷◌ c s) in
    let (first, others) = parts sep (if hit then rune_count sep - 1 else 0) s in
    if hit then ("", first ∷ others) else (String.◌∷◌ c first, others)

characters : String → List String
characters String.[] = []
characters (String.◌∷◌ c s) = String.◌∷◌ c "" ∷ characters s

-- strings.Split
unfoldable pub split : String → String → List String
unfolding has_prefix parts characters
split s String.[] = characters s
split s (String.◌∷◌ b sep) = let (first, others) = parts (String.◌∷◌ b sep) 0 s in first ∷ others

num_error : Strconv → String → String → NumError → String
num_error conv func s syntax =
    "strconv." <> func <> ": parsing " <> conv.quote s <> ": invalid syntax"
num_error conv func s range =
    "strconv." <> func <> ": parsing " <> conv.quote s <> ": value out of range"

unfoldable pub get_env_as_string : Env → String → String → String
get_env_as_string env key default_val = elim (env key) [ some val ↦ val | none ↦ default_val ]

unfoldable pub get_env_as_slice_of_strings : Env → String → String → List String → List String
get_env_as_slice_of_strings env key separator default_val = elim (env key) [
  | some val ↦ split val separator
  | none ↦ default_val
]

module _ (conv : Strconv) where
  unfoldable pub get_env_as_int : Env → String → ℤ → Outcome ℤ
  unfolding num_error
  get_env_as_int env key default_val = elim (env key) [
    | none ↦ returned default_val
    | some val ↦ elim (atoi val) [
      | inr err ↦ panicked (num_error conv "Atoi" val err)
      | inl int_val ↦ returned int_val
    ]
  ]

  unfoldable pub get_env_as_bool : Env → String → Bool → Outcome Bool
  unfolding num_error
  get_env_as_bool env key default_val = elim (env key) [
    | none ↦ returned default_val
    | some val ↦ elim (parse_bool val) [
      | none ↦ panicked (num_error conv "ParseBool" val syntax)
      | some bool_val ↦ returned bool_val
    ]
  ]

  unfoldable pub get_env_as_duration : Env → String → ℤ → Outcome ℤ
  get_env_as_duration env key default_val = elim (env key) [
    | none ↦ returned default_val
    | some val ↦
        let (d, err) = conv.parse_duration val in
        elim err [ some e ↦ panicked (message e) | none ↦ returned d ]
  ]
