-- ===== src/Json.antt =====
-- encoding/json, as far as the code uses it: documents as trees. `Document` is what
-- `json.NewDecoder(r).Decode` finds at the start of a stream: a first value, or an error of reading
-- or of syntax. Text and numbers are left as the library hands them to the struct decoder.
pub mod Decode
use go_api_demo.Prelude.{
  ℕ, ◌+◌, String, codes, Bool, ◌&&◌, Option, none, some, List, [], ◌∷◌, map, leb, nat_eq,
  if◌then◌else◌,
}
use go_api_demo.Error.{Error, foreign}
use mathlib.Core.Bool.{true, false}

mutual
  pub data Json : Type 0 where
    null : Json
    bool : Bool → Json
    num : String → Json
    str : String → Json
    arr : Items → Json
    obj : Members → Json

  pub data Items : Type 0 where
    nil : Items
    cons : Json → Items → Items

  pub data Members : Type 0 where
    end : Members
    member : String → Json → Members → Members

pub data Document : Type 0 where
  document : Json → Document
  broken : Error → Document

-- A list of values, as an array.
unfoldable pub items : List Json → Items
items [] = nil
items (v ∷ vs) = cons v (items vs)

-- Keys are compared without regard to case. Two characters outside ASCII fold into it.
fold_code : ℕ → ℕ
fold_code c =
    if leb b'A' c && leb c b'Z'
    then c + 32
    else if nat_eq c 383
    then b's'
    else if nat_eq c 8490
    then b'k'
    else c

abbrev codes_eq : List ℕ → List ℕ → Bool
codes_eq [] [] = true
codes_eq (a ∷ as') (b ∷ bs) = nat_eq a b && codes_eq as' bs
codes_eq _ _ = false

-- Whether a member with this key is decoded into the field of this name.
unfoldable pub is_field : String → String → Bool
unfolding fold_code
is_field name key = codes_eq (map fold_code (codes key)) (map fold_code (codes name))

abbrev pub type_error : Error
type_error = foreign "json: cannot unmarshal value into Go value" false

-- A value decoded into a field that is a string: `null` leaves the field as it is, and a value of
-- another kind leaves it too, with an error.
unfoldable pub decode_text : Json → String → String × Option Error
decode_text null old = (old, none)
decode_text (str s) old = (s, none)
decode_text _ old = (old, some type_error)

-- Only the first error of a kind mismatch is kept; decoding goes on.
abbrev pub first_error : Option Error → Option Error → Option Error
first_error none e = e
first_error (some d) e = some d
