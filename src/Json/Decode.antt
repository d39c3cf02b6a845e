-- ===== src/Json/Decode.antt =====
-- encoding/json's decoding of a value into a Go value that is there already. A value of the wrong
-- kind leaves the target as it is and leaves an error, of which the first is returned at the end; an
-- error of a type's own UnmarshalJSON ends the decoding at once.
use go_api_demo.Prelude.{String, Option, none, some, List, [], ◌∷◌, inl, inr}
use go_api_demo.Error.{Error}
use go_api_demo.Int.{ℤ}
use go_api_demo.Int.Atoi.{atoi}
use go_api_demo.Json.{
  Json, null, num, str, arr, obj, Items, nil, cons, Members, end, member, Document, document,
  broken, type_error,
}
use go_api_demo.Time.{Time}
use go_api_demo.Time.JsonText.{TimeText, decode_time}

pub data Fault : Type 0 where
  clean : Fault
  saved fatal : Error → Fault

-- The fault of a decoding that goes on after the first fault.
abbrev pub then_fault : Fault → Fault → Fault
then_fault (fatal e) g = fatal e
then_fault clean g = g
then_fault (saved e) (fatal d) = fatal d
then_fault (saved e) g = saved e

abbrev pub error_of : Fault → Option Error
error_of clean = none
error_of (saved e) = some e
error_of (fatal e) = some e

abbrev pub Decoder : Type 0 → Type 0
Decoder A = Json → A → A × Fault

unfoldable pub text : Decoder String
text null old = (old, clean)
text (str s) old = (s, clean)
text _ old = (old, saved type_error)

unfoldable pub int : Decoder ℤ
int null old = (old, clean)
int (num s) old = elim (atoi s) [ inl n ↦ (n, clean) | inr e ↦ (old, saved type_error) ]
int _ old = (old, saved type_error)

unfoldable pub time : TimeText → Decoder Time
time times v old =
    let (t, err) = decode_time times v old in (t, elim err [ none ↦ clean | some e ↦ fatal e ])

module _ {A : Type 0} where
  -- On from the decoding of one member; `none` is a member that the struct has no field for.
  abbrev pub after_member : (A → A × Fault) → A → Option (A × Fault) → A × Fault
  after_member go a none = go a
  after_member go a (some (b, fatal e)) = (b, fatal e)
  after_member go a (some (b, clean)) = go b
  after_member go a (some (b, saved e)) = let (c, f) = go b in (c, then_fault (saved e) f)

  -- `field k v a` decodes the member `k`, where the struct has such a field.
  unfoldable pub members : (String → Json → A → Option (A × Fault)) → Members → A → A × Fault
  members field end a = (a, clean)
  members field (member k v rest) a = after_member (members field rest) a (field k v a)

  unfoldable pub struct : (String → Json → A → Option (A × Fault)) → Decoder A
  unfolding members
  struct field null a = (a, clean)
  struct field (obj ms) a = members field ms a
  struct field _ a = (a, saved type_error)

  -- On from the decoding of one element; `old` is what the slice has after it.
  abbrev pub after_element : List A → A × Fault → List A × Fault → List A × Fault
  after_element old (a, fatal e) rest = (a ∷ old, fatal e)
  after_element old (a, clean) (rest, g) = (a ∷ rest, g)
  after_element old (a, saved e) (rest, g) = (a ∷ rest, then_fault (saved e) g)

  -- The elements that the slice has are decoded into; others start as `zero`.
  unfoldable pub elements : Decoder A → A → Items → List A → List A × Fault
  elements decode zero nil old = ([], clean)
  elements decode zero (cons v vs) [] =
      after_element [] (decode v zero) (elements decode zero vs [])
  elements decode zero (cons v vs) (o ∷ old) =
      after_element old (decode v o) (elements decode zero vs old)

  unfoldable pub slice : Decoder A → A → Decoder (List A)
  unfolding elements
  slice decode zero null old = ([], clean)
  slice decode zero (arr vs) old = elements decode zero vs old
  slice decode zero _ old = (old, saved type_error)

  -- json.NewDecoder(r).Decode(&a)
  unfoldable pub decode_document : Decoder A → Document → A → A × Option Error
  decode_document decode (broken e) a = (a, some e)
  decode_document decode (document v) a = let (b, f) = decode v a in (b, error_of f)
