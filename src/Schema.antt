-- ===== src/Schema.antt =====
-- internal/schema/schema.go: the client of the schema registry, with its cache of codecs, and the
-- decoder of messages. The HTTP client and the Avro library are third-party code: `Registry` is what
-- the code calls of them. `fetch` is the request with its response's body as a document. The cache
-- is a map that the code locks only to write it; one call is one step here.
pub mod Laws
pub mod Consuming
use go_api_demo.Prelude.{
  ℕ, String, ◌<>◌, Bool, true, false, Option, none, some, List, [], ◌∷◌, ◌⊎◌, inl, inr, digits,
  if◌then◌else◌,
}
use go_api_demo.Prelude.Dict.{Dict, lookup, insert}
use go_api_demo.Prelude.State.{State}
use go_api_demo.Error.{Error, wrapped, Outcome, returned, panicked}
use go_api_demo.Json.{
  Json, null, bool, str, obj, Members, end, member, Document, document, broken, is_field,
  type_error,
}
use go_api_demo.Prelude.{length, drop, ltb}

pub record Registry (H Codec Data : Type 0) : Type 0 where
  pub new_request : String → Option Error
  pub fetch : String → State H (Document × Option Error)
  pub new_codec : String → Codec ⊎ Error
  pub native_from_binary : Codec → List ℕ → Data × Option Error
  -- `nil` as decoded data, and `%v` of a number, an array or an object
  pub no_data : Data
  pub show_value : Json → String

-- schemaClient: the HTTP client's state and the codecs.
pub record Client (H Codec : Type 0) : Type 0 where
  pub http : H
  pub codecs : Dict Codec

-- The field `Schema interface{}`: the last member of that name.
schema_member : Members → Json → Json
schema_member end found = found
schema_member (member key v rest) found =
    schema_member rest (if is_field "schema" key then v else found)

unfoldable pub decode_schema : Document → Json ⊎ Error
unfolding schema_member
decode_schema (broken e) = inr e
decode_schema (document null) = inl null
decode_schema (document (obj ms)) = inl (schema_member ms null)
decode_schema (document _) = inr type_error

module _ {H Codec Data : Type 0} (registry : Registry H Codec Data) where
  -- fmt.Sprintf("%v", s.Schema)
  unfoldable pub show_schema : Json → String
  show_schema null = "<nil>"
  show_schema (bool true) = "true"
  show_schema (bool false) = "false"
  show_schema (str s) = s
  show_schema v = registry.show_value v

  -- From the response on: its codec, and the cache with it.
  unfoldable pub keep_codec : String → Document → State (Client H Codec) (Codec ⊎ Error)
  unfolding decode_schema show_schema
  keep_codec endpoint body c = elim (decode_schema body) [
    | inr e ↦ (inr (wrapped "decoding response from schema registry error" e), c)
    | inl schema ↦ elim (registry.new_codec (show_schema schema)) [
      | inr e ↦ (inr (wrapped "new codec error" e), c)
      | inl codec ↦ (inl codec, record c { codecs = insert endpoint codec c.codecs })
    ]
  ]

  unfoldable pub get_schema_codec : String → State (Client H Codec) (Codec ⊎ Error)
  unfolding keep_codec
  get_schema_codec endpoint c = elim (lookup endpoint c.codecs) [
    | some codec ↦ (inl codec, c)
    | none ↦ elim (registry.new_request endpoint) [
      | some e ↦ (inr (wrapped "new request error" e), c)
      | none ↦
          let ((body, err), h) = registry.fetch endpoint c.http in
          elim err [
            | some e ↦ (inr (wrapped "schema registry request error" e), record c { http = h })
            | none ↦ keep_codec endpoint body (record c { http = h })
          ]
    ]
  ]

  -- NewClient; the codec is the decoder.
  abbrev pub new_client : H → Client H Codec
  new_client h = record { http = h; codecs = [] }

  unfoldable pub get_decoder : String → State (Client H Codec) (Codec ⊎ Error)
  unfolding get_schema_codec
  get_decoder endpoint c = get_schema_codec endpoint c

  unfoldable pub decode : Codec → List ℕ → Outcome (Data × Option Error)
  decode codec msg =
      if ltb (length msg) 5
      then panicked ("runtime error: slice bounds out of range [5:" <> digits (length msg) <> "]")
      else (let (n_msg, err) = registry.native_from_binary codec (drop 5 msg) in
          elim err [
            | some e ↦ returned (registry.no_data, some (wrapped "could not decode msg" e))
            | none ↦ returned (n_msg, none)
          ])
