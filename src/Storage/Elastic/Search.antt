-- ===== src/Storage/Elastic/Search.antt =====
-- `Search` of internal/storage/elastic/user.go, with the structs that responses are decoded into.
pub mod Laws
pub mod Errors
use go_api_demo.Prelude.{
  String, ◌<>◌, Option, none, some, List, [], ◌∷◌, ◌⊎◌, inl, inr, map, if◌then◌else◌,
}
use go_api_demo.Prelude.State.{State}
use go_api_demo.Error.{Error, made, message}
use go_api_demo.Context.{Context}
use go_api_demo.Int.{ℤ, pos, show}
use go_api_demo.Json.{Json, is_field}
use go_api_demo.Json.Decode.{Fault, Decoder, text, int, time, struct, slice, decode_document}
use go_api_demo.Time.{Time, zero_time}
use go_api_demo.Time.JsonText.{TimeText}
use go_api_demo.User.{User, Searcher}
use go_api_demo.Storage.Elastic.{SearchRequest, Response, Client, usrs}

-- The types `rootCause`, `err` and `e` of an error response.
pub record RootCause : Type 0 where
  pub type : String
  pub reason : String

pub record Err : Type 0 where
  pub root_cause : List RootCause

pub record ErrorBody : Type 0 where
  pub err : Err
  pub status : ℤ

-- The types `u`, `s`, `hh` and `h` of a response with hits.
pub record Source : Type 0 where
  pub created_at : Time
  pub id : String
  pub first_name : String
  pub last_name : String

pub record Hit : Type 0 where
  pub source : Source

pub record HitsHits : Type 0 where
  pub hits_hits : List Hit

pub record Hits : Type 0 where
  pub hits : HitsHits

abbrev pub no_source : Source
no_source = record { created_at = zero_time; id = ""; first_name = ""; last_name = "" }

-- A decoded field, put in its place.
abbrev put : {A B : Type 0} → (B → A) → B × Fault → Option (A × Fault)
put set (b, f) = some (set b, f)

unfoldable pub root_cause_field : String → Json → RootCause → Option (RootCause × Fault)
root_cause_field k v a =
    if is_field "type" k
    then put (λ s. record a { type = s }) (text v a.type)
    else if is_field "reason" k
    then put (λ s. record a { reason = s }) (text v a.reason)
    else none

unfoldable pub err_field : String → Json → Err → Option (Err × Fault)
unfolding root_cause_field
err_field k v a =
    if is_field "root_cause" k
    then put (λ l. record { root_cause = l })
        (slice (struct root_cause_field) (record { type = ""; reason = "" }) v a.root_cause)
    else none

unfoldable pub error_body_field : String → Json → ErrorBody → Option (ErrorBody × Fault)
unfolding err_field
error_body_field k v a =
    if is_field "error" k
    then put (λ x. record a { err = x }) (struct err_field v a.err)
    else if is_field "status" k
    then put (λ n. record a { status = n }) (int v a.status)
    else none

module _ (times : TimeText) where
  unfoldable pub source_field : String → Json → Source → Option (Source × Fault)
  source_field k v a =
      if is_field "created_at" k
      then put (λ t. record a { created_at = t }) (time times v a.created_at)
      else if is_field "id" k
      then put (λ s. record a { id = s }) (text v a.id)
      else if is_field "first_name" k
      then put (λ s. record a { first_name = s }) (text v a.first_name)
      else if is_field "last_name" k
      then put (λ s. record a { last_name = s }) (text v a.last_name)
      else none

  unfoldable pub hit_field : String → Json → Hit → Option (Hit × Fault)
  unfolding source_field
  hit_field k v a =
      if is_field "_source" k
      then put (λ s. record { source = s }) (struct source_field v a.source)
      else none

  unfoldable pub hits_hits_field : String → Json → HitsHits → Option (HitsHits × Fault)
  unfolding hit_field
  hits_hits_field k v a =
      if is_field "hits" k
      then put (λ l. record { hits_hits = l })
          (slice (struct hit_field) (record { source = no_source }) v a.hits_hits)
      else none

  unfoldable pub hits_field : String → Json → Hits → Option (Hits × Fault)
  unfolding hits_hits_field
  hits_field k v a =
      if is_field "hits" k
      then put (λ x. record { hits = x }) (struct hits_hits_field v a.hits)
      else none

  -- The loop over the hits.
  unfoldable pub users_of : List Hit → List User
  users_of [] = []
  users_of (v ∷ hits) =
      record {
        created_at = v.source.created_at;
        id = v.source.id;
        first_name = v.source.first_name;
        last_name = v.source.last_name;
      }
      ∷ users_of hits

  -- The error of a response that is an error.
  unfoldable pub response_error : Response → Error
  unfolding error_body_field
  response_error resp =
      let (e, err) =
        decode_document (struct error_body_field) resp.body
          (record { err = record { root_cause = [] }; status = pos 0 }) in
      elim err [
        | some d ↦ made (message d)
        | none ↦
            let status = "status: " <> show e.status in
            elim e.err.root_cause [
              | [] ↦ made status
              | c ∷ causes ↦ made (status <> ", type: " <> c.type <> ", reason: " <> c.reason)
            ]
      ]

  -- On from the decoding of a response that is no error.
  abbrev pub decoded : Hits × Option Error → List User × Option Error
  decoded (h, some e) = ([], some (made (message e)))
  decoded (h, none) = (users_of h.hits.hits_hits, none)

  abbrev pub no_hits : Hits
  no_hits = record { hits = record { hits_hits = [] } }

  unfoldable pub found_users : Response → List User × Option Error
  unfolding response_error hits_field users_of
  found_users resp =
      if resp.is_error
      then ([], some (response_error resp))
      else decoded (decode_document (struct hits_field) resp.body no_hits)

  -- On from the request.
  abbrev pub answered : {E : Type 0} → (Response ⊎ Error) × E → (List User × Option Error) × E
  answered (inr e, s) = (([], some (made (message e))), s)
  answered (inl resp, s) = (found_users resp, s)

  module _ {E : Type 0} (client : Client E) where
    unfoldable pub search : Context → String → State E (List User × Option Error)
    unfolding found_users
    search ctx search_term s = answered (
        client.search ctx
          (record {
            index = usrs ∷ [];
            docvalue_fields = "first_name.keyword" ∷ "last_name.keyword" ∷ [];
            query = "*" <> search_term <> "*";
          })
          s)

    abbrev pub searcher : Searcher E
    searcher = record { search = search }
