-- ===== src/Storage/Elastic/Search/Laws.antt =====
-- On `Search` of internal/storage/elastic/user.go.
use go_api_demo.Prelude.{
  ℕ, String, ◌≡◌, refl, ap, ◌∙◌, false, Option, none, some, List, [], ◌∷◌, inl, inr, map, All,
}
use go_api_demo.Error.{Error, made, message}
use go_api_demo.Json.{
  Json, str, arr, obj, items, Members, end, member, Document, document, is_field,
}
use go_api_demo.Json.Decode.{
  Fault, clean, fatal, error_of, after_member, after_element, text, time, members, struct, elements,
  slice, decode_document,
}
use go_api_demo.Time.{Time}
use go_api_demo.Time.JsonText.{TimeText, decode_time}
use go_api_demo.User.{User}
use go_api_demo.Storage.Elastic.{source, elastic_user}
use go_api_demo.Storage.Elastic.Search.{
  Source, Hit, HitsHits, Hits, no_source, source_field, hit_field, hits_hits_field, hits_field,
  users_of, found_users,
}

module _ (times : TimeText) where
  abbrev pub text_of : User → String
  text_of u = elim (times.to_text u.created_at) [ inl s ↦ s | inr e ↦ "" ]

  -- The text that the user's time is indexed with reads back as the time.
  abbrev pub KeepsTime : User → Type 0
  KeepsTime u = times.of_text (text_of u) ≡ (u.created_at, none)

  -- What Elasticsearch has for a user that was indexed, as a hit.
  abbrev pub hit : User → Json
  hit u = obj (
      member "_index" (str "users")
        (member "_id" (str u.id) (member "_source" (source (text_of u) (elastic_user u)) end)))

  abbrev pub hits_document : Json → Json → List User → Document
  hits_document took count us = document (
      obj (
        member "took" took (
          member "hits" (obj (member "total" count (member "hits" (arr (items (map hit us))) end)))
            end)))

  abbrev pub of_user : User → Hit
  of_user u = record {
    source = record {
      created_at = u.created_at;
      id = u.id;
      first_name = u.first_name;
      last_name = u.last_name;
    };
  }

  time-kept :
      (u : User) (t : Time) → KeepsTime u → time times (str (text_of u)) t ≡ (u.created_at, clean)
  unfolding time decode_time
  time-kept u t keeps =
      ap (λ (r : Time × Option Error). (r.0, elim r.1 [ none ↦ clean | some e ↦ fatal e ])) keeps

  abbrev rest_of : User → Members
  rest_of u = member "id" (str u.id) (
      member "full_name" (str (elastic_user u).full_name)
        (member "first_name" (str u.first_name) (member "last_name" (str u.last_name) end)))

  pub decode_source :
      (u : User)
      → KeepsTime u
      → struct (source_field times) (source (text_of u) (elastic_user u)) no_source
        ≡ ((of_user u).source, clean)
  unfolding struct members source_field is_field text elastic_user
  decode_source u keeps =
      ap
        (λ (r : Time × Fault).
          after_member (members (source_field times) (rest_of u)) no_source
            (some (record no_source { created_at = r.0 }, r.1)))
        (time-kept u no_source.created_at keeps)

  decode_hit :
      (u : User)
      → KeepsTime u
      → struct (hit_field times) (hit u) (record { source = no_source }) ≡ (of_user u, clean)
  unfolding struct members hit_field is_field
  decode_hit u keeps =
      ap
        (λ (r : Source × Fault).
          after_member (members (hit_field times) end) (record { source = no_source })
            (some (record { source = r.0 }, r.1)))
        (decode_source u keeps)

  decode_hits :
      (us : List User)
      → All KeepsTime us
      → elements (struct (hit_field times)) (record { source = no_source }) (items (map hit us)) []
        ≡ (map of_user us, clean)
  unfolding elements items
  decode_hits [] keeps = refl
  decode_hits (u ∷ us) keeps =
      ap
        (λ r. after_element [] r (
          elements (struct (hit_field times)) (record { source = no_source }) (items (map hit us))
            []))
        (decode_hit u keeps.0)
      ∙ ap (λ r. after_element [] (of_user u, clean) r) (decode_hits us keeps.1)

  users_of-of_user : (us : List User) → users_of times (map of_user us) ≡ us
  unfolding users_of
  users_of-of_user [] = refl
  users_of-of_user (u ∷ us) = ap (λ l. u ∷ l) (users_of-of_user us)

  abbrev no_hits : Hits
  no_hits = record { hits = record { hits_hits = [] } }

  abbrev put_hits : HitsHits × Fault → Option (Hits × Fault)
  put_hits (x, f) = some (record { hits = x }, f)

  abbrev finished : Hits × Fault → Hits × Option Error
  finished (h, f) = (h, error_of f)

  abbrev answered : Hits × Option Error → List User × Option Error
  answered (h, err) = elim err [
    | some e ↦ ([], some (made (message e)))
    | none ↦ (users_of times h.hits.hits_hits, none)
  ]

  decode_hits_document :
      (took count : Json) (us : List User)
      → All KeepsTime us
      → decode_document (struct (hits_field times)) (hits_document took count us) no_hits
        ≡ (record { hits = record { hits_hits = map of_user us } }, none)
  unfolding decode_document struct members hits_field hits_hits_field slice is_field
  decode_hits_document took count us keeps =
      ap
        (λ (r : List Hit × Fault). finished (
          after_member (members (hits_field times) end) no_hits (
            put_hits (
              after_member (members (hits_hits_field times) end) no_hits.hits
                (some (record { hits_hits = r.0 }, r.1))))))
        (decode_hits us keeps)

  -- A response that is no error and whose hits are indexed users, whose times keep their value in
  -- JSON, gives exactly these users, in order and without an error, whatever else it holds.
  pub found_users-hits :
      (took count : Json) (us : List User) (status : ℕ)
      → All KeepsTime us
      → found_users times
          (record { status_code = status; is_error = false; body = hits_document took count us })
        ≡ (us, none)
  unfolding found_users
  found_users-hits took count us status keeps =
      ap (λ (r : Hits × Option Error). answered r) (decode_hits_document took count us keeps)
      ∙ ap (λ l. (l, none)) (users_of-of_user us)
