-- ===== src/Storage/Elastic/Search/Errors.antt =====
-- When `Search` of internal/storage/elastic/user.go returns an error.
use go_api_demo.Prelude.{
  String, ◌≡◌, refl, ap, ◌∙◌, Bool, Bool-cases, false, Option, Option-cases, none, some, List, [],
  ◌∷◌, map, ◌<>◌, ◌⊎◌, inl, inr, if◌then◌else◌,
}
use go_api_demo.Error.{Error, made, message}
use go_api_demo.Context.{Context}
use go_api_demo.Json.Decode.{struct, decode_document}
use go_api_demo.Time.JsonText.{TimeText}
use go_api_demo.User.{User}
use go_api_demo.Storage.Elastic.{Response, Client, usrs}
use go_api_demo.Storage.Elastic.Search.{
  Hit, Hits, users_of, no_hits, hits_field, decoded, response_error, found_users, answered, search,
}

module _ (times : TimeText) where
  -- The error of decoding the body as hits.
  abbrev pub hits_error : Response → Option Error
  hits_error resp = (decode_document (struct (hits_field times)) resp.body (no_hits times)).1

  -- The response is no error and its body decodes.
  abbrev pub IsAccepted : Response → Type 0
  IsAccepted resp = (resp.is_error ≡ false) × (hits_error resp ≡ none)

  -- The hits that the body decodes to.
  abbrev pub hits_of : Response → List Hit
  hits_of resp =
      (decode_document (struct (hits_field times)) resp.body (no_hits times)).0.hits.hits_hits

  -- The user of a hit.
  abbrev pub user_of : Hit → User
  user_of v = record {
    created_at = v.source.created_at;
    id = v.source.id;
    first_name = v.source.first_name;
    last_name = v.source.last_name;
  }

  users_of-map : (hits : List Hit) → users_of times hits ≡ map user_of hits
  unfolding users_of
  users_of-map [] = refl
  users_of-map (v ∷ hits) = ap (λ l. user_of v ∷ l) (users_of-map hits)

  -- The users of all hits without an error for a response that is accepted, and an error without users for another.
  abbrev pub Judged : Response → List User × Option Error → Type 0
  Judged resp result =
      (IsAccepted resp × (result ≡ (map user_of (hits_of resp), none)))
      ⊎ ((¬ IsAccepted resp) × ((e : Error) × (result ≡ ([], some e))))

  found_users-Judged : (resp : Response) → Judged resp (found_users times resp)
  unfolding found_users
  found_users-Judged resp =
      let hits : Hits = (decode_document (struct (hits_field times)) resp.body (no_hits times)).0 in
      let judge : Bool → List User × Option Error = λ b.
        if b
        then ([], some (response_error times resp))
        else decoded times
            (decode_document (struct (hits_field times)) resp.body (no_hits times)) in
      elim (Bool-cases resp.is_error) [
        | inl bad ↦ inr (λ ok. cc, (_, ap judge bad))
        | inr fine ↦ elim (Option-cases (hits_error resp)) [
          | inr (e, failed) ↦
              inr (λ ok. cc, (_, ap judge fine ∙ ap (λ o. decoded times (hits, o)) failed))
          | inl decodes ↦ inl (
            (fine, decodes),
            ap judge fine
                ∙ ap (λ o. decoded times (hits, o)) decodes
                ∙ ap (λ l. (l, none)) (users_of-map hits.hits.hits_hits),
          )
        ]
      ]

  answered_lem :
      {E : Type 0} (r : (Response ⊎ Error) × E)
      → ((answered times r).1 ≡ r.1)
        × (((resp : Response) × (r.0 ≡ inl resp) × Judged resp (answered times r).0)
            ⊎ ((e : Error) × (r.0 ≡ inr e)
                × ((answered times r).0 ≡ ([], some (made (message e))))))
  answered_lem (inl resp, s) = (refl, inl (resp, refl, found_users-Judged resp))
  answered_lem (inr e, s) = (refl, inr (e, refl, refl))

  module _ {E : Type 0} (client : Client E) (ctx : Context) (term : String) (s : E) where
    -- The one request for the term.
    abbrev pub asked : (Response ⊎ Error) × E
    asked =
        client.search ctx
          (record {
            index = usrs ∷ [];
            docvalue_fields = "first_name.keyword" ∷ "last_name.keyword" ∷ [];
            query = "*" <> term <> "*";
          })
          s

    -- A search sends one request, for the term between two asterisks, and changes nothing else. It
    -- returns the users of all hits, in order, and no error if there is a response, which is no error
    -- and whose body decodes; and in every other case it returns an error and no users: with the text of the transport's
    -- error where there is no response.
    pub elastic_search_lem :
        ((search times client ctx term s).1 ≡ asked.1)
        × (((resp : Response) × (asked.0 ≡ inl resp)
              × Judged resp (search times client ctx term s).0)
            ⊎ ((e : Error) × (asked.0 ≡ inr e)
                × ((search times client ctx term s).0 ≡ ([], some (made (message e))))))
    unfolding search
    elastic_search_lem = answered_lem asked
