-- ===== src/Capture/Hits.antt =====
-- What the consumer for the search leaves in the index in Elasticsearch, and what the hits of a search
-- on it are.
use mathlib.Core.List.{Mem, mem-map_of_mem}
use mathlib.Core.Option
use mathlib.Core.Path.{subst}
use go_api_demo.Prelude.{
  suc, ◌<◌, ◌≤◌, String, ◌≡◌, ◌≢◌, ◌==◌, refl, ap, sym, ◌∙◌, Bool, true, false, Option,
  Option-cases, none, some, List, [], ◌∷◌, map, All, length, inl, inr, if◌then◌else◌, last_match,
  eq_iff, arith,
}
use go_api_demo.Error.{Error}
use go_api_demo.Context.{Context}
use go_api_demo.Json.{Json, str, arr, obj, items, end, member, document}
use go_api_demo.Time.JsonText.{TimeText}
use go_api_demo.User.{User}
use go_api_demo.Search.Laws.Http.{found}
use go_api_demo.Consume.{Decoder}
use go_api_demo.Consume.Run.{Event, delivered, hiccup, deal_all}
use go_api_demo.Processor.{Usr, BeforeAfter}
use go_api_demo.Processor.Laws.{user_of}
use go_api_demo.Storage.Memory.Laws.{stored}
use go_api_demo.Storage.Elastic.{Client, SearchRequest, Response}
use go_api_demo.Storage.Elastic.Create.{request}
use go_api_demo.Storage.Elastic.Create.One.{creator}
use go_api_demo.Storage.Elastic.Search.Laws.{KeepsTime, hit}
use go_api_demo.Capture.{Reports}
use go_api_demo.Capture.Index.{IsIndex, HasText, body, create-one, collect-answered}
use go_api_demo.Capture.Laws.{dealt, deal-created, deal_all-delivered}
use go_api_demo.Capture.Scan.{Aligned, Aligned-mem, empty, stored-keyed}

-- A response with hits.
abbrev pub response : Json → Json → List Json → Response
response took count hits = record {
  status_code = 200;
  is_error = false;
  body = document (
      obj (
        member "took" took
          (member "hits" (obj (member "total" count (member "hits" (arr (items hits)) end))) end)));
}

-- A hit of Elasticsearch on a document.
abbrev pub hit_of : String × Json → Json
hit_of (id, d) =
    obj (member "_index" (str "users") (member "_id" (str id) (member "_source" d end)))

-- What is documented of searches that set no size. A search sees what was indexed when the index was
-- last refreshed, which Elasticsearch does by itself at an interval: `refresh`. The first document
-- that is indexed makes the index. After a refresh, and where there is a document, a search answers
-- with documents that match the query, ten of them at most, and with all of them where there are
-- fewer.
pub record Finds {E : Type 0} (client : Client E) (index : IsIndex client) : Type 0 where
  pub matches : String → Json → Bool
  pub refresh : E → E
  pub finds :
      (ctx : Context) (q : SearchRequest) (s : E) (one : String) (doc : Json)
      → index.documents s one ≡ some doc
      → (took : Json) × (count : Json) × (found : List (String × Json)) × (client.search ctx q
            (refresh s)
          ≡ (inl (response took count (map hit_of found)), refresh s))
        × All (λ p. (index.documents s p.0 ≡ some p.1) × (matches q.query p.1 ≡ true)) found
        × (length found ≤ 10)
        × (length found < 10
            → (id : String) (d : Json) → index.documents s id ≡ some d
            → matches q.query d ≡ true
            → Mem (id, d) found)

last-All :
    (Q : User → Type 0) (us : List User) (id : String) (u : User)
    → All Q us
    → last_match (λ (v : User). v.id == id) us ≡ some u
    → Q u
last-All Q [] id u all e = absurd cc
last-All Q (v ∷ us) id u all e = elim (Option-cases (last_match (λ (w : User). w.id == id) us)) [
  | inr (w, f) ↦ last-All Q us id u all.1 (ground arith)
  | inl f ↦ (let same : v ≡ u = ground arith in subst Q same all.0)
]

stored-All :
    (Q : User → Type 0) (us : List User) (id : String) (u : User)
    → All Q us
    → stored us empty id ≡ some u
    → Q u
stored-All Q us id u all e = elim (Option-cases (last_match (λ (v : User). v.id == id) us)) [
  | inr (w, f) ↦ last-All Q us id u all (ground arith)
  | inl f ↦ absurd (ground arith)
]

-- Where there is a user, there is one that is the last with its id.
pub stored-some :
    (us : List User) → us ≢ [] → (id : String) × (u : User) × (stored us empty id ≡ some u)
stored-some [] h = absurd (h refl)
stored-some (u ∷ us) h = elim (Option-cases (last_match (λ (v : User). v.id == u.id) us)) [
  | inr (w, e) ↦ (u.id, w, ground arith)
  | inl e ↦ (u.id, u, ground (arith, eq_iff u.id u.id))
]

module _ (times : TimeText) {E : Type 0} (client : Client E) (index : IsIndex client) where
  abbrev pub Indexed : User → Type 0
  Indexed u = HasText times client u × KeepsTime times u

  abbrev pub document_of : User → Json
  document_of u = body times client u

  abbrev pub latest : List User → (Option Json) → String → Option Json
  latest us o id = elim (last_match (λ (v : User). v.id == id) us) [
    | none ↦ o
    | some u ↦ some (document_of u)
  ]

  latest-cons :
      (u : User) (us : List User) (before : String → Option Json) (id : String)
      → latest us (if u.id == id then some (document_of u) else before id) id
        ≡ latest (u ∷ us) (before id) id
  latest-cons u us before id = ground arith

  -- Each document is that of the last user with its id.
  pub dealt-documents :
      {Data : Type 0} (decode : Data → BeforeAfter × Option Error) (decoder : Decoder Data)
      (ctx : Context) (es : List Event) (rows : List Usr) (s : E)
      → Reports decode decoder (creator client times) es rows
      → All (λ row. Indexed (user_of row)) rows
      → (id : String)
      → index.documents (dealt decode decoder (creator client times) ctx es s).1 id
        ≡ latest (map user_of rows) (index.documents s id) id
  unfolding deal_all
  dealt-documents decode decoder ctx [] [] s h can id = refl
  dealt-documents decode decoder ctx [] (row ∷ rows) s h can id = absurd h
  dealt-documents decode decoder ctx (hiccup e ∷ es) rows s h can id =
      dealt-documents decode decoder ctx es rows s h can id
  dealt-documents decode decoder ctx (delivered m ∷ es) [] s h can id = absurd h
  dealt-documents decode decoder ctx (delivered m ∷ es) (row ∷ rows) s h can id =
      let u = user_of row in
      let q = request u.id (document_of u) in
      let t = (client.index ctx q s).1 in
      let (resp, e) = index.answers ctx q s in
      let created =
        create-one times client ctx u s can.0.0
        ∙ ap (λ o. (o, t)) (collect-answered times client (client.index ctx q s).0 resp e) in
      let step =
        deal_all-delivered decode decoder (creator client times) ctx m es s t
          (deal-created decode decoder (creator client times) ctx m row s t h.0 created) in
      ap (λ r. index.documents r.1 id) step
      ∙ dealt-documents decode decoder ctx es rows t h.1 can.1 id
      ∙ ap (λ o. latest (map user_of rows) o id) (index.puts ctx q s id)
      ∙ latest-cons u (map user_of rows) (index.documents s) id

  option-mapped :
      (o : Option User)
      → (elim o [ none ↦ none | some u ↦ some (document_of u) ])
        ≡ Option.map document_of (elim o [ none ↦ none | some u ↦ some u ])
  option-mapped none = refl
  option-mapped (some u) = refl

  pub latest-stored :
      (us : List User) (id : String)
      → latest us none id ≡ Option.map document_of (stored us empty id)
  latest-stored us id = option-mapped (last_match (λ (v : User). v.id == id) us)

  mapped-some :
      (o : Option User) (d : Json)
      → Option.map document_of o ≡ some d
      → (u : User) × (o ≡ some u) × (d ≡ document_of u)
  mapped-some none d e = absurd cc
  mapped-some (some u) d e = (u, refl, cc)

  module _ (us : List User) (can : All Indexed us) (documents : String → Option Json)
      (holds : (id : String) → documents id ≡ Option.map document_of (stored us empty id))
      (matches : Json → Bool) where
    abbrev pub IsHit : String × Json → Type 0
    IsHit p = (documents p.0 ≡ some p.1) × (matches p.1 ≡ true)

    abbrev pub IsFound : User → Type 0
    IsFound u = (stored us empty u.id ≡ some u) × (matches (document_of u) ≡ true)

    -- The hits are those of users.
    abbrev pub Chosen : List (String × Json) → Type 0
    Chosen found =
        (vs : List User) × (map hit_of found ≡ map (hit times) vs)
        × Aligned (stored us empty) (map (λ p. p.0) found) vs
        × All IsFound vs
        × All (KeepsTime times) vs
        × (length found ≡ length vs)

    pub choose : (found : List (String × Json)) → All IsHit found → Chosen found
    choose [] h = ([], refl, refl, tt, tt, refl)
    choose ((id, d) ∷ found) h =
        let (vs, hits, aligned, are, keep, count) = choose found h.1 in
        let (u, is, doc) = mapped-some (stored us empty id) d (sym (holds id) ∙ h.0.0) in
        let key = stored-keyed us id u is in
        (
          u ∷ vs,
          ap (λ (p : String × Json). hit_of p ∷ map hit_of found) (ap (λ k. (k, d)) (sym key))
              ∙ ap (λ x. hit_of (u.id, x) ∷ map hit_of found) doc
              ∙ ap (λ l. hit times u ∷ l) hits,
          ap (λ o. o ∷ map (stored us empty) (map (λ p. p.0) found)) is
              ∙ ap (λ l. some u ∷ l) aligned,
          ((ap (stored us empty) key ∙ is, ap matches (sym doc) ∙ h.0.1), are),
          ((stored-All Indexed us id u can is).1, keep),
          ap suc count,
        )

    -- A user that matches is chosen if its document is among the hits.
    pub chosen-mem :
        (found : List (String × Json)) (vs : List User)
        → Aligned (stored us empty) (map (λ p. p.0) found) vs
        → ((id : String) (d : Json) → documents id ≡ some d → matches d ≡ true → Mem (id, d) found)
        → (u : User) → IsFound u
        → Mem u vs
    chosen-mem found vs aligned complete u (is, fits) =
        Aligned-mem (stored us empty) (map (λ p. p.0) found) vs aligned u.id u
          (mem-map_of_mem (λ (p : String × Json). p.0)
            (complete u.id (document_of u) (holds u.id ∙ ap (Option.map document_of) is) fits))
          is
