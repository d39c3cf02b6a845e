-- ===== src/Capture/Index.antt =====
-- The consumer for the search: internal/consume/consumer.go and internal/user/consume/processor.go
-- over `Create` of internal/storage/elastic/user.go.
use mathlib.Core.Option
use go_api_demo.Prelude.{
  ℕ, ◌<◌, String, ◌≡◌, ◌==◌, refl, ap, ◌∙◌, Bool, true, false, Option, none, some, List, [], ◌∷◌,
  ◌++◌, All, length, inl, ◌⊎◌, if◌then◌else◌,
}
use go_api_demo.Error.{Error, Outcome, returned}
use go_api_demo.Context.{Context}
use go_api_demo.Json.{Json}
use go_api_demo.Json.Decode.{Fault, struct}
use go_api_demo.Time.JsonText.{TimeText}
use go_api_demo.User.{User}
use go_api_demo.Consume.{Message, KafkaReader, Decoder, World}
use go_api_demo.Consume.Run.{Event, delivered, hiccup, IsQueue, deal_all}
use go_api_demo.Consume.Run.Total.{loop, run_lem, span_context}
use go_api_demo.Processor.{Usr, BeforeAfter}
use go_api_demo.Processor.Laws.{user_of}
use go_api_demo.Storage.Elastic.{Client, IndexRequest, Response, elastic_user, marshal, source}
use go_api_demo.Storage.Elastic.Create.{request, start, result_of, collect}
use go_api_demo.Storage.Elastic.Create.One.{create, creator}
use go_api_demo.Storage.Elastic.Search.{Source, no_source, source_field}
use go_api_demo.Storage.Elastic.Search.Laws.{text_of, KeepsTime, decode_source}
use go_api_demo.Capture.{IsUserStore, processor, Reports, messages}
use go_api_demo.Capture.Laws.{dealt, deal-created, Reports-NoPanic, deal_all-delivered}

-- A client that answers, and that keeps each document under its id.
pub record IsIndex {E : Type 0} (client : Client E) : Type 0 where
  pub documents : E → String → Option Json
  pub answers :
      (ctx : Context) (q : IndexRequest) (s : E)
      → (resp : Response) × ((client.index ctx q s).0 ≡ inl resp)
  pub puts :
      (ctx : Context) (q : IndexRequest) (s : E) (id : String)
      → documents (client.index ctx q s).1 id
        ≡ (if q.document_id == id then some q.body else documents s id)

-- A client that answers, with a status, and keeps nothing: as an index that is read-only does.
pub record Refuses {E : Type 0} (client : Client E) : Type 0 where
  pub refuses :
      (ctx : Context) (q : IndexRequest) (s : E)
      → (resp : Response) × (client.index ctx q s ≡ (inl resp, s)) × (resp.is_error ≡ true)

module _ (times : TimeText) {E : Type 0} (client : Client E) where
  -- The time of the user has a text.
  abbrev pub HasText : User → Type 0
  HasText u = times.to_text u.created_at ≡ inl (text_of times u)

  abbrev pub body : User → Json
  body u = source (text_of times u) (elastic_user u)

  marshal-body : (u : User) → HasText u → marshal times (elastic_user u) ≡ inl (body u)
  unfolding marshal elastic_user
  marshal-body u has = rw (has, marshal)

  pub create-one :
      (ctx : Context) (u : User) (s : E)
      → HasText u
      → create client times ctx (u ∷ []) s ≡ (
        collect (result_of (client.index ctx (request u.id (body u)) s).0 ∷ []) none,
        (client.index ctx (request u.id (body u)) s).1,
      )
  unfolding create start
  create-one ctx u s has = rw (marshal-body u has, create, start) refl

  pub collect-answered :
      (r : Response ⊎ Error) (resp : Response)
      → r ≡ inl resp
      → collect (result_of r ∷ []) none ≡ none
  unfolding collect
  collect-answered r resp e = ap (λ o. collect (result_of o ∷ []) none) e

  -- The user of a document.
  abbrev indexed_user : Json → User
  indexed_user d =
      let v = (struct (source_field times) d no_source).0 in
      record {
        created_at = v.created_at;
        id = v.id;
        first_name = v.first_name;
        last_name = v.last_name;
      }

  user_if :
      (u : User)
      → KeepsTime times u
      → (b : Bool) (o : Option Json)
      → Option.map indexed_user (if b then some (body u) else o)
        ≡ (if b then some u else Option.map indexed_user o)
  user_if u keeps true o =
      ap
        (λ (r : Source × Fault). some (record {
          created_at = r.0.created_at;
          id = r.0.id;
          first_name = r.0.first_name;
          last_name = r.0.last_name;
        }))
        (decode_source times u keeps)
  user_if u keeps false o = refl

  -- The index as a store of users, for users whose times keep their value in JSON.
  pub elastic-IsUserStore :
      IsIndex client → IsUserStore (creator client times) (λ u. HasText u × KeepsTime times u)
  elastic-IsUserStore index = record {
    view = λ s id. Option.map indexed_user (index.documents s id);
    create_ok = λ ctx u s can.
        let q = request u.id (body u) in
        let (resp, e) = index.answers ctx q s in
        ap (λ r. r.0) (create-one ctx u s can.0) ∙ collect-answered (client.index ctx q s).0 resp e;
    create_view = λ ctx u s id can.
        let q = request u.id (body u) in
        ap (λ r. Option.map indexed_user (index.documents r.1 id)) (create-one ctx u s can.0)
        ∙ ap (Option.map indexed_user) (index.puts ctx q s id)
        ∙ user_if u can.1 (u.id == id) (index.documents s id);
  }

  module _ (refusing : Refuses client) where
    create-refused :
        (ctx : Context) (u : User) (s : E)
        → HasText u
        → create client times ctx (u ∷ []) s ≡ (none, s)
    unfolding collect
    create-refused ctx u s has =
        let (resp, e, _) = refusing.refuses ctx (request u.id (body u)) s in
        create-one ctx u s has ∙ ap (λ r. (collect (result_of r.0 ∷ []) none, r.1)) e

    module _ {R Data : Type 0} (reader : KafkaReader R) (queue : IsQueue reader)
        (decode : Data → BeforeAfter × Option Error) (decoder : Decoder Data)
        (start_span : Context → String → Context) (telemetry_enabled : Bool)
        (entity_type destination : String) (render : Error → String) (ctx : Context) where
      dealt-refused :
          (inner : Context) (es : List Event) (rows : List Usr) (s : E)
          → Reports decode decoder (creator client times) es rows
          → All (λ row. HasText (user_of row)) rows
          → dealt decode decoder (creator client times) inner es s ≡ (messages es, s)
      unfolding deal_all
      dealt-refused inner [] [] s h can = refl
      dealt-refused inner [] (row ∷ rows) s h can = absurd h
      dealt-refused inner (hiccup e ∷ es) rows s h can = dealt-refused inner es rows s h can
      dealt-refused inner (delivered m ∷ es) [] s h can = absurd h
      dealt-refused inner (delivered m ∷ es) (row ∷ rows) s h can =
          deal_all-delivered decode decoder (creator client times) inner m es s s (
            deal-created decode decoder (creator client times) inner m row s s h.0
              (create-refused inner (user_of row) s can.0))
          ∙ ap (λ (r : List Message × E). (m ∷ r.0, r.1)) (dealt-refused inner es rows s h.1 can.1)

      abbrev pub looped : ℕ → World R E → Option (Outcome (Option Error)) × World R E
      looped =
          loop reader queue decoder (processor decode decoder (creator client times)) start_span
            telemetry_enabled entity_type destination render ctx

      -- A consumer over an Elasticsearch that answers each request with a refusal, and over a
      -- reader that holds reports of rows that were added, whose times have a text in JSON, and
      -- errors, and then cancels the context: with more rounds than there are events, the loop
      -- returns nil and has committed every report, and nothing is indexed.
      pub refused_lem :
          (es : List Event) (rows : List Usr) (rounds : ℕ) (w : World R E)
          → queue.pending w.reader ≡ es
          → Reports decode decoder (creator client times) es rows
          → All (λ row. HasText (user_of row)) rows
          → length es < rounds
          → ((looped rounds w).0 ≡ some (returned none))
            × (queue.committed (looped rounds w).1.reader ≡ queue.committed w.reader ++ messages es)
            × ((looped rounds w).1.store ≡ w.store)
      refused_lem es rows rounds w waiting reports can enough =
          let inner = span_context start_span telemetry_enabled entity_type destination ctx in
          let (ended, (left, done)) =
            run_lem reader queue decoder (processor decode decoder (creator client times))
              start_span telemetry_enabled entity_type destination render ctx es rounds w waiting
              (Reports-NoPanic decode decoder (creator client times) inner es rows reports)
              enough in
          let all = dealt-refused inner es rows w.store reports can in
          (ended, done ∙ ap (λ r. queue.committed w.reader ++ r.0) all, left ∙ ap (λ r. r.1) all)
