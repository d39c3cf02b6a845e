-- ===== src/Capture/Searched.antt =====
-- GET /user/search/{searchTerm} over the index in Elasticsearch that the consumer for the search has
-- filled: internal/user/search and `Search` of internal/storage/elastic/user.go after
-- internal/consume/consumer.go.
use mathlib.Core.List.{Mem}
use mathlib.Core.Option
use mathlib.Core.Path.{subst}
use go_api_demo.Prelude.{
  ℕ, ◌<◌, ◌≤◌, String, ◌<>◌, ◌≡◌, ◌≢◌, refl, ap, sym, ◌∙◌, Bool, true, Option, none, some, List, [],
  ◌∷◌, map, All, length, inl, inr, arith,
}
use go_api_demo.Prelude.Dict.{Dict}
use go_api_demo.Error.{Error, Outcome}
use go_api_demo.Context.{Context}
use go_api_demo.Json.{arr, items}
use go_api_demo.Time.JsonText.{TimeText}
use go_api_demo.Time.Rfc3339.{Zone}
use go_api_demo.User.{User}
use go_api_demo.Server.{Host, Exchange}
use go_api_demo.Sanitise.{alpha_with_hyphen}
use go_api_demo.Sanitise.Laws.{clean_count}
use go_api_demo.Search.Http.{user_json, param}
use go_api_demo.Search.Laws.Http.{after, found, shown, search_http_lem}
use go_api_demo.Consume.{KafkaReader, Decoder, World}
use go_api_demo.Consume.Run.{Event, IsQueue}
use go_api_demo.Consume.Run.Total.{loop, run_lem, span_context}
use go_api_demo.Processor.{Usr, BeforeAfter}
use go_api_demo.Processor.Laws.{user_of}
use go_api_demo.Storage.Memory.Laws.{stored}
use go_api_demo.Storage.Elastic.{Client, SearchRequest, usrs}
use go_api_demo.Storage.Elastic.Create.One.{creator}
use go_api_demo.Storage.Elastic.Search.{answered, found_users, search, searcher}
use go_api_demo.Storage.Elastic.Search.Laws.{found_users-hits}
use go_api_demo.Capture.{processor, Reports}
use go_api_demo.Capture.Index.{IsIndex, body}
use go_api_demo.Capture.Laws.{Reports-NoPanic}
use go_api_demo.Capture.Scan.{empty}
use go_api_demo.Capture.Hits.{
  response, Finds, Indexed, stored-some, latest, dealt-documents, latest-stored, choose, chosen-mem,
}

module _ (times : TimeText) {E : Type 0} (client : Client E) (index : IsIndex client) where
  module _ (finding : Finds client index) {R Data : Type 0} (kafka : KafkaReader R)
      (queue : IsQueue kafka) (decode : Data → BeforeAfter × Option Error) (decoder : Decoder Data)
      (start_span : Context → String → Context) (telemetry_enabled : Bool)
      (entity_type destination : String) (zone : Zone) (render : Error → String)
      (ctx : Context) where
    abbrev pub consumed : ℕ → World R E → Option (Outcome (Option Error)) × World R E
    consumed =
        loop kafka queue decoder (processor decode decoder (creator client times)) start_span
          telemetry_enabled entity_type destination render ctx

    abbrev pub searched : Host E → Dict String → Exchange E
    searched h params = after (searcher times client) zone render ctx h params

    abbrev pub query_of : Dict String → String
    query_of params = "*" <> (alpha_with_hyphen (param "searchTerm" params)).0 <> "*"

    -- The user is the last of those with its id, and its document matches the query.
    abbrev pub Matches : List Usr → Dict String → User → Type 0
    Matches rows params u =
        (stored (map user_of rows) empty u.id ≡ some u)
        × (finding.matches (query_of params) (body times client u) ≡ true)

    users-Indexed :
        (rows : List Usr)
        → All (λ row. Indexed times client index (user_of row)) rows
        → All (Indexed times client index) (map user_of rows)
    users-Indexed [] can = tt
    users-Indexed (row ∷ rows) can = (can.0, users-Indexed rows can.1)

    users-some : (rows : List Usr) → rows ≢ [] → map user_of rows ≢ []
    users-some [] h = λ e. h refl
    users-some (row ∷ rows) h = λ e. cc

    -- What a search finds: users that match, and all of them where they are fewer than ten.
    abbrev Finding : List Usr → Dict String → E → Type 0
    Finding rows params s =
        (us : List User) × (found (searcher times client) ctx
            (alpha_with_hyphen (param "searchTerm" params)).0 (finding.refresh s)
          ≡ ((us, none), finding.refresh s))
        × All (Matches rows params) us
        × (length us ≤ 10)
        × (length us < 10 → (u : User) → Matches rows params u → Mem u us)

    -- The documents are those of the users of the rows.
    abbrev Holds : List Usr → E → Type 0
    Holds rows s =
        (id : String)
        → index.documents s id ≡ Option.map (body times client) (stored (map user_of rows) empty id)

    search-Finding :
        (rows : List Usr) (params : Dict String) (s : E)
        → All (λ row. Indexed times client index (user_of row)) rows
        → Holds rows s
        → rows ≢ []
        → Finding rows params s
    unfolding search
    search-Finding rows params s can holds some_row =
        let q : SearchRequest = record {
          index = usrs ∷ [];
          docvalue_fields = "first_name.keyword" ∷ "last_name.keyword" ∷ [];
          query = query_of params;
        } in
        let us = map user_of rows in
        let all = users-Indexed rows can in
        let matches = finding.matches (query_of params) in
        let (id, u, is) = stored-some us (users-some rows some_row) in
        let (took, count, hits, e, are, few, complete) =
          finding.finds ctx q s id (body times client u)
            (holds id ∙ ap (Option.map (body times client)) is) in
        let (vs, same, aligned, fit, keep, long) =
          choose times client index us all (index.documents s) holds matches hits are in
        (
          vs,
          ap (answered times) e
              ∙ ap (λ l. (found_users times (response took count l), finding.refresh s)) same
              ∙ ap (λ r. (r, finding.refresh s)) (found_users-hits times took count vs 200 keep),
          fit,
          subst (λ n. n ≤ 10) long few,
          λ less u m.
              chosen-mem times client index us all (index.documents s) holds matches hits vs aligned
                (complete (subst (λ n. n < 10) (sym long) less)) u m,
        )

    consumed-Holds :
        (es : List Event) (rows : List Usr) (rounds : ℕ) (w : World R E)
        → queue.pending w.reader ≡ es
        → Reports decode decoder (creator client times) es rows
        → All (λ row. Indexed times client index (user_of row)) rows
        → length es < rounds
        → ((id : String) → index.documents w.store id ≡ none)
        → Holds rows (consumed rounds w).1.store
    consumed-Holds es rows rounds w waiting reports can enough fresh id =
        let inner = span_context start_span telemetry_enabled entity_type destination ctx in
        let p = processor decode decoder (creator client times) in
        let (_, (left, _)) =
          run_lem kafka queue decoder p start_span telemetry_enabled entity_type destination render
            ctx es rounds w waiting
            (Reports-NoPanic decode decoder (creator client times) inner es rows reports) enough in
        ap (λ t. index.documents t id) left
        ∙ dealt-documents times client index decode decoder inner es rows w.store reports can id
        ∙ ap (λ o. latest times client index (map user_of rows) o id) (fresh id)
        ∙ latest-stored times client index (map user_of rows) id

    -- A consumer over an index that has no documents, and over a reader that holds reports of rows
    -- that were added, at least one, whose times keep their value in JSON, and errors, and then
    -- cancels the context: after its loop has run, with more rounds than there are events, and
    -- Elasticsearch has then refreshed the index, GET /user/search over it, for a term with three
    -- letters and hyphens or more, answers 200 and changes no document. Its body has at most ten
    -- users; each is that of the last of the rows with its id, and its document matches the query;
    -- and where they are fewer than ten, they are all such users.
    pub searched_lem :
        (es : List Event) (rows : List Usr) (rounds : ℕ) (w : World R E) (h : Host E)
        (params : Dict String)
        → queue.pending w.reader ≡ es
        → Reports decode decoder (creator client times) es rows
        → All (λ row. Indexed times client index (user_of row)) rows
        → length es < rounds
        → ((id : String) → index.documents w.store id ≡ none)
        → rows ≢ []
        → h.store ≡ finding.refresh (consumed rounds w).1.store
        → 3 ≤ clean_count (param "searchTerm" params)
        → ((searched h params).writer.status ≡ some 200)
          × ((searched h params).host.store ≡ h.store)
          × ((us : List User) × ((searched h params).writer.body
                ≡ arr (items (map (λ u. user_json (shown zone u)) us)) ∷ [])
              × All (Matches rows params) us
              × (length us ≤ 10)
              × (length us < 10 → (u : User) → Matches rows params u → Mem u us))
    searched_lem es rows rounds w h params waiting reports can enough fresh some_row is_store long =
        let (us, is, fit, few, complete) =
          search-Finding rows params (consumed rounds w).1.store can
            (consumed-Holds es rows rounds w waiting reports can enough fresh) some_row in
        let asked =
          ap (found (searcher times client) ctx (alpha_with_hyphen (param "searchTerm" params)).0)
            is_store
          ∙ is in
        elim (search_http_lem (searcher times client) zone render ctx h params).1 [
          | inl (short, _, _) ↦ absurd (omega arith)
          | inr (_, (kept, inl (_, status, shows, _))) ↦ (
            status,
            kept ∙ ap (λ r. r.1) asked ∙ sym is_store,
            (
              us,
              shows ∙ ap (λ r. arr (items (map (λ u. user_json (shown zone u)) r.0.0)) ∷ []) asked,
              fit,
              few,
              complete,
            ),
          )
          | inr (_, (_, inr (e, failed, _))) ↦
              absurd (let no = sym failed ∙ ap (λ r. r.0.1) asked in cc)
        ]
