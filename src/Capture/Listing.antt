-- ===== src/Capture/Listing.antt =====
-- GET /user over the cache in Redis, after the consumer for the cache has run: internal/user/read and
-- internal/storage/redis/user.go on what internal/consume/consumer.go left.
use mathlib.Core.List.{Mem}
use go_api_demo.Prelude.{
  ℕ, ◌<◌, String, ◌≡◌, ◌↔◌, ap, sym, ◌∙◌, Bool, Option, none, some, List, [], ◌∷◌, map, All, length,
  inl, inr,
}
use go_api_demo.Prelude.Dict.{lookup}
use go_api_demo.Error.{Error, Outcome}
use go_api_demo.Context.{Context}
use go_api_demo.Json.{arr, items}
use go_api_demo.Time.JsonText.{TimeText}
use go_api_demo.Time.Rfc3339.{Zone}
use go_api_demo.User.{User}
use go_api_demo.Response.{new_writer}
use go_api_demo.Server.{Host, Exchange}
use go_api_demo.Consume.{KafkaReader, Decoder, World}
use go_api_demo.Consume.Run.{Event, IsQueue}
use go_api_demo.Processor.{Usr, BeforeAfter}
use go_api_demo.Processor.Laws.{user_of}
use go_api_demo.Read.Http.{user_json, read_http}
use go_api_demo.Read.Laws.{shown, read_http_lem}
use go_api_demo.Storage.Redis.{Cache, user_key}
use go_api_demo.Storage.Redis
use go_api_demo.Storage.Redis.Laws.{IsStore, KeepsTime}
use go_api_demo.Storage.Memory.Laws.{stored}
use go_api_demo.Capture.{Reports}
use go_api_demo.Capture.Laws.{over_last, consuming, capture_lem}
use go_api_demo.Capture.Stores.{cached, decoded, redis-IsUserStore}
use go_api_demo.Capture.Scan.{Scans, empty, raw, value_of, raw-IsUserStore, stored-keyed, read-mem}

module _ {R Data : Type 0} (kafka : KafkaReader R) (queue : IsQueue kafka)
    (decode : Data → BeforeAfter × Option Error) (decoder : Decoder Data) (times : TimeText)
    {C : Type 0} (cache : Cache C) (store : IsStore cache) (scans : Scans cache store)
    (start_span : Context → String → Context) (telemetry_enabled : Bool)
    (entity_type destination : String) (zone : Zone) (render : Error → String) (ctx : Context) where
  abbrev pub consumed : ℕ → World R C → Option (Outcome (Option Error)) × World R C
  consumed =
      consuming kafka queue decode decoder (Redis.creator times cache) (KeepsTime times)
        (redis-IsUserStore times cache store) start_span telemetry_enabled entity_type destination
        render ctx

  -- GET /user, over the cache.
  abbrev pub listed : Host C → Exchange C
  listed h =
      read_http (Redis.reader times cache) zone render ctx
        (record { writer = new_writer; host = h })

  -- A consumer over a cache in Redis that has no users, and over a reader that holds reports of rows
  -- that were added, whose times keep their value in JSON, and errors, and then cancels the context:
  -- after its loop has run, with more rounds than there are events, GET /user over the cache answers
  -- 200, logs nothing and changes nothing, and its body has exactly the users of which each is that of
  -- the last of the rows with its id.
  pub listing_lem :
      (es : List Event) (rows : List Usr) (rounds : ℕ) (w : World R C) (h : Host C)
      → queue.pending w.reader ≡ es
      → Reports decode decoder (Redis.creator times cache) es rows
      → All (λ row. KeepsTime times (user_of row)) rows
      → length es < rounds
      → ((id : String) → lookup (user_key id) (store.entries w.store) ≡ none)
      → h.store ≡ (consumed rounds w).1.store
      → ((listed h).writer.status ≡ some 200)
        × ((listed h).host ≡ h)
        × ((us : List User) × ((listed h).writer.body
              ≡ arr (items (map (λ u. user_json (shown zone u)) us)) ∷ [])
            × ((u : User) → Mem u us ↔ (stored (map user_of rows) empty u.id ≡ some u)))
  unfolding redis-IsUserStore raw-IsUserStore
  listing_lem es rows rounds w h waiting reports can enough fresh is_store =
      let us = map user_of rows in
      let (_, _, views) =
        capture_lem kafka queue decode decoder (Redis.creator times cache) (KeepsTime times)
          (redis-IsUserStore times cache store) start_span telemetry_enabled entity_type destination
          render ctx es rows rounds w waiting reports can enough in
      let (_, _, raws) =
        capture_lem kafka queue decode decoder (Redis.creator times cache) (KeepsTime times)
          (raw-IsUserStore times cache store) start_span telemetry_enabled entity_type destination
          render ctx es rows rounds w waiting reports can enough in
      let (found, reads, is_last) =
        read-mem times cache store h.store (stored us empty)
          (λ id.
            ap (λ c. cached times cache store c id) is_store
            ∙ views id
            ∙ ap (over_last id us) (ap (decoded times cache store) (fresh id)))
          (λ id.
            ap (λ c. raw times cache store (value_of times cache store c id)) is_store
            ∙ raws id
            ∙ ap (over_last id us) (ap (raw times cache store) (fresh id)))
          scans (stored-keyed us) ctx in
      let (kept, cases) = read_http_lem (Redis.reader times cache) zone render ctx h in
      elim cases [
        | inl (_, status, body, quiet) ↦ (
          status,
          ap (λ c. record { store = c; sink = (listed h).host.sink }) (kept ∙ ap (λ r. r.1) reads)
              ∙ ap (λ k. record { store = h.store; sink = k }) quiet,
          (
            found,
            body ∙ ap (λ r. arr (items (map (λ u. user_json (shown zone u)) r.0.0)) ∷ []) reads,
            is_last,
          ),
        )
        | inr (e, failed, _) ↦ absurd (let no = sym failed ∙ ap (λ r. r.0.1) reads in cc)
      ]
