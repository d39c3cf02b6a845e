-- ===== src/Capture/Created.antt =====
-- POST /user, and then GET /user over the cache in Redis that the consumer has filled:
-- internal/user/create, internal/consume/consumer.go and internal/user/read together.
use mathlib.Core.List.{Mem, mem-map_of_mem}
use mathlib.Core.Path.{subst}
use go_api_demo.Prelude.{
  ℕ, zero, suc, ◌+◌, ◌/◌, ◌<◌, String, ◌≡◌, ◌==◌, refl, ap, sym, ◌∙◌, Bool, Option, none, some,
  List, [], ◌∷◌, map, All, length, inl, inr, last_match, arith,
}
use go_api_demo.Prelude.Dict.{lookup}
use go_api_demo.Error.{Error, Outcome}
use go_api_demo.Context.{Context}
use go_api_demo.Int.{pos}
use go_api_demo.Json.{Json, Document, arr, items}
use go_api_demo.Time.{Time, local, unix_epoch, unix}
use go_api_demo.Time.JsonText.{TimeText}
use go_api_demo.Time.Rfc3339.{Zone, format_rfc3339}
use go_api_demo.Format.{msec_to_time}
use go_api_demo.Format.Laws.{unix_milli-msec_to_time}
use go_api_demo.User.{User, Creator}
use go_api_demo.Server.{Host, Exchange}
use go_api_demo.Validate.{Engine}
use go_api_demo.Validate.Engine.{IsLawful}
use go_api_demo.Create.{InputData, Draw, view_model}
use go_api_demo.Create
use go_api_demo.Create.Http.{decode_input, output}
use go_api_demo.Create.Laws.Interactor.{output_of}
use go_api_demo.Create.Laws.Http
use go_api_demo.Consume.{KafkaReader, Decoder, World}
use go_api_demo.Consume.Run.{Event, IsQueue}
use go_api_demo.Processor.{Usr, BeforeAfter}
use go_api_demo.Processor.Laws.{user_of}
use go_api_demo.Read.Http.{user_json}
use go_api_demo.Read.Laws.{shown}
use go_api_demo.Storage.Redis.{Cache, user_key}
use go_api_demo.Storage.Redis
use go_api_demo.Storage.Redis.Laws.{IsStore, KeepsTime}
use go_api_demo.Storage.Memory.Laws.{stored}
use go_api_demo.Capture.{Reports}
use go_api_demo.Capture.Scan.{Scans, empty}
use go_api_demo.Capture.Listing.{consumed, listed, listing_lem}

-- The row of a user, as far as a table can keep it whose times are whole seconds: the second is that
-- of the user.
abbrev pub RowOf : User → Usr → Type 0
RowOf u row =
    (row.id ≡ u.id)
    × (row.first_name ≡ u.first_name)
    × (row.last_name ≡ u.last_name)
    × ((n : ℕ) × (row.created_at ≡ pos n) × (0 < n) × (unix_epoch + n / 1000 ≡ u.created_at.sec))

format_rfc3339-sec :
    (zone : Zone) (s t : Time)
    → s.sec ≡ t.sec
    → s.loc ≡ t.loc
    → format_rfc3339 zone s ≡ format_rfc3339 zone t
unfolding format_rfc3339
format_rfc3339-sec zone s t e l = rw (e, l) refl

msec_to_time-loc : (n : ℕ) → 0 < n → (msec_to_time (pos n)).loc ≡ local
unfolding msec_to_time unix
msec_to_time-loc zero h = absurd (omega arith)
msec_to_time-loc (suc n) h = refl

stored-last :
    (rows : List Usr) (id : String)
    → stored (map user_of rows) empty id ≡ (elim (last_match (λ (r : Usr). r.id == id) rows) [
      | none ↦ none
      | some r ↦ some (user_of r)
    ])
stored-last [] id = refl
stored-last (row ∷ rows) id = ground (arith, stored-last rows id)

-- A row of a user is shown as the answer that created the user.
user_json-output :
    (zone : Zone) (u : User) (row : Usr)
    → u.created_at.loc ≡ local
    → RowOf u row
    → user_json (shown zone (user_of row)) ≡ output (view_model zone (output_of u))
unfolding user_json output view_model
user_json-output zone u row is_local (i, f, l, (n, t, positive, second)) =
    let is : (user_of row).created_at ≡ msec_to_time (pos n) = ap msec_to_time t in
    let time : format_rfc3339 zone (user_of row).created_at ≡ format_rfc3339 zone u.created_at =
      ap (format_rfc3339 zone) is
      ∙ format_rfc3339-sec zone (msec_to_time (pos n)) u.created_at
          ((unix_milli-msec_to_time n positive).2 ∙ second)
          (msec_to_time-loc n positive ∙ sym is_local) in
    rw (i, f, l, time) refl

module _ {R Data : Type 0} (kafka : KafkaReader R) (queue : IsQueue kafka)
    (decode : Data → BeforeAfter × Option Error) (decoder : Decoder Data) (times : TimeText)
    {C : Type 0} (cache : Cache C) (store : IsStore cache) (scans : Scans cache store)
    (start_span : Context → String → Context) (telemetry_enabled : Bool)
    (entity_type destination : String) (zone : Zone) (render : Error → String) (ctx : Context)
    {S : Type 0} (engine : Engine) (lawful : IsLawful engine) (creator : Creator S) where
  -- POST /user, over the storage whose table is captured.
  abbrev pub posted : Draw → Document → Host S → Outcome (Unit {0}) × Exchange S
  posted draw body h = Create.Laws.Http.after engine lawful creator zone render ctx draw body h

  -- A POST that answers 201 has the created user for a body.
  posted-body :
      (draw : Draw) (body : Document) (input : InputData) (h : Host S)
      → decode_input body ≡ (input, none)
      → (posted draw body h).1.writer.status ≡ some 201
      → (posted draw body h).1.writer.body
        ≡ output (view_model zone (output_of (Create.user_of draw input))) ∷ []
  posted-body draw body input h decodes status =
      elim (Create.Laws.Http.create_http_lem engine lawful creator zone render ctx draw body h).1 [
        | inl (_, bad, _) ↦ absurd (let no = sym status ∙ bad in ground arith)
        | inr (i, (_, _, _, inl (_, _, bad))) ↦ absurd (let no = sym status ∙ bad in ground arith)
        | inr (i, (is, _, _, inr (_, _, answer, _))) ↦
            answer
            ∙ ap
                (λ (r : InputData × Option Error).
                  output (view_model zone (output_of (Create.user_of draw r.0))) ∷ [])
                (sym is ∙ decodes)
      ]

  -- A POST of a user answers 201; a row with its id and its names, and with a time in the same second,
  -- is then reported, and is the last of the reported rows with that id. After the consumer for a
  -- cache that had no users has run, with more rounds than there are events, over reports of rows
  -- whose times keep their value in JSON, GET /user over the cache answers 200 with a list that has,
  -- as one of its users, the very body that the POST answered.
  pub created_lem :
      (draw : Draw) (body : Document) (input : InputData) (h : Host S) (row : Usr) (es : List Event)
      (rows : List Usr) (rounds : ℕ) (w : World R C) (g : Host C)
      → decode_input body ≡ (input, none)
      → (posted draw body h).1.writer.status ≡ some 201
      → draw.now.loc ≡ local
      → RowOf (Create.user_of draw input) row
      → last_match (λ (r : Usr). r.id == draw.id) rows ≡ some row
      → queue.pending w.reader ≡ es
      → Reports decode decoder (Redis.creator times cache) es rows
      → All (λ row. KeepsTime times (user_of row)) rows
      → length es < rounds
      → ((id : String) → lookup (user_key id) (store.entries w.store) ≡ none)
      → g.store
        ≡ (consumed kafka queue decode decoder times cache store scans start_span telemetry_enabled
            entity_type destination zone render ctx rounds w).1.store
      → ((listed kafka queue decode decoder times cache store scans start_span telemetry_enabled
            entity_type destination zone render ctx g).writer.status
          ≡ some 200)
        × ((answer : Json) × ((shown_users : List Json) × ((posted draw body h).1.writer.body
                ≡ answer ∷ [])
              × ((listed kafka queue decode decoder times cache store scans start_span
                    telemetry_enabled entity_type destination zone render ctx g).writer.body
                  ≡ arr (items shown_users) ∷ [])
              × Mem answer shown_users))
  created_lem draw body input h row es rows rounds w g decodes status is_local is_row last waiting
        reports can enough fresh is_store =
      let (ok, _, (us, shows, is_last)) =
        listing_lem kafka queue decode decoder times cache store scans start_span telemetry_enabled
          entity_type destination zone render ctx es rows rounds w g waiting reports can enough
          fresh is_store in
      let there : stored (map user_of rows) empty row.id ≡ some (user_of row) =
        ap (stored (map user_of rows) empty) is_row.0
        ∙ stored-last rows draw.id
        ∙ ap (λ (o : Option Usr). elim o [ none ↦ none | some r ↦ some (user_of r) ]) last in
      (
        ok,
        (
          output (view_model zone (output_of (Create.user_of draw input))),
          (
            map (λ u. user_json (shown zone u)) us,
            posted-body draw body input h decodes status,
            shows,
            subst (λ j. Mem j (map (λ u. user_json (shown zone u)) us))
                (user_json-output zone (Create.user_of draw input) row is_local is_row)
                (mem-map_of_mem (λ u. user_json (shown zone u)) ((is_last (user_of row)).1 there)),
          ),
        ),
      )
