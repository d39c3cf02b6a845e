-- ===== src/Capture/Laws.antt =====
-- On the consumer, the processor and a storage together.
use mathlib.Core.Path.{subst}
use go_api_demo.Prelude.{
  ℕ, ◌<◌, String, ◌≡◌, ◌==◌, refl, ap, sym, ◌∙◌, Bool, true, Option, none, some, List, [], ◌∷◌,
  ◌++◌, map, All, length, if◌then◌else◌, arith, last_match,
}
use go_api_demo.Error.{Error, Outcome, returned}
use go_api_demo.Context.{Context}
use go_api_demo.User.{User, Creator}
use go_api_demo.Consume.{Message, KafkaReader, Decoder, World}
use go_api_demo.Consume.Run.{
  Event, delivered, hiccup, IsQueue, keep, finish, deal_decoded, deal_value, deal, deal_all,
  NoPanic,
}
use go_api_demo.Consume.Run.Total.{span_context, loop, run_lem}
use go_api_demo.Processor.{Usr, BeforeAfter}
use go_api_demo.Processor.Laws.{SameRow, no_row, user_of, process-create}
use go_api_demo.Storage.Memory.Laws.{stored}
use go_api_demo.Capture.{IsUserStore, processor, Added, Reports, messages}

abbrev pub over_last : String → List User → Option User → Option User
over_last id us o = elim (last_match (λ (u : User). u.id == id) us) [ none ↦ o | some u ↦ some u ]

pub stored-cons :
    (u : User) (us : List User) (before : String → Option User) (id : String)
    → stored us (λ k. if u.id == k then some u else before k) id ≡ stored (u ∷ us) before id
stored-cons u us before id = ground arith

module _ {S Data : Type 0} (decode : Data → BeforeAfter × Option Error) (decoder : Decoder Data)
    (creator : Creator S) (ctx : Context) where
  abbrev pub dealt : List Event → S → List Message × S
  dealt = deal_all decoder (processor decode decoder creator) ctx

  -- A report of a row is dealt with by the creation of its user.
  pub deal-created :
      (m : Message) (row : Usr) (s t : S)
      → Added decode decoder creator m row
      → creator.create ctx (user_of row ∷ []) s ≡ (none, t)
      → deal decoder (processor decode decoder creator) ctx m s ≡ (true, t)
  unfolding deal
  deal-created m row s t (value, n_msg, bf, is_value, decodes, is_change, absent, is_row, present)
        created =
      let p = processor decode decoder creator in
      let made =
        process-create decode creator ctx n_msg s is_change absent
          (subst (λ r. ¬ SameRow r no_row) (sym is_row) present) in
      ap (λ v. deal_value decoder p ctx v s) is_value
      ∙ ap (λ o. deal_decoded decoder p ctx o s) decodes
      ∙ ap (finish decoder p)
          (made ∙ ap (λ r. creator.create ctx (user_of r ∷ []) s) is_row ∙ created)

  pub Reports-NoPanic :
      (es : List Event) (rows : List Usr)
      → Reports decode decoder creator es rows
      → NoPanic decoder (processor decode decoder creator) es
  Reports-NoPanic [] rows h = tt
  Reports-NoPanic (hiccup e ∷ es) rows h = Reports-NoPanic es rows h
  Reports-NoPanic (delivered m ∷ es) [] h = absurd h
  Reports-NoPanic (delivered m ∷ es) (row ∷ rows) h = (
    λ value text e bad. (let (v, n, bf, is_value, decodes, _, _, _, _) = h.0 in cc),
    Reports-NoPanic es rows h.1,
  )

  pub deal_all-delivered :
      (m : Message) (es : List Event) (s t : S)
      → deal decoder (processor decode decoder creator) ctx m s ≡ (true, t)
      → dealt (delivered m ∷ es) s ≡ (m ∷ (dealt es t).0, (dealt es t).1)
  unfolding deal_all
  deal_all-delivered m es s t e =
      ap
        (λ (r : Bool × S). (
          keep decoder (processor decode decoder creator) r.0 m (dealt es r.1).0,
          (dealt es r.1).1,
        ))
        e

module _ {S Data : Type 0} (decode : Data → BeforeAfter × Option Error) (decoder : Decoder Data)
    (creator : Creator S) (Storable : User → Type 0) (store : IsUserStore creator Storable)
    (ctx : Context) where
  abbrev after : User → S → S
  after u s = (creator.create ctx (u ∷ []) s).1

  pub deal-Added :
      (m : Message) (row : Usr) (s : S)
      → Added decode decoder creator m row
      → Storable (user_of row)
      → deal decoder (processor decode decoder creator) ctx m s ≡ (true, after (user_of row) s)
  deal-Added m row s added can =
      deal-created decode decoder creator ctx m row s (after (user_of row) s) added
        (ap (λ o. (o, after (user_of row) s)) (store.create_ok ctx (user_of row) s can))

  -- The events are dealt with as the reports of new rows.
  abbrev Stored : List Event → List Usr → S → List Message × S → Type 0
  Stored es rows s (ms, t) =
      (ms ≡ messages es)
      × ((id : String) → store.view t id ≡ stored (map user_of rows) (store.view s) id)

  dealt-Stored :
      (es : List Event) (rows : List Usr) (s : S)
      → Reports decode decoder creator es rows
      → All (λ row. Storable (user_of row)) rows
      → Stored es rows s (dealt decode decoder creator ctx es s)
  unfolding deal_all
  dealt-Stored [] [] s h can = (refl, λ id. refl)
  dealt-Stored [] (row ∷ rows) s h can = absurd h
  dealt-Stored (hiccup e ∷ es) rows s h can = dealt-Stored es rows s h can
  dealt-Stored (delivered m ∷ es) [] s h can = absurd h
  dealt-Stored (delivered m ∷ es) (row ∷ rows) s h can =
      let (ms, views) = dealt-Stored es rows (after (user_of row) s) h.1 can.1 in
      let u = user_of row in
      let step =
        deal_all-delivered decode decoder creator ctx m es s (after u s)
          (deal-Added m row s h.0 can.0) in
      (
        ap (λ r. r.0) step ∙ ap (λ l. m ∷ l) ms,
        λ id.
            ap (λ r. store.view r.1 id) step
            ∙ views id
            ∙ ap (over_last id (map user_of rows)) (store.create_view ctx u s id can.0)
            ∙ stored-cons u (map user_of rows) (store.view s) id,
      )

module _ {R S Data : Type 0} (reader : KafkaReader R) (queue : IsQueue reader)
    (decode : Data → BeforeAfter × Option Error) (decoder : Decoder Data) (creator : Creator S)
    (Storable : User → Type 0) (store : IsUserStore creator Storable)
    (start_span : Context → String → Context) (telemetry_enabled : Bool)
    (entity_type destination : String) (render : Error → String) (ctx : Context) where
  abbrev pub consuming : ℕ → World R S → Option (Outcome (Option Error)) × World R S
  consuming =
      loop reader queue decoder (processor decode decoder creator) start_span telemetry_enabled
        entity_type destination render ctx

  -- A consumer over a storage that stores users, and over a reader that holds reports of rows that
  -- were added to the table, and errors among them, and then cancels the context: with more rounds
  -- than there are events, the loop returns nil and has committed every report, in order; and the
  -- storage then has, for each id, the user of the last of the rows with that id, and where there is
  -- none what it had before.
  pub capture_lem :
      (es : List Event) (rows : List Usr) (rounds : ℕ) (w : World R S)
      → queue.pending w.reader ≡ es
      → Reports decode decoder creator es rows
      → All (λ row. Storable (user_of row)) rows
      → length es < rounds
      → ((consuming rounds w).0 ≡ some (returned none))
        × (queue.committed (consuming rounds w).1.reader ≡ queue.committed w.reader ++ messages es)
        × ((id : String)
            → store.view (consuming rounds w).1.store id
              ≡ stored (map user_of rows) (store.view w.store) id)
  capture_lem es rows rounds w waiting reports can enough =
      let inner = span_context start_span telemetry_enabled entity_type destination ctx in
      let (ended, (left, done)) =
        run_lem reader queue decoder (processor decode decoder creator) start_span telemetry_enabled
          entity_type destination render ctx es rounds w waiting
          (Reports-NoPanic decode decoder creator ctx es rows reports) enough in
      let (ms, views) =
        dealt-Stored decode decoder creator Storable store inner es rows w.store reports can in
      (
        ended,
        done ∙ ap (λ l. queue.committed w.reader ++ l) ms,
        λ id. ap (λ s. store.view s id) left ∙ views id,
      )
