-- ===== src/Capture/Again.antt =====
-- The consumer of internal/consume/consumer.go over several runs. Kafka delivers at least once: a
-- consumer that is started again, or gets a partition back, may get messages again that it has dealt
-- with, since a commit can be lost.
use mathlib.Core.List.{map-append}
use go_api_demo.Prelude.{
  ℕ, ◌<◌, String, ◌≡◌, ◌==◌, refl, ap, sym, ◌∙◌, Bool, Option, none, some, List, [], ◌∷◌, ◌++◌, map,
  All, length, if◌then◌else◌, arith, last_match,
}
use go_api_demo.Error.{Error, Outcome}
use go_api_demo.Context.{Context}
use go_api_demo.User.{User, Creator}
use go_api_demo.Consume.{KafkaReader, Decoder, World}
use go_api_demo.Consume.Run.{Event, IsQueue}
use go_api_demo.Processor.{Usr, BeforeAfter}
use go_api_demo.Processor.Laws.{user_of}
use go_api_demo.Storage.Memory.Laws.{stored}
use go_api_demo.Capture.{IsUserStore, Reports}
use go_api_demo.Capture.Laws.{over_last, stored-cons, consuming, capture_lem}

pub stored-append :
    (us vs : List User) (before : String → Option User) (id : String)
    → stored vs (stored us before) id ≡ stored (us ++ vs) before id
stored-append [] vs before id = refl
stored-append (u ∷ us) vs before id =
    ap (over_last id vs) (sym (stored-cons u us before id))
    ∙ stored-append us vs (λ k. if u.id == k then some u else before k) id
    ∙ stored-cons u (us ++ vs) before id

last_match-append :
    (p : User → Bool) (us vs : List User)
    → last_match p (us ++ vs)
      ≡ (elim (last_match p vs) [ none ↦ last_match p us | some u ↦ some u ])
last_match-append p [] vs = ground arith
last_match-append p (u ∷ us) vs = ground (arith, last_match-append p us vs)

abbrev over : Option User → Option User → Option User
over o p = elim o [ none ↦ p | some u ↦ some u ]

over_again :
    (o p q now before : Option User)
    → over o now ≡ over (over (over o p) q) before
    → over (over o p) now ≡ over (over (over o p) q) before
over_again none none q now before e = e
over_again none (some u) q now before e = refl
over_again (some u) p q now before e = e

-- Users that are stored again, from an earlier one of them on, are stored as before.
stored-again :
    (us vs ws : List User) (now before : String → Option User) (id : String)
    → stored ws now id ≡ stored (us ++ (vs ++ ws)) before id
    → stored (vs ++ ws) now id ≡ stored (us ++ (vs ++ ws)) before id
stored-again us vs ws now before id e =
    let same : User → Bool = λ u. u.id == id in
    let late = last_match-append same vs ws in
    let all = last_match-append same us (vs ++ ws) ∙ ap (λ o. over o (last_match same us)) late in
    ap (λ o. over o (now id)) late
    ∙ over_again (last_match same ws) (last_match same vs) (last_match same us) (now id) (before id)
        (e ∙ ap (λ o. over o (before id)) all)
    ∙ sym (ap (λ o. over o (before id)) all)

module _ {R S Data : Type 0} (reader : KafkaReader R) (queue : IsQueue reader)
    (decode : Data → BeforeAfter × Option Error) (decoder : Decoder Data) (creator : Creator S)
    (Storable : User → Type 0) (store : IsUserStore creator Storable)
    (start_span : Context → String → Context) (telemetry_enabled : Bool)
    (entity_type destination : String) (render : Error → String) (ctx : Context) (log : List Usr)
    (start : S) where
  abbrev run_from : ℕ → World R S → Option (Outcome (Option Error)) × World R S
  run_from =
      consuming reader queue decode decoder creator Storable store start_span telemetry_enabled
        entity_type destination render ctx

  -- What a store can be, over a log of the rows that were added, when the rows `rest` are still to be
  -- delivered: at the start; after a run over a reader that held reports of the next of them; and
  -- when rows that were delivered are going to be delivered again.
  pub data Reached : List Usr → S → Type 0 where
    fresh : Reached log start
    ran :
        (done rest : List Usr) (w : World R S) (es : List Event) (rounds : ℕ)
        → Reached (done ++ rest) w.store
        → queue.pending w.reader ≡ es
        → Reports decode decoder creator es done
        → All (λ row. Storable (user_of row)) done
        → length es < rounds
        → Reached rest (run_from rounds w).1.store
    redelivered :
        (before again rest : List Usr) {s : S}
        → Reached rest s
        → log ≡ before ++ (again ++ rest)
        → Reached (again ++ rest) s

  abbrev of_users : List Usr → (String → Option User) → String → Option User
  of_users rows before id = stored (map user_of rows) before id

  of_users-append :
      (rows more : List Usr) (before : String → Option User) (id : String)
      → of_users more (of_users rows before) id ≡ of_users (rows ++ more) before id
  of_users-append rows more before id =
      stored-append (map user_of rows) (map user_of more) before id
      ∙ ap (λ us. stored us before id) (sym (map-append user_of rows more))

  of_users-again :
      (before again rest : List Usr) (s : S) (id : String)
      → log ≡ before ++ (again ++ rest)
      → of_users rest (store.view s) id ≡ of_users log (store.view start) id
      → of_users (again ++ rest) (store.view s) id ≡ of_users log (store.view start) id
  of_users-again before again rest s id is_log e =
      let rows : map user_of log ≡ map user_of before ++ (map user_of again ++ map user_of rest) =
        ap (map user_of) is_log
        ∙ map-append user_of before (again ++ rest)
        ∙ ap (λ us. map user_of before ++ us) (map-append user_of again rest) in
      let all = ap (λ us. stored us (store.view start) id) rows in
      ap (λ us. stored us (store.view s) id) (map-append user_of again rest)
      ∙ stored-again (map user_of before) (map user_of again) (map user_of rest) (store.view s)
          (store.view start) id (e ∙ all)
      ∙ sym all

  -- With the rows that are still to be delivered, the store is what the whole log makes of it.
  Reached-view :
      {rest : List Usr} {s : S}
      → Reached rest s
      → (id : String) → of_users rest (store.view s) id ≡ of_users log (store.view start) id
  Reached-view fresh id = refl
  Reached-view (ran done rest w es rounds reached waiting reports can enough) id =
      let (_, _, views) =
        capture_lem reader queue decode decoder creator Storable store start_span telemetry_enabled
          entity_type destination render ctx es done rounds w waiting reports can enough in
      ap (over_last id (map user_of rest)) (views id)
      ∙ of_users-append done rest (store.view w.store) id
      ∙ Reached-view reached id
  Reached-view (redelivered before again rest {s} reached is_log) id =
      of_users-again before again rest s id is_log (Reached-view reached id)

  -- However often the consumer is stopped and started again, and however far back the delivery of
  -- the added rows then resumes, once it has run over the last of them the storage has what one run
  -- over all of them gives: for each id, the user of the last of the rows with that id, and where
  -- there is none what it had at the start.
  pub Reached-stored :
      (s : S)
      → Reached [] s
      → (id : String) → store.view s id ≡ stored (map user_of log) (store.view start) id
  Reached-stored s reached id = Reached-view reached id
