-- ===== src/Capture/Partitions/Round.antt =====
-- One round of a worker.
use mathlib.Core.Path.{subst}
use go_api_demo.Prelude.{
  ℕ, suc, String, ◌≡◌, ◌==◌, ◌⊎◌, inl, inr, refl, ap, sym, ◌∙◌, Bool, Option, none, some, List, [],
  ◌∷◌, All, length, if◌then◌else◌,
}
use go_api_demo.Error.{Error, Outcome, returned}
use go_api_demo.Context.{Context}
use go_api_demo.Log.{Sink}
use go_api_demo.User.{User, Creator}
use go_api_demo.Consume.{KafkaReader, Decoder, World}
use go_api_demo.Consume.Run.{Event, delivered, hiccup, IsQueue}
use go_api_demo.Consume.Run.Next.{span, round-end, round-hiccup, round-delivered}
use go_api_demo.Processor.{Usr, BeforeAfter}
use go_api_demo.Processor.Laws.{user_of}
use go_api_demo.Capture.{IsUserStore, processor, Reports}
use go_api_demo.Capture.Laws.{deal-Added, Reports-NoPanic}
use go_api_demo.Capture.Partitions.{Worker, round}

-- What a round does to the view: nothing, or a user is stored.
abbrev pub put : Option User → (String → Option User) → String → Option User
put none v = v
put (some u) v = λ k. if u.id == k then some u else v k

-- A round takes no row, or it takes the first one and stores its user.
abbrev pub Takes : Option User → List Usr → List Usr → Type 0
Takes none rows left = rows ≡ left
Takes (some u) rows left = (row : Usr) × (rows ≡ row ∷ left) × (u ≡ user_of row)

module _ {R S Data : Type 0} (reader : KafkaReader R) (queue : IsQueue reader)
    (decode : Data → BeforeAfter × Option Error) (decoder : Decoder Data) (creator : Creator S)
    (Storable : User → Type 0) (store : IsUserStore creator Storable)
    (start_span : Context → String → Context) (telemetry_enabled : Bool)
    (entity_type destination : String) (render : Error → String) (ctx : Context) where
  abbrev LeftOf : Option (Outcome (Option Error)) → R → List Usr → Type 0
  LeftOf none r rows =
      (es : List Event) × (queue.pending r ≡ es)
      × Reports decode decoder creator es rows
      × All (λ row. Storable (user_of row)) rows
  LeftOf (some result) r rows = (result ≡ returned none) × (rows ≡ [])

  -- The worker has these rows before it: its reader holds reports of them, and maybe errors; or it
  -- has returned nil, and there are none.
  abbrev pub Left : Worker R → List Usr → Type 0
  Left w rows = LeftOf w.result w.reader rows

  abbrev cost_of : Option (Outcome (Option Error)) → R → ℕ
  cost_of none r = suc (length (queue.pending r))
  cost_of (some result) r = 0

  -- The rounds that the worker has before it.
  abbrev pub cost : Worker R → ℕ
  cost w = cost_of w.result w.reader

  -- After a round.
  abbrev pub Moved : List Usr → R → S → Option (Outcome (Option Error)) × World R S → Type 0
  Moved rows r s t =
      (o : Option User) × (left : List Usr) × LeftOf t.0 t.1.reader left
      × Takes o rows left
      × ((id : String) → store.view t.1.store id ≡ put o (store.view s) id)
      × (suc (length (queue.pending r)) ≡ suc (cost_of t.0 t.1.reader))

  pub Left-none :
      (w : Worker R) (rows : List Usr)
      → w.result ≡ none
      → Left w rows
      → (es : List Event) × (queue.pending w.reader ≡ es)
        × Reports decode decoder creator es rows
        × All (λ row. Storable (user_of row)) rows
  Left-none w rows goes_on has = subst (λ o. LeftOf o w.reader rows) goes_on has

  pub cost-none : (w : Worker R) → w.result ≡ none → cost w ≡ suc (length (queue.pending w.reader))
  cost-none w goes_on = ap (λ o. cost_of o w.reader) goes_on

  Left-cases :
      (o : Option (Outcome (Option Error))) (r : R) (rows : List Usr)
      → LeftOf o r rows
      → (o ≡ none) ⊎ ((o ≡ some (returned none)) × (rows ≡ []) × (cost_of o r ≡ 0))
  Left-cases none r rows has = inl refl
  Left-cases (some result) r rows (ended, gone) = inr (ap some ended, gone, refl)

  -- The worker goes on, or it has returned nil and has nothing before it.
  pub Left-Ended :
      (w : Worker R) (rows : List Usr)
      → Left w rows
      → (w.result ≡ none) ⊎ ((w.result ≡ some (returned none)) × (rows ≡ []) × (cost w ≡ 0))
  Left-Ended w rows has = Left-cases w.result w.reader rows has

  module _ (w : Worker R) (s : S) (sink : Sink) where
    abbrev before : World R S
    before = record { reader = w.reader; store = s; sink = sink }

    abbrev inner : Context
    inner =
        span reader queue decoder (processor decode decoder creator) start_span telemetry_enabled
          entity_type destination render ctx before

    abbrev pub rounded : Option (Outcome (Option Error)) × World R S
    rounded =
        round reader decode decoder creator start_span telemetry_enabled entity_type destination
          render ctx w s sink

    LeftOf-none :
        {o : Option (Outcome (Option Error))} (r : R) {es : List Event} (left : List Usr)
        → o ≡ none
        → queue.pending r ≡ es
        → Reports decode decoder creator es left
        → All (λ row. Storable (user_of row)) left
        → LeftOf o r left × (suc (length es) ≡ cost_of o r)
    LeftOf-none r {es} left goes_on waiting reports can =
        rw goes_on ((es, waiting, reports, can), ap (λ l. suc (length l)) (sym waiting))

    LeftOf-some :
        {o : Option (Outcome (Option Error))} (r : R)
        → o ≡ some (returned none)
        → LeftOf o r [] × (0 ≡ cost_of o r)
    LeftOf-some r ended = rw ended ((refl, refl), refl)

    Moved-end : queue.pending w.reader ≡ [] → Moved [] w.reader s rounded
    Moved-end waiting =
        let p = processor decode decoder creator in
        let (ended, stored, _) =
          round-end reader queue decoder p start_span telemetry_enabled entity_type destination
            render ctx before waiting in
        let (left, spent) = LeftOf-some rounded.1.reader ended in
        (
          none,
          [],
          left,
          refl,
          λ id. ap (λ t. store.view t id) stored,
          ap (λ l. suc (length l)) waiting ∙ ap suc spent,
        )

    Moved-hiccup :
        (e : Error) (es : List Event) (rows : List Usr)
        → queue.pending w.reader ≡ hiccup e ∷ es
        → Reports decode decoder creator es rows
        → All (λ row. Storable (user_of row)) rows
        → Moved rows w.reader s rounded
    Moved-hiccup e es rows waiting reports can =
        let p = processor decode decoder creator in
        let (goes_on, stored, pends, _) =
          round-hiccup reader queue decoder p start_span telemetry_enabled entity_type destination
            render ctx before e es waiting in
        let (left, spent) = LeftOf-none rounded.1.reader rows goes_on pends reports can in
        (
          none,
          rows,
          left,
          refl,
          λ id. ap (λ t. store.view t id) stored,
          ap (λ l. suc (length l)) waiting ∙ ap suc spent,
        )

    Moved-delivered :
        (m : _) (es : List Event) (row : Usr) (rows : List Usr)
        → queue.pending w.reader ≡ delivered m ∷ es
        → Reports decode decoder creator (delivered m ∷ es) (row ∷ rows)
        → All (λ row. Storable (user_of row)) (row ∷ rows)
        → Moved (row ∷ rows) w.reader s rounded
    Moved-delivered m es row rows waiting reports can =
        let p = processor decode decoder creator in
        let calm =
          Reports-NoPanic decode decoder creator inner (delivered m ∷ es) (row ∷ rows) reports in
        let (goes_on, stored, pends, _) =
          round-delivered reader queue decoder p start_span telemetry_enabled entity_type
            destination render ctx before m es waiting calm.0 in
        let dealt =
          deal-Added decode decoder creator Storable store inner m row s reports.0 can.0 in
        let (left, spent) = LeftOf-none rounded.1.reader rows goes_on pends reports.1 can.1 in
        (
          some (user_of row),
          rows,
          left,
          (row, refl, refl),
          λ id.
              ap (λ t. store.view t id) (stored ∙ ap (λ d. d.1) dealt)
              ∙ store.create_view inner (user_of row) s id can.0,
          ap (λ l. suc (length l)) waiting ∙ ap suc spent,
        )

    pub Moved-events :
        (es : List Event) (rows : List Usr)
        → queue.pending w.reader ≡ es
        → Reports decode decoder creator es rows
        → All (λ row. Storable (user_of row)) rows
        → Moved rows w.reader s rounded
    Moved-events [] [] waiting reports can = Moved-end waiting
    Moved-events [] (row ∷ rows) waiting reports can = absurd reports
    Moved-events (hiccup e ∷ es) rows waiting reports can =
        Moved-hiccup e es rows waiting reports can
    Moved-events (delivered m ∷ es) [] waiting reports can = absurd reports
    Moved-events (delivered m ∷ es) (row ∷ rows) waiting reports can =
        Moved-delivered m es row rows waiting reports can
