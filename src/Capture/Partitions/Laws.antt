-- ===== src/Capture/Partitions/Laws.antt =====
-- On the consumers of one group, for any number of them and any interleaving.
use mathlib.Core.Path.{subst}
use go_api_demo.Prelude.{
  ℕ, suc, ◌+◌, String, ◌≡◌, ◌⊎◌, inl, inr, refl, ap, sym, ◌∙◌, Bool, Option, none, some, List, [],
  ◌∷◌, ◌++◌, map, All, arith,
}
use go_api_demo.Error.{Error, Outcome, returned}
use go_api_demo.Context.{Context}
use go_api_demo.Log.{Sink}
use go_api_demo.User.{User, Creator}
use go_api_demo.Consume.{KafkaReader, Decoder, World}
use go_api_demo.Consume.Run.{IsQueue}
use go_api_demo.Processor.{Usr, BeforeAfter}
use go_api_demo.Processor.Laws.{user_of}
use go_api_demo.Storage.Memory.Laws.{stored}
use go_api_demo.Capture.{IsUserStore}
use go_api_demo.Capture.Laws.{over_last}
use go_api_demo.Capture.Again.{stored-append}
use go_api_demo.Capture.Partitions.Keyed.{
  users_of, Keyed, From, From-weaken, put-stored, Takes-stored,
}
use go_api_demo.Capture.Partitions.Round.{
  put, Left, cost, Moved-events, Left-none, Left-Ended, cost-none,
}
use go_api_demo.Capture.Partitions.{Worker, Group, round, Step, step, Steps, here, next}

module _ {R S Data : Type 0} (reader : KafkaReader R) (queue : IsQueue reader)
    (decode : Data → BeforeAfter × Option Error) (decoder : Decoder Data) (creator : Creator S)
    (Storable : User → Type 0) (store : IsUserStore creator Storable)
    (start_span : Context → String → Context) (telemetry_enabled : Bool)
    (entity_type destination : String) (render : Error → String) (ctx : Context)
    (partition : String → ℕ) where
  abbrev LeftAt : Worker R → List Usr → Type 0
  LeftAt =
      Left reader queue decode decoder creator Storable store start_span telemetry_enabled
        entity_type destination render ctx

  abbrev cost_at : Worker R → ℕ
  cost_at =
      cost reader queue decode decoder creator Storable store start_span telemetry_enabled
        entity_type destination render ctx

  abbrev StepOf : Group R S → Group R S → Type 0
  StepOf =
      Step reader decode decoder creator start_span telemetry_enabled entity_type destination render
        ctx

  abbrev StepsOf : Group R S → ℕ → Group R S → Type 0
  StepsOf =
      Steps reader decode decoder creator start_span telemetry_enabled entity_type destination
        render ctx

  -- Each worker has its list of rows before it.
  abbrev pub Waits : List (Worker R) → List (List Usr) → Type 0
  Waits [] [] = Unit
  Waits [] (rows ∷ more) = ⊥
  Waits (w ∷ ws) [] = ⊥
  Waits (w ∷ ws) (rows ∷ more) = LeftAt w rows × Waits ws more

  -- The rounds that the workers have before them.
  abbrev pub budget : List (Worker R) → ℕ
  budget [] = 0
  budget (w ∷ ws) = cost_at w + budget ws

  -- From the view `v` to the view `v'`, the workers `ws` became `ws'`.
  abbrev Advanced : ℕ → List (Worker R) → List (List Usr) → List (Worker R) → Option User → Type 0
  Advanced i ws rowss ws' o =
      (left : List (List Usr)) × Waits ws' left
      × Keyed partition i left
      × From partition i o
      × ((v : String → Option User) (id : String)
          → stored (users_of left) (put o v) id ≡ stored (users_of rowss) v id)
      × (budget ws ≡ suc (budget ws'))

  Advanced-cons :
      (i : ℕ) (x : Worker R) (ws ws' : List (Worker R)) (rows : List Usr) (more : List (List Usr))
      (o : Option User)
      → LeftAt x rows
      → All (λ (row : Usr). partition row.id ≡ i) rows
      → Advanced (suc i) ws more ws' o
      → Advanced i (x ∷ ws) (rows ∷ more) (x ∷ ws') o
  Advanced-cons i x ws ws' rows more o has keyed (left, waits, keys, from, same, spent) = (
    rows ∷ left,
    (has, waits),
    (keyed, keys),
    From-weaken partition i o from,
    λ v id.
        sym (stored-append (map user_of rows) (users_of left) (put o v) id)
        ∙ ap (over_last id (users_of left)) (put-stored partition i o from rows keyed v id)
        ∙ same (stored (map user_of rows) v) id
        ∙ stored-append (map user_of rows) (users_of more) v id,
    omega (arith, spent),
  )

  module _ (s : S) (sink : Sink) where
    abbrev rounded_at : Worker R → Option (Outcome (Option Error)) × World R S
    rounded_at w =
        round reader decode decoder creator start_span telemetry_enabled entity_type destination
          render ctx w s sink

    abbrev after_round : Worker R → Worker R
    after_round w = record { reader = (rounded_at w).1.reader; result = (rounded_at w).0 }

    -- What a round of the worker `w` does, beside others.
    abbrev MovesOn : ℕ → List (Worker R) → List (List Usr) → List (Worker R) → Worker R → Type 0
    MovesOn i ws rowss ws' w =
        (o : Option User) × Advanced i ws rowss ws' o
        × ((id : String) → store.view (rounded_at w).1.store id ≡ put o (store.view s) id)

    moves_worker :
        (i : ℕ) (w : Worker R) (ys : List (Worker R)) (rows : List Usr) (more : List (List Usr))
        → w.result ≡ none
        → LeftAt w rows
        → Waits ys more
        → All (λ (row : Usr). partition row.id ≡ i) rows
        → Keyed partition (suc i) more
        → MovesOn i (w ∷ ys) (rows ∷ more) (after_round w ∷ ys) w
    moves_worker i w ys rows more goes_on has waits keyed keys =
        let (es, waiting, reports, can) =
          Left-none reader queue decode decoder creator Storable store start_span telemetry_enabled
            entity_type destination render ctx w rows goes_on has in
        let (o, left, has', takes, views, spent) =
          Moved-events reader queue decode decoder creator Storable store start_span
            telemetry_enabled entity_type destination render ctx w s sink es rows waiting reports
            can in
        let (keyed', from, same) = Takes-stored partition i o rows left takes keyed in
        let costs =
          cost-none reader queue decode decoder creator Storable store start_span telemetry_enabled
            entity_type destination render ctx w goes_on in
        (
          o,
          (
            left ∷ more,
            (has', waits),
            (keyed', keys),
            from,
            same (users_of more),
            omega (arith, costs, spent),
          ),
          views,
        )

    moves :
        (i : ℕ) (xs : List (Worker R)) (w : Worker R) (ys : List (Worker R))
        (rowss : List (List Usr))
        → w.result ≡ none
        → Waits (xs ++ (w ∷ ys)) rowss
        → Keyed partition i rowss
        → MovesOn i (xs ++ (w ∷ ys)) rowss (xs ++ (after_round w ∷ ys)) w
    moves i [] w ys [] goes_on waits keys = absurd waits
    moves i [] w ys (rows ∷ more) goes_on waits keys =
        moves_worker i w ys rows more goes_on waits.0 waits.1 keys.0 keys.1
    moves i (x ∷ xs) w ys [] goes_on waits keys = absurd waits
    moves i (x ∷ xs) w ys (rows ∷ more) goes_on waits keys =
        let (o, advanced, views) = moves (suc i) xs w ys more goes_on waits.1 keys.1 in
        (
          o,
          Advanced-cons i x (xs ++ (w ∷ ys)) (xs ++ (after_round w ∷ ys)) rows more o waits.0 keys.0
              advanced,
          views,
        )

  module _ (rowss : List (List Usr)) (start : Group R S) where
    -- What is left gives, with the store, what all rows give with the store at the start.
    abbrev Holds : ℕ → Group R S → Type 0
    Holds n g =
        (left : List (List Usr)) × Waits g.workers left
        × Keyed partition 0 left
        × ((id : String)
            → stored (users_of left) (store.view g.store) id
              ≡ stored (users_of rowss) (store.view start.store) id)
        × (n + budget g.workers ≡ budget start.workers)

    Step-Holds : (n : ℕ) {g h : Group R S} → StepOf g h → Holds n g → Holds (suc n) h
    Step-Holds n {g} (step xs w ys is goes_on) (left, waits, keys, same, spent) =
        let (o, (left', waits', keys', _, same', spent'), views) =
          moves g.store g.sink 0 xs w ys left goes_on (subst (λ l. Waits l left) is waits) keys in
        (
          left',
          waits',
          keys',
          λ id.
              ap (over_last id (users_of left')) (views id)
              ∙ same' (store.view g.store) id
              ∙ same id,
          omega (arith, spent, spent', ap budget is),
        )

    Steps-Holds :
        {n : ℕ} {g : Group R S}
        → Waits start.workers rowss
        → Keyed partition 0 rowss
        → StepsOf start n g
        → Holds n g
    Steps-Holds waits keys here = (rowss, waits, keys, (λ id. refl), omega arith)
    Steps-Holds waits keys (next {n} steps last) = Step-Holds n last (Steps-Holds waits keys steps)

    -- The worker has returned nil.
    abbrev pub Ended : Worker R → Type 0
    Ended w = w.result ≡ some (returned none)

    -- A worker has not returned, or all have, and no rows are left.
    next_worker :
        (ws : List (Worker R)) (left : List (List Usr))
        → Waits ws left
        → ((xs : List (Worker R)) × (w : Worker R) × (ys : List (Worker R)) × (ws ≡ xs ++ (w ∷ ys))
            × (w.result ≡ none))
          ⊎ (All Ended ws × (users_of left ≡ []) × (budget ws ≡ 0))
    next_worker [] [] waits = inr (tt, refl, refl)
    next_worker [] (rows ∷ more) waits = absurd waits
    next_worker (w ∷ ws) [] waits = absurd waits
    next_worker (w ∷ ws) (rows ∷ more) (has, waits) =
        elim (Left-Ended reader queue decode decoder creator Storable store start_span
          telemetry_enabled entity_type destination render ctx w rows has) [
            | inl goes_on ↦ inl ([], w, ws, refl, goes_on)
            | inr (ended, gone, free) ↦ elim (next_worker ws more waits) [
              | inl (xs, v, ys, is, goes_on) ↦ inl (w ∷ xs, v, ys, ap (λ l. w ∷ l) is, goes_on)
              | inr (all, none_left, none_due) ↦ inr (
                (ended, all),
                ap (λ l. map user_of l ++ users_of more) gone ∙ none_left,
                omega (arith, free, none_due),
              )
            ]
          ]

    -- Any number of consumers, each with a list of added rows before it, where the rows of one id are
    -- all in one list: they end, after as many rounds as their readers hold events and one for each
    -- consumer, in whatever order the rounds come. Until then there is a next round; then all have
    -- returned nil, and the store has for each id the user of the last of the rows with that id, and
    -- where there is none what it had before.
    pub partitions_lem :
        Waits start.workers rowss
        → Keyed partition 0 rowss
        → (n : ℕ) (g : Group R S) → StepsOf start n g
        → (n + budget g.workers ≡ budget start.workers)
          × (((h : Group R S) × StepOf g h)
              ⊎ (All Ended g.workers
                  × (n ≡ budget start.workers)
                  × ((id : String)
                      → store.view g.store id
                        ≡ stored (users_of rowss) (store.view start.store) id)))
    partitions_lem waits keys n g steps =
        let (left, waits', keys', same, spent) = Steps-Holds waits keys steps in
        (
          spent,
          elim (next_worker g.workers left waits') [
            | inl (xs, w, ys, is, goes_on) ↦ inl (_, step xs w ys is goes_on)
            | inr (ended, none_left, none_due) ↦ inr (
              ended,
              omega (arith, spent, none_due),
              λ id. ap (λ us. stored us (store.view g.store) id) (sym none_left) ∙ same id,
            )
          ],
        )
