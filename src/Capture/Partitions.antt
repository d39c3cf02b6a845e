-- ===== src/Capture/Partitions.antt =====
-- The consumers of one group over one store: each is a goroutine that runs internal/consume/consumer.go
-- on a reader of its own, and Kafka keeps the messages of one row, which have one key, in one
-- partition, and so at one consumer. Rounds of the loops interleave in any order; what a round does
-- to the store is one call of it.
pub mod Round
pub mod Keyed
pub mod Laws
use go_api_demo.Prelude.{ℕ, zero, suc, String, ◌≡◌, Bool, Option, none, some, List, [], ◌∷◌, ◌++◌}
use go_api_demo.Error.{Error, Outcome}
use go_api_demo.Log.{Sink}
use go_api_demo.Context.{Context}
use go_api_demo.User.{Creator}
use go_api_demo.Consume.{KafkaReader, Decoder, World, cf, run}
use go_api_demo.Processor.{BeforeAfter}
use go_api_demo.Capture.{processor}

-- A goroutine: its reader, and what its `Run` has returned, if it has.
pub record Worker (R : Type 0) : Type 0 where
  pub reader : R
  pub result : Option (Outcome (Option Error))

-- The goroutines, the store and the log, which they share.
pub record Group (R S : Type 0) : Type 0 where
  pub workers : List (Worker R)
  pub store : S
  pub sink : Sink

module _ {R S Data : Type 0} (reader : KafkaReader R) (decode : Data → BeforeAfter × Option Error)
    (decoder : Decoder Data) (creator : Creator S) (start_span : Context → String → Context)
    (telemetry_enabled : Bool) (entity_type destination : String) (render : Error → String)
    (ctx : Context) where
  -- A worker's next round of `Run`.
  abbrev pub round : Worker R → S → Sink → Option (Outcome (Option Error)) × World R S
  round w s sink =
      run reader decoder (processor decode decoder creator) render
        (cf reader decoder (processor decode decoder creator) start_span telemetry_enabled
          entity_type destination)
        1 ctx (record { reader = w.reader; store = s; sink = sink })

  pub data Step (g : Group R S) : Group R S → Type 0 where
    step :
        (xs : List (Worker R)) (w : Worker R) (ys : List (Worker R))
        → g.workers ≡ xs ++ (w ∷ ys)
        → w.result ≡ none
        → Step g (record {
          workers =
              xs
              ++ (record {
                reader = (round w g.store g.sink).1.reader;
                result = (round w g.store g.sink).0;
              }
                  ∷ ys);
          store = (round w g.store g.sink).1.store;
          sink = (round w g.store g.sink).1.sink;
        })

  -- `n` steps.
  pub data Steps (g : Group R S) : ℕ → Group R S → Type 0 where
    here : Steps g zero g
    next : {n : ℕ} {h i : Group R S} → Steps g n h → Step h i → Steps g (suc n) i
