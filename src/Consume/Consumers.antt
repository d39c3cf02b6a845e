-- ===== src/Consume/Consumers.antt =====
-- `NewConsumers` of internal/consume/consumer.go. `kafka.NewReader` is third-party code, and panics
-- on settings that it does not accept: it is the parameter `new_reader`. A consumer has the arguments
-- of `cf` for its consumeFunc.
pub mod Laws
use go_api_demo.Prelude.{
  ℕ, zero, suc, String, ◌<>◌, Bool, Option, none, some, List, [], ◌∷◌, ◌++◌, ◌⊎◌, inl, inr, digits,
}
use go_api_demo.Error.{Error, Outcome, returned, panicked}
use go_api_demo.Effect.{Effect, go_on}
use go_api_demo.Effect.Fallible.{Fallible}
use go_api_demo.Int.{pos_part}
use go_api_demo.Config.{ReaderConfig, KafkaConsumer}
use go_api_demo.Metrics.{ConsumerMetricsLabels, ConsumerMetricsCollector, Meter, register_metrics}

pub record ConsumeFunc : Type 0 where
  pub telemetry_enabled : Bool
  pub entity_type : String
  pub destination : String

pub record Consumer (R P D : Type 0) : Type 0 where
  pub reader : R
  pub consume_func : ConsumeFunc
  pub processor : P
  pub group_id : String
  pub decoder : D

module _ {W I R P D : Type 0} (meter : Meter W I R) (new_reader : ReaderConfig → Effect W R)
    (conf : KafkaConsumer) (telemetry_enabled : Bool) (labels : ConsumerMetricsLabels)
    (collector : ConsumerMetricsCollector I) (processor : P) (decoder : D) where
  -- The consumer of the i-th round of the loop.
  abbrev pub consumer : R → ℕ → Consumer R P D
  consumer reader i = record {
    reader = reader;
    consume_func = record {
      telemetry_enabled = telemetry_enabled;
      entity_type = labels.entity_type;
      destination = labels.destination;
    };
    processor = processor;
    group_id = conf.reader_config.group_id <> "-" <> digits i;
    decoder = decoder;
  }

  -- On from `RegisterMetrics`.
  abbrev pub on_registered :
      Fallible W (List (Consumer R P D) × List R)
      → Option Error × W
      → Outcome ((List (Consumer R P D) × List R) ⊎ Error) × W
  on_registered next (some e, w) = (returned (inr e), w)
  on_registered next (none, w) = next w

  -- The loop, with `n` rounds to go, from `i` on.
  unfoldable pub consumers_from :
      ℕ → ℕ → List (Consumer R P D) → List R → Fallible W (List (Consumer R P D) × List R)
  consumers_from zero i consumers closers w = (returned (inl (consumers, closers)), w)
  consumers_from (suc n) i consumers closers w =
      go_on
        (λ reader w1.
          on_registered
            (consumers_from n (suc i) (consumers ++ consumer reader i ∷ [])
              (closers ++ reader ∷ []))
            (register_metrics meter collector telemetry_enabled reader (consumer reader i).group_id
              w1))
        (new_reader conf.reader_config w)

  unfoldable pub new_consumers : Fallible W (List (Consumer R P D) × List R)
  unfolding consumers_from
  new_consumers = consumers_from (pos_part conf.num) 0 [] []
