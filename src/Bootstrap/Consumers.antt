-- ===== src/Bootstrap/Consumers.antt =====
-- `newConsumers` of internal/bootstrap/consumer.go.
use go_api_demo.Prelude.{String, ◌<>◌, Bool, Option, none, some, List, [], ◌++◌, inl, inr, map}
use go_api_demo.Prelude.Dict.{lookup}
use go_api_demo.Error.{returned}
use go_api_demo.Effect.Fallible.{Fallible, pure, ◌>>=◌}
use go_api_demo.Config.{Config, KafkaConsumer}
use go_api_demo.Consume.Consumers.{Consumer, new_consumers}
use go_api_demo.Metrics.{ConsumerMetrics, ConsumerMetricsLabels, new_consumer_metrics}
use go_api_demo.Schema.{new_client, get_decoder}
use go_api_demo.Topic.{create_topics}
use go_api_demo.Bootstrap.Parts.{
  Kit, UserCache, UserSearch, Closable, reader, Component, consumer_cache, consumer_search,
  add_closer, or_panic, lift, lift_error,
}

-- NewConsumerMetricsLabels
abbrev pub labels : String → String → ConsumerMetricsLabels
labels entity_type destination = record { entity_type = entity_type; destination = destination }

-- A key that is not there has the empty text.
abbrev pub endpoint : Config → String
endpoint conf =
    conf.schema_registry.domain
    <> (elim (lookup "usersValue" conf.schema_registry.endpoints) [ none ↦ "" | some e ↦ e ])

module _ {W D R I Conn Codec Data : Type 0} (kit : Kit W D R I Conn Codec Data) where
  -- The decoder, by a new client.
  abbrev pub user_decoder : Config → Fallible W Codec
  user_decoder conf w =
      let (codec, c) = get_decoder kit.registry (endpoint conf) (new_client kit.registry w) in
      (returned codec, c.http)

  abbrev pub user_consumer_metrics : Bool → Fallible W (ConsumerMetrics I)
  user_consumer_metrics telemetry_enabled w =
      let ((m, err), w') = new_consumer_metrics kit.meter telemetry_enabled w in
      (returned (elim err [ none ↦ inl m | some e ↦ inr e ]), w')

  -- The call of NewConsumers for one destination.
  abbrev pub consumers_for :
      {P : Type 0}
      → Config
      → KafkaConsumer
      → String
      → ConsumerMetrics I
      → P
      → Codec
      → Fallible W (List (Consumer R P Codec) × List R)
  consumers_for conf settings destination metrics processor decoder =
      new_consumers kit.meter kit.new_reader settings conf.telemetry.enabled
        (labels "user" destination)
        (record { metrics = metrics; metrics_labels = labels "user" destination }) processor decoder

  abbrev pub as_closers : List R → List (Option (Closable D R))
  as_closers rs = map (λ r. some (reader r)) rs

  unfoldable pub new_user_consumers :
      Config
      → UserCache
      → UserSearch
      → Fallible W (List (Component D R Codec) × List (Option (Closable D R)))
  new_user_consumers conf user_cache user_search = do
    created ← lift_error (create_topics kit.kafka conf.topic_configs)
    decoder ← user_decoder conf
    metrics ← lift (or_panic (user_consumer_metrics conf.telemetry.enabled))
    cache ← consumers_for conf conf.user_consumer_cache "cache" metrics user_cache decoder
    search ← consumers_for conf conf.user_consumer_search "search" metrics user_search decoder
    pure (
      map consumer_cache cache.0 ++ map consumer_search search.0,
      add_closer (add_closer [] (as_closers cache.1)) (as_closers search.1),
    )
