-- ===== src/Bootstrap/Up.antt =====
-- The parts of internal/bootstrap where every service answers and NewReader accepts its settings.
pub mod Services
pub mod Consumers
use mathlib.Core.List.{append-nil}
use go_api_demo.Prelude.{
  ℕ, String, ◌≡◌, refl, ap, sym, ◌∙◌, Bool, Bool-cases, true, false, Option, none, some, List, [],
  ◌∷◌, ◌++◌, ◌⊎◌, inl, inr, length, ◌==◌, eq_iff, if◌then◌else◌, arith,
}
use go_api_demo.Prelude.State.{State}
use go_api_demo.Error.{Error, wrapped, Outcome, returned}
use go_api_demo.Effect.{Effect, go_on, Succeeds}
use go_api_demo.Effect.Fallible.{Fallible, unit_or, Yields, Yields-pure, Yields-bind}
use go_api_demo.Int.{ℤ, pos_part}
use go_api_demo.Config.{
  MySqlConfig, ReaderConfig, RedisOptions, Storage, TopicConfig, TopicConfigs, Config,
  KafkaConsumer, storage_type_sql,
}
use go_api_demo.Json.{Json, Document}
use go_api_demo.Metrics.{Callback, ConsumerMetrics, new_consumer_metrics, register_metrics}
use go_api_demo.Schema.{
  show_schema, decode_schema, keep_codec, get_schema_codec, get_decoder, new_client,
}
use go_api_demo.Topic.{dial_brokers, on_controller, on_broker, dialled, create_topics}
use go_api_demo.Consume.Consumers.{Consumer}
use go_api_demo.Consume.Consumers.Laws.{numbered, new_consumers_lem}
use go_api_demo.Bootstrap.Parts.{
  Kit, Closable, database, UserStorage, in_sql, in_memory, add_closer, checked, prefixed,
  new_logger, sql_db, new_user_storage, ping,
}
use go_api_demo.Bootstrap.Consumers.{
  endpoint, user_decoder, user_consumer_metrics, consumers_for, labels,
}

-- Every service answers: the registry with a schema of which a codec can be made. What a library
-- does with settings is said of those that it accepts: `accepts` of kafka.NewReader, which panics on
-- others, `addresses` of the client of Elasticsearch, `creates` of Kafka for topics, and `is_url` of
-- http.NewRequest.
pub record IsUp {W D R I Conn Codec Data : Type 0} (kit : Kit W D R I Conn Codec Data)
    : Type 1 where
  pub production : (w : W) → (kit.new_production w).0 ≡ none
  pub development : (w : W) → (kit.new_development w).0 ≡ none
  pub redis : (options : RedisOptions) (w : W) → (kit.ping_redis options w).0 ≡ none
  pub addresses : List String → Type 0
  pub elastic : (es : List String) → addresses es → (w : W) → (kit.new_elastic es w).0 ≡ none
  pub elastic_ping : (es : List String) → addresses es → (w : W) → (kit.ping_elastic es w).0 ≡ none
  pub translations : (w : W) → (kit.register_translations w).0 ≡ none
  pub sql : (dsn : String) (w : W) → (db : D) × ((kit.sql_open "mysql" dsn w).0 ≡ inl db)
  pub otelsql : (dsn : String) (w : W) → (db : D) × ((kit.otelsql_open "mysql" dsn w).0 ≡ inl db)
  pub db : (db : D) (w : W) → (kit.ping_db db w).0 ≡ none
  pub dial :
      (address : String) (w : W) → (c : Conn) × ((kit.kafka.dial address w).0 ≡ (some c, none))
  pub controller : (c : Conn) (w : W) → (kit.kafka.controller c w).0.1 ≡ none
  pub creates : List TopicConfig → Type 0
  pub topics :
      (c : Conn) (conf : List TopicConfig)
      → creates conf
      → (w : W) → (kit.kafka.create_topics c conf w).0 ≡ none
  pub is_url : String → Type 0
  pub request : (endpoint : String) → is_url endpoint → kit.registry.new_request endpoint ≡ none
  pub schema :
      (endpoint : String)
      → is_url endpoint
      → (w : W)
      → (body : Document) × (schema : Json) × (codec : Codec) × ((kit.registry.fetch endpoint w).0
          ≡ (body, none))
        × (decode_schema body ≡ inl schema)
        × (kit.registry.new_codec (show_schema kit.registry schema) ≡ inl codec)
  pub counter :
      (text : String) (w : W)
      → (kit.meter.int64_observable_counter "kafka_consumer_messages_total" text w).0.1 ≡ none
  pub queue_length :
      (text : String) (w : W)
      → (kit.meter.int64_observable_gauge "kafka_consumer_queue_length" text w).0.1 ≡ none
  pub queue_capacity :
      (text : String) (w : W)
      → (kit.meter.int64_observable_gauge "kafka_consumer_queue_capacity" text w).0.1 ≡ none
  pub lag :
      (text : String) (w : W)
      → (kit.meter.int64_observable_gauge "kafka_consumer_lag" text w).0.1 ≡ none
  pub callback :
      (c : Callback I R) (is : List (Option I)) (w : W)
      → (kit.meter.register_callback c is w).0 ≡ none
  pub accepts : ReaderConfig → Type 0
  pub reader : (conf : ReaderConfig) → accepts conf → Succeeds (kit.new_reader conf) (λ r. Unit {0})

pub checked-Yields :
    {W : Type 0} (m : State W (Option Error))
    → ((w : W) → (m w).0 ≡ none)
    → Yields (checked m) (λ t. Unit {0})
checked-Yields m fine w =
    (inl tt, (m w).1, ap (λ o. (returned (unit_or o), (m w).1)) (fine w), (tt, refl, tt))

pub add_closer-append : {C : Type 0} (cs ds : List (Option C)) → add_closer cs ds ≡ cs ++ ds
unfolding add_closer
add_closer-append cs [] = sym (append-nil cs)
add_closer-append cs (d ∷ ds) = refl

-- The storage and its closer, for the type of the settings.
abbrev pub StorageOf : {D R : Type 0} → String → ℤ → UserStorage D × Option (Closable D R) → Type 0
StorageOf {D = D} type timeout (storage, closer) =
    ((type ≡ storage_type_sql)
      × (db : D) × (storage ≡ in_sql db timeout)
      × (closer ≡ some (database db)))
    ⊎ ((¬ (type ≡ storage_type_sql)) × (storage ≡ in_memory) × (closer ≡ none))

module _ {W D R I Conn Codec Data : Type 0} (kit : Kit W D R I Conn Codec Data)
    (up : IsUp kit) where
  -- The libraries accept the settings: those of the readers for the cache and for the search, the
  -- addresses of Elasticsearch, the topics, and the address of the schema.
  abbrev pub Accepted : Config → Type 0
  Accepted conf =
      up.accepts conf.user_consumer_cache.reader_config
      × up.accepts conf.user_consumer_search.reader_config
      × up.addresses conf.elasticsearch_addresses
      × up.creates conf.topic_configs.conf
      × up.is_url (endpoint conf)

  pub new_logger-Yields : (prod : Bool) → Yields (new_logger kit prod) (λ t. Unit {0})
  unfolding new_logger
  new_logger-Yields true = checked-Yields kit.new_production up.production
  new_logger-Yields false = checked-Yields kit.new_development up.development

  opened :
      (telemetry_enabled : Bool) (dsn : String) (w : W)
      → (db : D) × (((if telemetry_enabled
              then kit.otelsql_open "mysql" dsn
              else kit.sql_open "mysql" dsn)
            w).0
          ≡ inl db)
  opened true dsn w = up.otelsql dsn w
  opened false dsn w = up.sql dsn w

  prefixed-Yields :
      {A : Type 0} (prefix : String) (m : State W (A ⊎ Error))
      → ((w : W) → (a : A) × ((m w).0 ≡ inl a))
      → Yields (prefixed prefix m) (λ a. Unit {0})
  prefixed-Yields prefix m fine w =
      let (a, e) = fine w in
      (
        inl a,
        (m w).1,
        ap (λ r. (returned (elim r [ inl a ↦ inl a | inr e ↦ inr (wrapped prefix e) ]), (m w).1)) e,
        (a, refl, tt),
      )

  sql_db-Yields :
      (conf : MySqlConfig) (telemetry_enabled : Bool)
      → Yields (sql_db kit conf telemetry_enabled) (λ db. Unit {0})
  unfolding sql_db
  sql_db-Yields conf telemetry_enabled =
      Yields-bind _ (λ db. Unit {0})
        (prefixed-Yields "failed to connect to db" _
          (opened telemetry_enabled (kit.format_dsn conf)))
        _ (λ db. Unit {0})
        (λ db t.
          Yields-bind _ (λ t. Unit {0})
            (prefixed-Yields "failed to ping db" (ping kit db) (λ w. (tt, ap unit_or (up.db db w))))
            _ (λ db. Unit {0}) (λ p t. Yields-pure db (λ db. Unit {0}) tt))

  pub new_user_storage-Yields :
      (my_sql : MySqlConfig) (conf : Storage) (telemetry_enabled : Bool)
      → Yields
          (new_user_storage kit my_sql conf telemetry_enabled)
          (StorageOf conf.type conf.query_timeout)
  unfolding new_user_storage
  new_user_storage-Yields my_sql conf telemetry_enabled =
      elim (Bool-cases (conf.type == storage_type_sql)) [
        | inl is_sql ↦ rw is_sql (
            Yields-bind (sql_db kit my_sql telemetry_enabled) (λ db. Unit {0})
              (sql_db-Yields my_sql telemetry_enabled) _ (StorageOf conf.type conf.query_timeout)
              (λ db t.
                Yields-pure (in_sql db conf.query_timeout, some (database db))
                  (StorageOf conf.type conf.query_timeout)
                  (inl ((eq_iff conf.type storage_type_sql).0 is_sql, db, refl, refl))))
        | inr other ↦ rw other (
            Yields-pure (in_memory, none) (StorageOf conf.type conf.query_timeout)
              (inr (λ e. ground (arith, (eq_iff conf.type storage_type_sql).1 e), refl, refl)))
      ]
