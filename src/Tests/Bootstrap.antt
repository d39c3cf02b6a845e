-- ===== src/Tests/Bootstrap.antt =====
-- The start and the end of the program, and the metrics of its consumers.
use go_api_demo.Prelude.{
  ℕ, ◌≤◌, ◌^◌, ◌≡◌, ◌≢◌, refl, ap, String, Bool, not, ◌&&◌, true, false, none, some, List, [], ◌∷◌,
  ◌⊎◌, inl, length, map, digits, ◌==◌, if◌then◌else◌,
}
use go_api_demo.Prelude.Dict.{lookup}
use go_api_demo.Error.{Outcome, returned, panicked}
use go_api_demo.Effect.{Succeeds}
use go_api_demo.Int.{show, pos, signed}
use go_api_demo.Json.{str, obj, end, member, document, is_field}
use go_api_demo.Config.Lookup.{
  Env, Strconv, get_env_as_int, get_env_as_string, get_env_as_bool, get_env_as_slice_of_strings,
  get_env_as_duration, split,
}
use go_api_demo.Config.{new, Config, ReaderConfig, KafkaConsumer, users_topic}
use go_api_demo.Metrics.{ConsumerMetricsCollector, ReaderStats, no_metrics}
use go_api_demo.Metrics.Laws.{given, expected, counts, wrap, sums, total, counts_lem}
use go_api_demo.Schema.{decode_schema}
use go_api_demo.Bootstrap.{new_app}
use go_api_demo.Bootstrap.Consumers.{endpoint, labels}
use go_api_demo.Bootstrap.Parts.{Kit}
use go_api_demo.Bootstrap.Up.{IsUp, Accepted}
use go_api_demo.Bootstrap.Laws.{AppMade, new_app_lem}
use go_api_demo.Bootstrap.Laws.Close.{Closes, new_app-close}
use go_api_demo.Tests.Fixtures.{render}

-- The world is a list of what was closed; readers are numbered by its length.
abbrev World : Type 0
World = List String

-- What NewReader of kafka-go asks of a configuration for a group, as far as these settings go.
abbrev pub has_names : ReaderConfig → Bool
has_names c = not (c.group_id == "") && not (c.topic == "")

abbrev pub open_reader : Bool → World → Outcome ℕ × World
open_reader true w = (returned (length w), w)
open_reader false w = (panicked "kafka: invalid reader configuration", w)

abbrev pub new_reader : ReaderConfig → World → Outcome ℕ × World
new_reader c w = open_reader (has_names c) w

new_reader-opens : (c : ReaderConfig) → has_names c ≡ true → Succeeds (new_reader c) (λ r. Unit {0})
new_reader-opens c ok w = (length w, w, ap (λ b. open_reader b w) ok, tt)

abbrev pub kit : Kit World String ℕ String String String ℕ
kit = record {
  new_production = λ w. (none, w);
  new_development = λ w. (none, w);
  ping_redis = λ o w. (none, w);
  close_redis = λ w. "redis" ∷ w;
  new_elastic = λ a w. (none, w);
  ping_elastic = λ a w. (none, w);
  register_translations = λ w. (none, w);
  format_dsn = λ c. c.addr;
  sql_open = λ driver dsn w. (inl dsn, w);
  otelsql_open = λ driver dsn w. (inl dsn, w);
  ping_db = λ db w. (none, w);
  close_db = λ db w. db ∷ w;
  kafka = record {
    dial = λ address w. ((some address, none), w);
    controller = λ c w. ((("kafka", 9092), none), w);
    create_topics = λ c conf w. (none, w);
    close = λ c w. w;
  };
  registry = record {
    new_request = λ e. none;
    fetch = λ e w. ((document (obj (member "schema" (str "users") end)), none), w);
    new_codec = λ text. inl text;
    native_from_binary = λ c bytes. (length bytes, none);
    no_data = 0;
    show_value = λ v. "";
  };
  meter = record {
    int64_observable_counter = λ name text w. ((some name, none), w);
    int64_observable_gauge = λ name text w. ((some name, none), w);
    register_callback = λ c is w. (none, w);
  };
  new_reader = new_reader;
  close_reader = λ r w. "reader" ∷ w;
}

pub kit-IsUp : IsUp kit
unfolding decode_schema is_field
kit-IsUp = record {
  production = λ w. refl;
  development = λ w. refl;
  redis = λ o w. refl;
  addresses = λ es. Unit {0};
  elastic = λ es ok w. refl;
  elastic_ping = λ es ok w. refl;
  translations = λ w. refl;
  sql = λ dsn w. (dsn, refl);
  otelsql = λ dsn w. (dsn, refl);
  db = λ db w. refl;
  dial = λ address w. (address, refl);
  controller = λ c w. refl;
  creates = λ conf. conf ≢ [];
  topics = λ c conf ok w. refl;
  is_url = λ e. (e == "") ≡ false;
  request = λ e ok. refl;
  schema = λ e ok w. (_, str "users", _, refl, refl, refl);
  counter = λ text w. refl;
  queue_length = λ text w. refl;
  queue_capacity = λ text w. refl;
  lag = λ text w. refl;
  callback = λ c is w. refl;
  accepts = λ c. has_names c ≡ true;
  reader = new_reader-opens;
}

abbrev consumer : String → ℕ → KafkaConsumer
consumer group num = record {
  reader_config = record {
    brokers = "kafka:9092" ∷ [];
    group_id = group;
    max_bytes = pos 200000;
    max_wait = pos 30000000000;
    rebalance_timeout = pos 30000000000;
    topic = "mysql.go_api_demo.users";
  };
  is_enabled = false;
  num = pos num;
}

-- The settings where only those of Kafka are set: the storage is in memory.
abbrev pub conf : Config
conf = record {
  my_sql = record {
    user = "";
    passwd = "";
    net = "tcp";
    addr = "localhost:3306";
    db_name = "";
    parse_time = true;
    allow_native_passwords = true;
    interpolate_params = true;
  };
  storage = record { type = "memory"; query_timeout = pos 3000000000 };
  redis = record { addr = "localhost:6379"; password = "pass" };
  elasticsearch_addresses = [];
  topic_configs = record { brokers = "kafka:9092" ∷ []; conf = users_topic ∷ [] };
  schema_registry = record {
    endpoints = ("usersValue", "/subjects/mysql.go_api_demo.users-value/versions/1") ∷ [];
    domain = "http://localhost:8081";
    client_timeout = pos 3000000000;
  };
  telemetry = record {
    service_name = "go-api-demo";
    exporter_target_end_point = "0.0.0.0:4317";
    metrics_collection_interval = pos 5000000000;
    enabled = true;
  };
  user_consumer_cache = consumer "cache" 1;
  user_consumer_search = consumer "search" 2;
  logging_production = false;
  http = record { port = pos 3000; read_header_timeout = pos 10000000000 };
  grpc_port = pos 1234;
}

abbrev pub conv : Strconv
conv = record { quote = λ s. s; parse_duration = λ s. (pos 0, none) }

abbrev pub env : Env
env key =
    if key == "KAFKA_BROKERS"
    then some "kafka:9092"
    else if key == "KAFKA_USER_CONSUMER_CACHE_GROUP_ID"
    then some "cache"
    else if key == "KAFKA_USER_CONSUMER_SEARCH_GROUP_ID"
    then some "search"
    else if key == "KAFKA_USER_CONSUMER_CACHE_TOPIC"
    then some "mysql.go_api_demo.users"
    else if key == "KAFKA_USER_CONSUMER_SEARCH_TOPIC"
    then some "mysql.go_api_demo.users"
    else none

pub settings : new conv env ≡ returned conf
unfolding new get_env_as_int get_env_as_string get_env_as_bool get_env_as_slice_of_strings
    get_env_as_duration show split digits
settings = refl

is_schema_url : (endpoint conf == "") ≡ false
unfolding lookup
is_schema_url = refl

pub accepted : Accepted kit kit-IsUp conf
unfolding kit-IsUp
accepted = (refl, refl, tt, λ e. cc, is_schema_url)

new_app_lem_example : Succeeds (new_app kit render conv env) (AppMade kit kit-IsUp render conf)
new_app_lem_example =
    new_app_lem kit kit-IsUp render conf conv env "kafka:9092" [] settings refl accepted

new_app-close_example : Succeeds (new_app kit render conv env) (Closes kit kit-IsUp render conf)
new_app-close_example =
    new_app-close kit kit-IsUp render conf conv env "kafka:9092" [] settings refl accepted

abbrev collector : ConsumerMetricsCollector String
collector = record { metrics = no_metrics; metrics_labels = labels "user" "search" }

abbrev processor : String
processor = "search"

abbrev codec : String
codec = "users"

abbrev rounds : List ReaderStats
rounds =
    record { messages = 3; queue_length = 1; queue_capacity = 100; lag = 0 }
    ∷ record { messages = 4; queue_length = 0; queue_capacity = 100; lag = 0 }
    ∷ []

counts_lem_example :
    (given {I = String} (("consumer", "users-0") ∷ []) rounds no_metrics
      ≡ expected (("consumer", "users-0") ∷ []) no_metrics 0 rounds)
    × (counts {I = String} (("consumer", "users-0") ∷ []) rounds no_metrics
        ≡ map wrap (sums 0 rounds))
    × ((2 ^ 63 ≤ total 0 rounds)
        ⊎ (map signed (counts {I = String} (("consumer", "users-0") ∷ []) rounds no_metrics)
            ≡ map pos (sums 0 rounds)))
counts_lem_example = counts_lem (("consumer", "users-0") ∷ []) rounds no_metrics
