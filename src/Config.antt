-- ===== src/Config.antt =====
-- internal/config/config.go: the program's settings, read from the environment. `Env` is the
-- environment after `godotenv.Load`, as `os.LookupEnv` finds it. A value that does not parse makes
-- the code panic. Durations are nanoseconds. Only the fields of the libraries' structs that the code
-- sets are here.
pub mod Lookup
pub mod Laws
pub mod Converse
use go_api_demo.Prelude.{ℕ, ◌*◌, String, ◌<>◌, Bool, true, false, List, [], ◌∷◌}
use go_api_demo.Prelude.Dict.{Dict}
use go_api_demo.Error.{Outcome, returned, ◌>>=◌}
use go_api_demo.Int.{ℤ, pos, show}
use go_api_demo.Config.Lookup.{
  Env, Strconv, get_env_as_int, get_env_as_string, get_env_as_bool, get_env_as_slice_of_strings,
  get_env_as_duration,
}

pub record MySqlConfig : Type 0 where
  pub user : String
  pub passwd : String
  pub net : String
  pub addr : String
  pub db_name : String
  pub parse_time : Bool
  pub allow_native_passwords : Bool
  pub interpolate_params : Bool

pub record Storage : Type 0 where
  pub type : String
  pub query_timeout : ℤ

pub record Telemetry : Type 0 where
  pub service_name : String
  pub exporter_target_end_point : String
  pub metrics_collection_interval : ℤ
  pub enabled : Bool

pub record ReaderConfig : Type 0 where
  pub brokers : List String
  pub group_id : String
  pub max_bytes : ℤ
  pub max_wait : ℤ
  pub rebalance_timeout : ℤ
  pub topic : String

pub record KafkaConsumer : Type 0 where
  pub reader_config : ReaderConfig
  pub is_enabled : Bool
  pub num : ℤ

pub record TopicConfig : Type 0 where
  pub topic : String
  pub num_partitions : ℕ
  pub replication_factor : ℕ
  pub config_entries : List (String × String)

pub record TopicConfigs : Type 0 where
  pub brokers : List String
  pub conf : List TopicConfig

pub record SchemaRegistry : Type 0 where
  pub endpoints : Dict String
  pub domain : String
  pub client_timeout : ℤ

pub record Http : Type 0 where
  pub port : ℤ
  pub read_header_timeout : ℤ

pub record RedisOptions : Type 0 where
  pub addr : String
  pub password : String

pub record Config : Type 0 where
  pub my_sql : MySqlConfig
  pub storage : Storage
  pub redis : RedisOptions
  pub elasticsearch_addresses : List String
  pub topic_configs : TopicConfigs
  pub schema_registry : SchemaRegistry
  pub telemetry : Telemetry
  pub user_consumer_cache : KafkaConsumer
  pub user_consumer_search : KafkaConsumer
  pub logging_production : Bool
  pub http : Http
  pub grpc_port : ℤ

abbrev pub storage_type_memory : String
storage_type_memory = "memory"

abbrev pub storage_type_sql : String
storage_type_sql = "sql"

abbrev pub seconds : ℕ → ℤ
seconds n = pos (n * 1000000000)

abbrev pub users_topic : TopicConfig
users_topic = record {
  topic = "mysql.go_api_demo.users";
  num_partitions = 2;
  replication_factor = 1;
  config_entries = ("cleanup.policy", "compact") ∷ ("compression.type", "producer") ∷ [];
}

module _ (conv : Strconv) (env : Env) where
  unfoldable pub my_sql_config : Outcome MySqlConfig
  my_sql_config = do
    port ← get_env_as_int conv env "MYSQL_PORT" (pos 3306)
    returned (record {
      user = get_env_as_string env "MYSQL_USER" "";
      passwd = get_env_as_string env "MYSQL_PASSWORD" "";
      net = "tcp";
      addr = get_env_as_string env "MYSQL_HOST" "localhost" <> ":" <> show port;
      db_name = get_env_as_string env "MYSQL_DBNAME" "";
      parse_time = true;
      allow_native_passwords = true;
      interpolate_params = true;
    })

  unfoldable pub storage_config : Outcome Storage
  storage_config = do
    timeout ← get_env_as_duration conv env "STORAGE_QUERY_TIMEOUT" (seconds 3)
    returned (record {
      type = get_env_as_string env "STORAGE_TYPE" storage_type_memory;
      query_timeout = timeout;
    })

  unfoldable pub telemetry_config : Outcome Telemetry
  telemetry_config = do
    interval ← get_env_as_duration conv env "TELEMETRY_METRICS_COLLECTION_INTERVAL" (seconds 5)
    enabled ← get_env_as_bool conv env "TELEMETRY_ENABLED" true
    returned (record {
      service_name = get_env_as_string env "TELEMETRY_SERVICE_NAME" "go-api-demo";
      exporter_target_end_point =
          get_env_as_string env "TELEMETRY_EXPORTER_TARGET_ENDPOINT" "0.0.0.0:4317";
      metrics_collection_interval = interval;
      enabled = enabled;
    })

  abbrev pub brokers : List String
  brokers = get_env_as_slice_of_strings env "KAFKA_BROKERS" "," []

  -- The two consumers differ in the prefix of their keys and in the default of `Num`.
  unfoldable pub kafka_consumer : String → ℕ → Outcome KafkaConsumer
  kafka_consumer prefix num = do
    max_bytes ← get_env_as_int conv env (prefix <> "_MAX_BYTES") (pos 200000)
    max_wait ← get_env_as_duration conv env (prefix <> "_MAX_WAIT") (seconds 30)
    rebalance ← get_env_as_duration conv env (prefix <> "_REBALANCE_TIMEOUT") (seconds 30)
    enabled ← get_env_as_bool conv env (prefix <> "_IS_ENABLED") false
    consumers ← get_env_as_int conv env (prefix <> "_NUM") (pos num)
    returned (record {
      reader_config = record {
        brokers = brokers;
        group_id = get_env_as_string env (prefix <> "_GROUP_ID") "";
        max_bytes = max_bytes;
        max_wait = max_wait;
        rebalance_timeout = rebalance;
        topic = get_env_as_string env (prefix <> "_TOPIC") "";
      };
      is_enabled = enabled;
      num = consumers;
    })

  unfoldable pub schema_registry_config : Outcome SchemaRegistry
  schema_registry_config = do
    timeout ← get_env_as_duration conv env "KAFKA_SCHEMA_REGISTRY_CLIENT_TIMEOUT" (seconds 3)
    returned (record {
      client_timeout = timeout;
      domain =
          get_env_as_string env "KAFKA_SCHEMA_REGISTRY_PROTOCOL" "http"
          <> "://"
          <> get_env_as_string env "KAFKA_SCHEMA_REGISTRY_DOMAIN" "localhost"
          <> ":"
          <> get_env_as_string env "KAFKA_SCHEMA_REGISTRY_PORT" "8081";
      endpoints =
          (
            "usersValue",
            "/subjects/"
                <> get_env_as_string env "KAFKA_SCHEMA_REGISTRY_USERS_VALUE"
                    "mysql.go_api_demo.users-value"
                <> "/versions/"
                <> get_env_as_string env "KAFKA_SCHEMA_REGISTRY_USERS_VALUE_VERSION" "1",
          )
          ∷ [];
    })

  unfoldable pub http_config : Outcome Http
  http_config = do
    port ← get_env_as_int conv env "HTTP_PORT" (pos 3000)
    header_timeout ← get_env_as_duration conv env "HTTP_READ_HEADER_TIMEOUT" (seconds 10)
    returned (record { port = port; read_header_timeout = header_timeout })

  unfoldable pub redis_options : Outcome RedisOptions
  redis_options = do
    port ← get_env_as_int conv env "REDIS_PORT" (pos 6379)
    returned (record {
      addr = get_env_as_string env "REDIS_HOST" "localhost" <> ":" <> show port;
      password = get_env_as_string env "REDIS_PASSWORD" "pass";
    })

  unfoldable pub new : Outcome Config
  unfolding my_sql_config storage_config telemetry_config kafka_consumer schema_registry_config
      http_config redis_options
  new = do
    my_sql ← my_sql_config
    storage ← storage_config
    telemetry ← telemetry_config
    production ← get_env_as_bool conv env "LOGGING_PRODUCTION" false
    cache ← kafka_consumer "KAFKA_USER_CONSUMER_CACHE" 1
    search ← kafka_consumer "KAFKA_USER_CONSUMER_SEARCH" 2
    registry ← schema_registry_config
    http ← http_config
    grpc_port ← get_env_as_int conv env "GRPC_PORT" (pos 1234)
    redis ← redis_options
    returned (record {
      my_sql = my_sql;
      storage = storage;
      redis = redis;
      elasticsearch_addresses = get_env_as_slice_of_strings env "ELASTICSEARCH_ADDRESSES" "," [];
      topic_configs = record { brokers = brokers; conf = users_topic ∷ [] };
      schema_registry = registry;
      telemetry = telemetry;
      user_consumer_cache = cache;
      user_consumer_search = search;
      logging_production = production;
      http = http;
      grpc_port = grpc_port;
    })
