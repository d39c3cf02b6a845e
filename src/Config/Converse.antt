-- ===== src/Config/Converse.antt =====
-- `New` of internal/config/config.go returns only where all variables parse.
use go_api_demo.Prelude.{ℕ, String, ◌<>◌, ◌≡◌, ◌↔◌, refl, ◌⊎◌, inl, inr, Bool, Option-cases, arith}
use go_api_demo.Error.{Outcome, Outcome-cases, returned, panicked, ◌>>=◌}
use go_api_demo.Int.Atoi.{atoi}
use go_api_demo.Int.{ℤ}
use go_api_demo.Config.{
  Config, KafkaConsumer, MySqlConfig, Storage, Telemetry, SchemaRegistry, Http, RedisOptions,
  my_sql_config, storage_config, telemetry_config, kafka_consumer, schema_registry_config,
  http_config, redis_options, new,
}
use go_api_demo.Config.Lookup.{
  Env, Strconv, parse_bool, get_env_as_int, get_env_as_bool, get_env_as_duration,
}
use go_api_demo.Config.Laws.{
  ReturnsWith, IsInt, IsBool, IsDuration, IsConsumer, Parses, Agree, new_lem,
}

module _ {A B : Type 0} where
  -- Where the whole returns, so does its first part.
  bind-returned :
      (m : Outcome A) (f : A → Outcome B) {b : B}
      → m >>= f ≡ returned b
      → (a : A) × (m ≡ returned a) × (f a ≡ returned b)
  bind-returned (returned a) f e = (a, refl, e)
  bind-returned (panicked text) f e = absurd (ground arith)

sum-cases : {A B : Type 0} (s : A ⊎ B) → ((a : A) × (s ≡ inl a)) ⊎ ((b : B) × (s ≡ inr b))
sum-cases (inl a) = inl (a, refl)
sum-cases (inr b) = inr (b, refl)

module _ (conv : Strconv) (env : Env) where
  number-IsInt :
      (key : String) (n : ℤ) {m : ℤ}
      → get_env_as_int conv env key n ≡ returned m
      → IsInt conv env key
  unfolding get_env_as_int
  number-IsInt key n e val set = elim (sum-cases (atoi val)) [
    | inl (k, good) ↦ (k, good)
    | inr (err, bad) ↦ absurd (ground (arith, e, set, bad))
  ]

  flag-IsBool :
      (key : String) (b : Bool) {c : Bool}
      → get_env_as_bool conv env key b ≡ returned c
      → IsBool conv env key
  unfolding get_env_as_bool
  flag-IsBool key b e val set = elim (Option-cases (parse_bool val)) [
    | inr (k, good) ↦ (k, good)
    | inl bad ↦ absurd (ground (arith, e, set, bad))
  ]

  timeout-IsDuration :
      (key : String) (d : ℤ) {c : ℤ}
      → get_env_as_duration conv env key d ≡ returned c
      → IsDuration conv env key
  unfolding get_env_as_duration
  timeout-IsDuration key d e val set = elim (Option-cases (conv.parse_duration val).1) [
    | inl good ↦ good
    | inr (err, bad) ↦ absurd (ground (arith, e, set, bad))
  ]

  kafka-IsConsumer :
      (prefix : String) (n : ℕ) {c : KafkaConsumer}
      → kafka_consumer conv env prefix n ≡ returned c
      → IsConsumer conv env prefix
  unfolding kafka_consumer
  kafka-IsConsumer prefix n e =
      let (_, b, e) = bind-returned _ _ e in
      let (_, w, e) = bind-returned _ _ e in
      let (_, r, e) = bind-returned _ _ e in
      let (_, i, e) = bind-returned _ _ e in
      let (_, k, e) = bind-returned _ _ e in
      (
        number-IsInt (prefix <> "_MAX_BYTES") _ b,
        timeout-IsDuration (prefix <> "_MAX_WAIT") _ w,
        timeout-IsDuration (prefix <> "_REBALANCE_TIMEOUT") _ r,
        flag-IsBool (prefix <> "_IS_ENABLED") _ i,
        number-IsInt (prefix <> "_NUM") _ k,
      )

  my_sql-IsInt :
      {c : MySqlConfig} → my_sql_config conv env ≡ returned c → IsInt conv env "MYSQL_PORT"
  unfolding my_sql_config
  my_sql-IsInt e = let (_, port, _) = bind-returned _ _ e in number-IsInt "MYSQL_PORT" _ port

  storage-IsDuration :
      {c : Storage}
      → storage_config conv env ≡ returned c
      → IsDuration conv env "STORAGE_QUERY_TIMEOUT"
  unfolding storage_config
  storage-IsDuration e =
      let (_, timeout, _) = bind-returned _ _ e in
      timeout-IsDuration "STORAGE_QUERY_TIMEOUT" _ timeout

  telemetry-parses :
      {c : Telemetry}
      → telemetry_config conv env ≡ returned c
      → IsDuration conv env "TELEMETRY_METRICS_COLLECTION_INTERVAL"
        × IsBool conv env "TELEMETRY_ENABLED"
  unfolding telemetry_config
  telemetry-parses e =
      let (_, interval, rest) = bind-returned _ _ e in
      let (_, enabled, _) = bind-returned _ _ rest in
      (
        timeout-IsDuration "TELEMETRY_METRICS_COLLECTION_INTERVAL" _ interval,
        flag-IsBool "TELEMETRY_ENABLED" _ enabled,
      )

  schema_registry-IsDuration :
      {c : SchemaRegistry}
      → schema_registry_config conv env ≡ returned c
      → IsDuration conv env "KAFKA_SCHEMA_REGISTRY_CLIENT_TIMEOUT"
  unfolding schema_registry_config
  schema_registry-IsDuration e =
      let (_, timeout, _) = bind-returned _ _ e in
      timeout-IsDuration "KAFKA_SCHEMA_REGISTRY_CLIENT_TIMEOUT" _ timeout

  http-parses :
      {c : Http}
      → http_config conv env ≡ returned c
      → IsInt conv env "HTTP_PORT" × IsDuration conv env "HTTP_READ_HEADER_TIMEOUT"
  unfolding http_config
  http-parses e =
      let (_, port, rest) = bind-returned _ _ e in
      let (_, timeout, _) = bind-returned _ _ rest in
      (number-IsInt "HTTP_PORT" _ port, timeout-IsDuration "HTTP_READ_HEADER_TIMEOUT" _ timeout)

  redis-IsInt :
      {c : RedisOptions} → redis_options conv env ≡ returned c → IsInt conv env "REDIS_PORT"
  unfolding redis_options
  redis-IsInt e = let (_, port, _) = bind-returned _ _ e in number-IsInt "REDIS_PORT" _ port

  Parses-new : {c : Config} → new conv env ≡ returned c → Parses conv env
  unfolding new
  Parses-new e =
      let (_, my_sql, e) = bind-returned (my_sql_config conv env) _ e in
      let (_, storage, e) = bind-returned (storage_config conv env) _ e in
      let (_, telemetry, e) = bind-returned (telemetry_config conv env) _ e in
      let (_, production, e) = bind-returned _ _ e in
      let (_, cache, e) =
        bind-returned (kafka_consumer conv env "KAFKA_USER_CONSUMER_CACHE" 1) _ e in
      let (_, search, e) =
        bind-returned (kafka_consumer conv env "KAFKA_USER_CONSUMER_SEARCH" 2) _ e in
      let (_, registry, e) = bind-returned (schema_registry_config conv env) _ e in
      let (_, http, e) = bind-returned (http_config conv env) _ e in
      let (_, grpc, e) = bind-returned _ _ e in
      let (_, redis, e) = bind-returned (redis_options conv env) _ e in
      let (interval, enabled) = telemetry-parses telemetry in
      let (port, timeout) = http-parses http in
      (
        my_sql-IsInt my_sql,
        storage-IsDuration storage,
        interval,
        enabled,
        flag-IsBool "LOGGING_PRODUCTION" _ production,
        kafka-IsConsumer "KAFKA_USER_CONSUMER_CACHE" 1 cache,
        kafka-IsConsumer "KAFKA_USER_CONSUMER_SEARCH" 2 search,
        schema_registry-IsDuration registry,
        port,
        timeout,
        number-IsInt "GRPC_PORT" _ grpc,
        redis-IsInt redis,
      )

  -- New returns exactly if every variable that is parsed is unset or has a value that parses, and
  -- otherwise it panics; and in what it returns, the topics' brokers and those of both consumers are
  -- the brokers of the one variable for them.
  pub new-Parses_iff :
      (Parses conv env ↔ ReturnsWith (Agree conv env) (new conv env))
      × (((c : Config) × (new conv env ≡ returned c))
          ⊎ ((text : String) × (new conv env ≡ panicked text)))
  new-Parses_iff = ((new_lem conv env, λ r. Parses-new r.1), Outcome-cases (new conv env))
