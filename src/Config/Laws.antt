-- ===== src/Config/Laws.antt =====
-- `New` of internal/config/config.go as a whole.
use go_api_demo.Prelude.{
  ℕ, String, ◌<>◌, ◌≡◌, refl, ap, ◌∙◌, inl, inr, Bool, Option-cases, none, some, List, [],
}
use go_api_demo.Error.{Outcome, returned, ◌>>=◌}
use go_api_demo.Int.Atoi.{atoi}
use go_api_demo.Int.{ℤ}
use go_api_demo.Config.{
  Config, KafkaConsumer, my_sql_config, storage_config, telemetry_config, kafka_consumer,
  schema_registry_config, http_config, redis_options, new,
}
use go_api_demo.Config.Lookup.{
  Env, Strconv, parse_bool, get_env_as_int, get_env_as_bool, get_env_as_duration,
  get_env_as_slice_of_strings,
}

module _ {A : Type 0} where
  -- The call returns.
  abbrev pub Returns : Outcome A → Type 0
  Returns o = (a : A) × (o ≡ returned a)

  -- The call returns a value with the property `P`.
  abbrev pub ReturnsWith : (A → Type 0) → Outcome A → Type 0
  ReturnsWith P o = (a : A) × (o ≡ returned a) × P a

module _ {A B : Type 0} (P : B → Type 0) where
  bind-with :
      (Q : A → Type 0) (m : Outcome A) (f : A → Outcome B)
      → ReturnsWith Q m
      → ((a : A) → Q a → ReturnsWith P (f a))
      → ReturnsWith P (m >>= f)
  bind-with Q m f (a, e, q) k = let (b, e', p) = k a q in (b, ap (λ o. o >>= f) e ∙ e', p)

  bind-Returns :
      (m : Outcome A) (f : A → Outcome B)
      → Returns m
      → ((a : A) → ReturnsWith P (f a))
      → ReturnsWith P (m >>= f)
  bind-Returns m f (a, e) k = let (b, e', p) = k a in (b, ap (λ o. o >>= f) e ∙ e', p)

module _ (conv : Strconv) (env : Env) where
  -- A variable that is unset, or whose value parses.
  abbrev pub IsInt : String → Type 0
  IsInt key = (val : String) → env key ≡ some val → (n : ℤ) × (atoi val ≡ inl n)

  abbrev pub IsBool : String → Type 0
  IsBool key = (val : String) → env key ≡ some val → (b : Bool) × (parse_bool val ≡ some b)

  abbrev pub IsDuration : String → Type 0
  IsDuration key = (val : String) → env key ≡ some val → (conv.parse_duration val).1 ≡ none

  int-Returns : (key : String) (n : ℤ) → IsInt key → Returns (get_env_as_int conv env key n)
  unfolding get_env_as_int
  int-Returns key n ok = elim (Option-cases (env key)) [
    | inl e ↦ (n, rw (e, get_env_as_int))
    | inr (val, e) ↦ let (m, p) = ok val e in (m, rw (e, get_env_as_int) (rw p))
  ]

  bool-Returns : (key : String) (b : Bool) → IsBool key → Returns (get_env_as_bool conv env key b)
  unfolding get_env_as_bool
  bool-Returns key b ok = elim (Option-cases (env key)) [
    | inl e ↦ (b, rw (e, get_env_as_bool))
    | inr (val, e) ↦ let (m, p) = ok val e in (m, rw (e, get_env_as_bool) (rw p))
  ]

  duration-Returns :
      (key : String) (d : ℤ) → IsDuration key → Returns (get_env_as_duration conv env key d)
  unfolding get_env_as_duration
  duration-Returns key d ok = elim (Option-cases (env key)) [
    | inl e ↦ (d, rw (e, get_env_as_duration))
    | inr (val, e) ↦ ((conv.parse_duration val).0, rw (e, get_env_as_duration) (rw (ok val e)))
  ]

  abbrev pub brokers_set : List String
  brokers_set = get_env_as_slice_of_strings env "KAFKA_BROKERS" "," []

  -- The variables of a consumer parse.
  abbrev pub IsConsumer : String → Type 0
  IsConsumer prefix =
      IsInt (prefix <> "_MAX_BYTES")
      × IsDuration (prefix <> "_MAX_WAIT")
      × IsDuration (prefix <> "_REBALANCE_TIMEOUT")
      × IsBool (prefix <> "_IS_ENABLED")
      × IsInt (prefix <> "_NUM")

  abbrev FromBrokers : KafkaConsumer → Type 0
  FromBrokers c = c.reader_config.brokers ≡ brokers_set

  consumer-Returns :
      (prefix : String) (n : ℕ)
      → IsConsumer prefix
      → ReturnsWith FromBrokers (kafka_consumer conv env prefix n)
  unfolding kafka_consumer
  consumer-Returns prefix n (b, w, r, e, k) =
      bind-Returns FromBrokers _ _ (int-Returns (prefix <> "_MAX_BYTES") _ b) λ max_bytes.
        bind-Returns FromBrokers _ _ (duration-Returns (prefix <> "_MAX_WAIT") _ w) λ max_wait.
          bind-Returns FromBrokers _ _ (duration-Returns (prefix <> "_REBALANCE_TIMEOUT") _ r)
            λ rebalance.
              bind-Returns FromBrokers _ _ (bool-Returns (prefix <> "_IS_ENABLED") _ e) λ enabled.
                bind-Returns FromBrokers _ _ (int-Returns (prefix <> "_NUM") _ k)
                  λ consumers. (_, refl, refl)

  plain : {A : Type 0} {m : Outcome A} → ReturnsWith (λ _. Unit) m → Returns m
  plain (a, e, _) = (a, e)

  my_sql-Returns : IsInt "MYSQL_PORT" → Returns (my_sql_config conv env)
  unfolding my_sql_config
  my_sql-Returns p =
      plain (bind-Returns (λ _. Unit) _ _ (int-Returns "MYSQL_PORT" _ p) λ _. (_, refl, tt))

  storage-Returns : IsDuration "STORAGE_QUERY_TIMEOUT" → Returns (storage_config conv env)
  unfolding storage_config
  storage-Returns p = plain (
      bind-Returns (λ _. Unit) _ _ (duration-Returns "STORAGE_QUERY_TIMEOUT" _ p)
        λ _. (_, refl, tt))

  telemetry-Returns :
      IsDuration "TELEMETRY_METRICS_COLLECTION_INTERVAL"
      → IsBool "TELEMETRY_ENABLED"
      → Returns (telemetry_config conv env)
  unfolding telemetry_config
  telemetry-Returns p q = plain (
      bind-Returns (λ _. Unit) _ _ (duration-Returns "TELEMETRY_METRICS_COLLECTION_INTERVAL" _ p)
        λ _. bind-Returns (λ _. Unit) _ _ (bool-Returns "TELEMETRY_ENABLED" _ q) λ _. (_, refl, tt))

  schema_registry-Returns :
      IsDuration "KAFKA_SCHEMA_REGISTRY_CLIENT_TIMEOUT" → Returns (schema_registry_config conv env)
  unfolding schema_registry_config
  schema_registry-Returns p = plain (
      bind-Returns (λ _. Unit) _ _ (duration-Returns "KAFKA_SCHEMA_REGISTRY_CLIENT_TIMEOUT" _ p)
        λ _. (_, refl, tt))

  http-Returns :
      IsInt "HTTP_PORT" → IsDuration "HTTP_READ_HEADER_TIMEOUT" → Returns (http_config conv env)
  unfolding http_config
  http-Returns p d = plain (
      bind-Returns (λ _. Unit) _ _ (int-Returns "HTTP_PORT" _ p)
        λ _.
          bind-Returns (λ _. Unit) _ _ (duration-Returns "HTTP_READ_HEADER_TIMEOUT" _ d)
            λ _. (_, refl, tt))

  redis-Returns : IsInt "REDIS_PORT" → Returns (redis_options conv env)
  unfolding redis_options
  redis-Returns p =
      plain (bind-Returns (λ _. Unit) _ _ (int-Returns "REDIS_PORT" _ p) λ _. (_, refl, tt))

  -- Every variable that New parses is unset or parses.
  abbrev pub Parses : Type 0
  Parses =
      IsInt "MYSQL_PORT"
      × IsDuration "STORAGE_QUERY_TIMEOUT"
      × IsDuration "TELEMETRY_METRICS_COLLECTION_INTERVAL"
      × IsBool "TELEMETRY_ENABLED"
      × IsBool "LOGGING_PRODUCTION"
      × IsConsumer "KAFKA_USER_CONSUMER_CACHE"
      × IsConsumer "KAFKA_USER_CONSUMER_SEARCH"
      × IsDuration "KAFKA_SCHEMA_REGISTRY_CLIENT_TIMEOUT"
      × IsInt "HTTP_PORT"
      × IsDuration "HTTP_READ_HEADER_TIMEOUT"
      × IsInt "GRPC_PORT"
      × IsInt "REDIS_PORT"

  -- The topics are created on the brokers that both consumers read from.
  abbrev pub Agree : Config → Type 0
  Agree c =
      (c.topic_configs.brokers ≡ brokers_set)
      × (c.user_consumer_cache.reader_config.brokers ≡ brokers_set)
      × (c.user_consumer_search.reader_config.brokers ≡ brokers_set)

  -- Where every variable that is parsed is unset or has a value that parses, New returns a
  -- configuration and does not panic; in it the topics' brokers and those of both consumers are the
  -- brokers of the one variable for them.
  pub new_lem : Parses → ReturnsWith Agree (new conv env)
  unfolding new
  new_lem (mp, sq, ti, te, lp, cache, search, sr, hp, hh, gp, rp) =
      bind-Returns Agree _ _ (my_sql-Returns mp) λ _.
        bind-Returns Agree _ _ (storage-Returns sq) λ _.
          bind-Returns Agree _ _ (telemetry-Returns ti te) λ _.
            bind-Returns Agree _ _ (bool-Returns "LOGGING_PRODUCTION" _ lp) λ _.
              bind-with Agree FromBrokers _ _ (consumer-Returns "KAFKA_USER_CONSUMER_CACHE" _ cache)
                λ _ c.
                  bind-with Agree FromBrokers _ _
                    (consumer-Returns "KAFKA_USER_CONSUMER_SEARCH" _ search)
                    λ _ d. bind-Returns Agree _ _ (schema_registry-Returns sr) λ _.
                      bind-Returns Agree _ _ (http-Returns hp hh) λ _.
                        bind-Returns Agree _ _ (int-Returns "GRPC_PORT" _ gp) λ _.
                          bind-Returns Agree _ _ (redis-Returns rp) λ _. (_, refl, (refl, c, d))
