-- ===== src/Bootstrap/Parts.antt =====
-- What the parts of internal/bootstrap share: the libraries, the components and closers that are
-- collected, and the constructors of the parts that connect.
use go_api_demo.Prelude.{
  String, Bool, Option, none, some, List, [], ◌∷◌, ◌++◌, ◌⊎◌, inl, inr, if◌then◌else◌, ◌==◌,
}
use go_api_demo.Prelude.State.{State}
use go_api_demo.Error.{Error, message, wrapped, Outcome, returned, panicked}
use go_api_demo.Log.{Sink, log_panic}
use go_api_demo.App.{Closer}
use go_api_demo.Int.{ℤ}
use go_api_demo.Effect.{Effect, go_on}
use go_api_demo.Effect.Fallible.{Fallible, unit_or, pure, ◌>>=◌}
use go_api_demo.Config.{
  MySqlConfig, ReaderConfig, RedisOptions, Storage, Telemetry, storage_type_sql,
}
use go_api_demo.Consume.Consumers.{Consumer}
use go_api_demo.Metrics.{Meter}
use go_api_demo.Schema.{Registry}
use go_api_demo.Topic.{Kafka}
use go_api_demo.Routing.{HttpRouter, GrpcRouter}

-- On the state `W` of the world, with the libraries' types: a database handle `D`, a reader `R`, an
-- instrument `I`, a connection to Kafka, an Avro codec and decoded data.
pub record Kit (W D R I Conn Codec Data : Type 0) : Type 0 where
  pub new_production : State W (Option Error)
  pub new_development : State W (Option Error)
  pub ping_redis : RedisOptions → State W (Option Error)
  pub close_redis : Closer W
  pub new_elastic : List String → State W (Option Error)
  pub ping_elastic : List String → State W (Option Error)
  pub register_translations : State W (Option Error)
  pub format_dsn : MySqlConfig → String
  pub sql_open : String → String → State W (D ⊎ Error)
  pub otelsql_open : String → String → State W (D ⊎ Error)
  pub ping_db : D → State W (Option Error)
  pub close_db : D → Closer W
  pub kafka : Kafka W Conn
  pub registry : Registry W Codec Data
  pub meter : Meter W I R
  pub new_reader : ReaderConfig → Effect W R
  pub close_reader : R → Closer W

-- The program's own state: the world and the log.
pub record Process (W : Type 0) : Type 0 where
  pub world : W
  pub sink : Sink

pub record UserCache : Type 0 where
  pub options : RedisOptions
  pub instrumented : Bool

pub record UserSearch : Type 0 where
  pub addresses : List String
  pub instrumented : Bool

pub data UserStorage (D : Type 0) : Type 0 where
  in_sql : D → ℤ → UserStorage D
  in_memory : UserStorage D

pub data Closable (D R : Type 0) : Type 0 where
  redis : Closable D R
  database : D → Closable D R
  reader : R → Closable D R

-- What a controller is made from: the storage, the cache or the search.
pub data Controller (D : Type 0) : Type 0 where
  creating : UserStorage D → Controller D
  reading : UserCache → Controller D
  searching : UserSearch → Controller D

pub data Component (D R Codec : Type 0) : Type 0 where
  telemetry : Telemetry → Component D R Codec
  http : HttpRouter (Controller D) → Component D R Codec
  grpc : GrpcRouter (Controller D) (Controller D) (Controller D) → Component D R Codec
  consumer_cache : Consumer R UserCache Codec → Component D R Codec
  consumer_search : Consumer R UserSearch Codec → Component D R Codec

pub record App (D R Codec : Type 0) : Type 0 where
  pub components : List (Component D R Codec)
  pub closers : List (Option (Closable D R))

-- A single closer that is nil makes a slice that is not nil.
unfoldable pub add_closer : {C : Type 0} → List (Option C) → List (Option C) → List (Option C)
add_closer closers [] = closers
add_closer closers (c ∷ closer) = closers ++ c ∷ closer

abbrev pub checked : {W : Type 0} → State W (Option Error) → Fallible W (Unit {0})
checked m w = (returned (unit_or (m w).0), (m w).1)

abbrev pub prefixed : {W A : Type 0} → String → State W (A ⊎ Error) → Fallible W A
prefixed prefix m w =
    (returned (elim (m w).0 [ inl a ↦ inl a | inr e ↦ inr (wrapped prefix e) ]), (m w).1)

-- `logger.Panic(err)` where there is an error.
abbrev pub settled :
    {W A : Type 0} → (Error → String) → Sink → Outcome (A ⊎ Error) × W → Outcome A × Process W
settled render sink (panicked text, w) = (panicked text, record { world = w; sink = sink })
settled render sink (returned (inl a), w) = (returned a, record { world = w; sink = sink })
settled render sink (returned (inr e), w) =
    (panicked (render e), record { world = w; sink = (log_panic render e sink).1 })

abbrev pub must : {W A : Type 0} → (Error → String) → Fallible W A → Effect (Process W) A
must render m p = settled render p.sink (m p.world)

-- `panic(err)` where there is an error.
abbrev pub panicking : {W A : Type 0} → A ⊎ Error → Effect W A
panicking (inl a) w = (returned a, w)
panicking (inr e) w = (panicked (message e), w)

abbrev pub or_panic : {W A : Type 0} → Fallible W A → Effect W A
or_panic m w = go_on panicking (m w)

abbrev pub lifted : {W A : Type 0} → Effect W A → Effect (Process W) A
lifted m p = ((m p.world).0, record p { world = (m p.world).1 })

-- An effect that returns no error, and one that returns nothing else.
abbrev pub lift : {W A : Type 0} → Effect W A → Fallible W A
lift m w = go_on (λ a v. (returned (inl a), v)) (m w)

abbrev pub lift_error : {W : Type 0} → Effect W (Option Error) → Fallible W (Unit {0})
lift_error m w = go_on (λ err v. (returned (unit_or err), v)) (m w)

module _ {W D R I Conn Codec Data : Type 0} (kit : Kit W D R I Conn Codec Data) where
  -- NewLogger of internal/log/logger.go
  unfoldable pub new_logger : Bool → Fallible W (Unit {0})
  new_logger prod = if prod then checked kit.new_production else checked kit.new_development

  -- NewUserCache of internal/storage/redis/user.go
  unfoldable pub new_user_cache :
      RedisOptions → Bool → Fallible W (UserCache × Option (Closable D R))
  new_user_cache redis_conf telemetry_enabled = do
    pinged ← checked (kit.ping_redis redis_conf)
    pure (record { options = redis_conf; instrumented = telemetry_enabled }, some redis)

  -- NewUserSearch of internal/storage/elastic/user.go
  unfoldable pub new_user_search : List String → Bool → Fallible W UserSearch
  new_user_search es_conf telemetry_enabled = do
    es ← checked (kit.new_elastic es_conf)
    pinged ← checked (kit.ping_elastic es_conf)
    pure (record { addresses = es_conf; instrumented = telemetry_enabled })

  -- `validator` and NewValidator of internal/validate/validator.go; the function that names fields is
  -- `tag_name` of Validate.
  unfoldable pub validator : Fallible W (Unit {0})
  validator = checked kit.register_translations

  unfoldable pub new_validator : Fallible W (Unit {0})
  unfolding validator
  new_validator = validator

  abbrev pub ping : D → State W (Unit {0} ⊎ Error)
  ping db w = let (err, w') = kit.ping_db db w in (unit_or err, w')

  unfoldable pub sql_db : MySqlConfig → Bool → Fallible W D
  sql_db conf telemetry_enabled = do
    db ← prefixed "failed to connect to db" (
        if telemetry_enabled
        then kit.otelsql_open "mysql" (kit.format_dsn conf)
        else kit.sql_open "mysql" (kit.format_dsn conf))
    pinged ← prefixed "failed to ping db" (ping db)
    pure db

  unfoldable pub new_user_storage :
      MySqlConfig → Storage → Bool → Fallible W (UserStorage D × Option (Closable D R))
  new_user_storage my_sql_conf storage_conf telemetry_enabled =
      if storage_conf.type == storage_type_sql
      then (do
        db ← sql_db my_sql_conf telemetry_enabled
        pure (in_sql db storage_conf.query_timeout, some (database db)))
      else pure (in_memory, none)
