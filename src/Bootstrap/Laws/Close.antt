-- ===== src/Bootstrap/Laws/Close.antt =====
-- On `Close` of internal/app/app.go, for what `New` makes.
use mathlib.Core.Path.{subst}
use mathlib.Core.Option
use go_api_demo.Prelude.{
  String, ◌+◌, ◌≡◌, refl, ap, sym, ◌∙◌, Option, some, List, [], ◌∷◌, ◌++◌, ◌⊎◌, inl, inr, map,
  length, arith,
}
use go_api_demo.Error.{Error, nil_dereference, returned, panicked}
use go_api_demo.Effect.{Succeeds}
use go_api_demo.App.{close}
use go_api_demo.Int.{pos_part}
use go_api_demo.Prelude.Lists.{length-append}
use go_api_demo.Config.Lookup.{Env, Strconv}
use go_api_demo.Config.{new, Config, storage_type_sql}
use go_api_demo.Bootstrap.{new_app, closer, close_app}
use go_api_demo.Bootstrap.Parts.{
  Kit, UserCache, UserSearch, Closable, redis, reader, App, consumer_cache, consumer_search,
}
use go_api_demo.Bootstrap.Consumers.{labels}
use go_api_demo.Metrics.{ConsumerMetrics, ConsumerMetricsCollector}
use go_api_demo.Bootstrap.Up.Consumers.{numbered_for}
use go_api_demo.Bootstrap.Laws.Readers.{readers_of, readers_of-cache, readers_of-search}
use go_api_demo.Bootstrap.Up.{IsUp, Accepted}
use go_api_demo.Bootstrap.Laws.{AppMade, new_app_lem}

module _ {W D R I Conn Codec Data : Type 0} (kit : Kit W D R I Conn Codec Data) (up : IsUp kit)
    (render : Error → String) (conf : Config) where
  -- The readers closed, in order.
  abbrev pub close_readers : List R → W → W
  close_readers [] w = w
  close_readers (r ∷ rs) w = close_readers rs (kit.close_reader r w)

  close-readers :
      (rs : List R) (w : W)
      → close (map (Option.map (closer kit render)) (map (λ r. some (reader r)) rs)) w
        ≡ (returned tt, close_readers rs w)
  unfolding close
  close-readers [] w = refl
  close-readers (r ∷ rs) w = close-readers rs (kit.close_reader r w)

  -- What closing an application with these readers does.
  abbrev ClosesWith : List R → App D R Codec → Type 0
  ClosesWith rs app =
      (length rs ≡ pos_part conf.user_consumer_cache.num + pos_part conf.user_consumer_search.num)
      × ((w : W)
          → ((conf.storage.type ≡ storage_type_sql)
              × ((db : D) × (close_app kit render app w
                    ≡ (returned tt, close_readers rs (kit.close_db db (kit.close_redis w))))))
            ⊎ ((¬ (conf.storage.type ≡ storage_type_sql))
                × (close_app kit render app w ≡ (panicked nil_dereference, kit.close_redis w))))

  -- What closing an application does, with the readers of its components.
  abbrev pub Closes : App D R Codec → Type 0
  Closes app = ClosesWith (readers_of app.components) app

  collector : String → ConsumerMetrics I → ConsumerMetricsCollector I
  collector destination metrics = record {
    metrics = metrics;
    metrics_labels = labels "user" destination;
  }

  -- The readers of the consumers, those for the cache first.
  readers_of_consumers :
      (uc : UserCache) (us : UserSearch) (rs ss : List R) (decoder : Codec)
      (metrics : ConsumerMetrics I)
      → readers_of {D = D} (
          map consumer_cache
            (numbered_for kit up conf conf.user_consumer_cache "cache" metrics uc decoder rs)
          ++ map consumer_search
              (numbered_for kit up conf conf.user_consumer_search "search" metrics us decoder ss))
        ≡ rs ++ ss
  unfolding collector
  readers_of_consumers uc us rs ss decoder metrics =
      readers_of-cache kit conf.user_consumer_cache conf.telemetry.enabled (labels "user" "cache")
        (collector "cache" metrics) decoder uc rs 0 _
      ∙ ap (λ l. rs ++ l)
          (readers_of-search kit conf.user_consumer_search conf.telemetry.enabled
            (labels "user" "search") (collector "search" metrics) decoder us ss 0)

  AppMade-Closes : (app : App D R Codec) → AppMade kit up render conf app → Closes app
  unfolding close
  AppMade-Closes app
        (
          uc,
          us,
          routers,
          consumers,
          (storage, c, is, ro, rc),
          (rs, ss, decoder, metrics, many, more, co, k),
          ac,
          e,
        ) =
      let readers : List (Option (Closable D R)) = map (λ r. some (reader r)) (rs ++ ss) in
      let all : app.closers ≡ some redis ∷ c ∷ readers =
        e ∙ ap (λ l. some redis ∷ l ++ consumers.1) rc ∙ ap (λ l. some redis ∷ c ∷ l) k in
      let closed : List (Option (Closable D R)) → W → _ =
        λ l w. close (map (Option.map (closer kit render)) l) w in
      let held : readers_of app.components ≡ rs ++ ss =
        ap readers_of ac
        ∙ ap (λ l. readers_of (l ++ consumers.0)) ro
        ∙ ap readers_of co
        ∙ readers_of_consumers uc us rs ss decoder metrics in
      subst (λ l. ClosesWith l app) (sym held)
        (
          omega (arith, length-append rs ss, many, more),
          λ w. elim is [
            | inl (sql, db, _, is_db) ↦ inl (
              sql,
              (
                db,
                ap (λ l. closed l w) (all ∙ ap (λ o. some redis ∷ o ∷ readers) is_db)
                    ∙ close-readers (rs ++ ss) (kit.close_db db (kit.close_redis w)),
              ),
            )
            | inr (other, _, gone) ↦
                inr (other, ap (λ l. closed l w) (all ∙ ap (λ o. some redis ∷ o ∷ readers) gone))
          ],
        )

  -- Where every service answers, the registry with a schema that is one of Avro, and the
  -- environment gives settings that name a broker and that the libraries accept (kafka.NewReader
  -- those of the readers, Elasticsearch its addresses, Kafka the topics, net/http the address of
  -- the schema), New returns an application for which Close does this: with a storage of the type
  -- "sql" it closes Redis, the database and the reader of every consumer, in this order; with any
  -- other it closes Redis and then panics, and no reader is closed.
  pub new_app-close :
      (conv : Strconv) (env : Env) (broker : String) (others : List String)
      → new conv env ≡ returned conf
      → conf.topic_configs.brokers ≡ broker ∷ others
      → Accepted kit up conf
      → Succeeds (new_app kit render conv env) Closes
  new_app-close conv env broker others settings brokers ok p =
      let (app, q, e, made) =
        new_app_lem kit up render conf conv env broker others settings brokers ok p in
      (app, q, e, AppMade-Closes app made)
