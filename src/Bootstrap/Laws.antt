-- ===== src/Bootstrap/Laws.antt =====
-- On `New` of internal/bootstrap/bootstrap.go, where every service answers.
pub mod Readers
pub mod Close
use mathlib.Core.Option
use mathlib.Core.Path.{subst}
use go_api_demo.Prelude.{
  ℕ, String, ◌+◌, ◌≡◌, refl, ap, sym, ◌∙◌, Option, none, some, List, [], ◌∷◌, ◌++◌, ◌⊎◌, inl, inr,
  map, length, arith,
}
use go_api_demo.Error.{Error, nil_dereference, Outcome, returned, panicked}
use go_api_demo.Effect.{Effect, go_on, Succeeds, Succeeds-pure, Succeeds-bind, pure}
use go_api_demo.Effect.Fallible.{Fallible, Yields, Yields-pure, Yields-bind}
use go_api_demo.App.{Closer, close}
use go_api_demo.Int.{pos_part}
use go_api_demo.Prelude.Lists.{length-append}
use go_api_demo.Config.Lookup.{Env, Strconv}
use go_api_demo.Config.{new, Config, storage_type_sql}
use go_api_demo.Log.{Sink}
use go_api_demo.Bootstrap.{new_from, new_app}
use go_api_demo.Bootstrap.Parts.{
  Kit, Process, UserCache, UserSearch, UserStorage, Closable, redis, database, reader, App,
  Component, telemetry, must, lifted, settled, or_panic, panicking, add_closer, new_logger,
  new_user_cache, new_user_search, new_validator, new_user_storage, checked,
}
use go_api_demo.Bootstrap.Routers.{http_router, grpc_router, new_routers}
use go_api_demo.Bootstrap.Consumers.{new_user_consumers}
use go_api_demo.Bootstrap.Up.{
  IsUp, Accepted, add_closer-append, checked-Yields, new_logger-Yields, StorageOf,
  new_user_storage-Yields,
}
use go_api_demo.Bootstrap.Up.Consumers.{ConsumersMade, new_user_consumers-Yields}

abbrev relogged : {W A : Type 0} → Sink → Outcome A × W → Outcome A × Process W
relogged sink (r, w) = (r, record { world = w; sink = sink })

module _ {W A : Type 0} (m : Fallible W A) (P : A → Type 0) (fine : Yields m P) where
  must-Succeeds : (render : Error → String) → Succeeds (must render m) P
  must-Succeeds render p =
      let (r, v, e, (a, is_a, q)) = fine p.world in
      (
        a,
        record { world = v; sink = p.sink },
        ap (settled render p.sink) (e ∙ ap (λ s. (returned s, v)) is_a),
        q,
      )

  or_panic-Succeeds : Succeeds (lifted (or_panic m)) P
  or_panic-Succeeds p =
      let (r, v, e, (a, is_a, q)) = fine p.world in
      (
        a,
        record { world = v; sink = p.sink },
        ap (λ r. relogged p.sink (go_on panicking r)) (e ∙ ap (λ s. (returned s, v)) is_a),
        q,
      )

module _ {W D R I Conn Codec Data : Type 0} (kit : Kit W D R I Conn Codec Data) (up : IsUp kit)
    (render : Error → String) (conf : Config) where
  abbrev Connected : UserCache × Option (Closable D R) → Type 0
  Connected r = r.1 ≡ some redis

  new_user_cache-Yields : Yields (new_user_cache kit conf.redis conf.telemetry.enabled) Connected
  unfolding new_user_cache
  new_user_cache-Yields =
      Yields-bind _ (λ t. Unit {0})
        (checked-Yields (kit.ping_redis conf.redis) (up.redis conf.redis)) _ Connected
        (λ t u. Yields-pure _ Connected refl)

  new_user_search-Yields :
      up.addresses conf.elasticsearch_addresses
      → Yields
          (new_user_search kit conf.elasticsearch_addresses conf.telemetry.enabled)
          (λ s. Unit {0})
  unfolding new_user_search
  new_user_search-Yields ok =
      Yields-bind _ (λ t. Unit {0})
        (checked-Yields (kit.new_elastic conf.elasticsearch_addresses)
          (up.elastic conf.elasticsearch_addresses ok))
        _ (λ s. Unit {0})
        (λ t u.
          Yields-bind _ (λ t. Unit {0})
            (checked-Yields (kit.ping_elastic conf.elasticsearch_addresses)
              (up.elastic_ping conf.elasticsearch_addresses ok))
            _ (λ s. Unit {0}) (λ t u. Yields-pure _ (λ s. Unit {0}) tt))

  -- The two servers over a storage, and the storage's closer.
  abbrev pub RoutersMade :
      UserCache → UserSearch → List (Component D R Codec) × List (Option (Closable D R)) → Type 0
  RoutersMade user_cache user_search (components, closers) =
      (storage : UserStorage D) × (closer : Option (Closable D R)) × StorageOf conf.storage.type
        conf.storage.query_timeout (storage, closer)
      × (components
          ≡ http_router kit render conf user_cache user_search storage
            ∷ grpc_router kit render conf user_cache user_search storage
            ∷ [])
      × (closers ≡ closer ∷ [])

  new_routers-Succeeds :
      (user_cache : UserCache) (user_search : UserSearch)
      → Succeeds
          (new_routers kit render conf user_cache user_search)
          (RoutersMade user_cache user_search)
  unfolding new_routers new_validator add_closer
  new_routers-Succeeds user_cache user_search =
      let Post = RoutersMade user_cache user_search in
      Succeeds-bind _ (λ t. Unit {0})
        (must-Succeeds _ (λ t. Unit {0}) (checked-Yields kit.register_translations up.translations)
          render)
        _ Post
        (λ t u.
          Succeeds-bind _ (StorageOf conf.storage.type conf.storage.query_timeout)
            (must-Succeeds _ (StorageOf conf.storage.type conf.storage.query_timeout)
              (new_user_storage-Yields kit up conf.my_sql conf.storage conf.telemetry.enabled)
              render)
            _ Post (λ made is. Succeeds-pure _ Post (made.0, made.1, is, refl, refl)))

  -- What `New` makes: the components and the closers, in order.
  abbrev pub AppMade : App D R Codec → Type 0
  AppMade app =
      (user_cache : UserCache) × (user_search : UserSearch) × (routers : List (Component D R Codec)
        × List (Option (Closable D R)))
      × (consumers : List (Component D R Codec) × List (Option (Closable D R))) × RoutersMade
          user_cache user_search routers
      × ConsumersMade kit up conf user_cache user_search consumers
      × (app.components ≡ telemetry conf.telemetry ∷ routers.0 ++ consumers.0)
      × (app.closers ≡ some redis ∷ routers.1 ++ consumers.1)

  closers_of :
      (c : Option (Closable D R))
      → c ≡ some redis
      → (cs ds : List (Option (Closable D R)))
      → add_closer (add_closer (add_closer [] (c ∷ [])) cs) ds ≡ some redis ∷ cs ++ ds
  closers_of c e cs ds =
      add_closer-append (add_closer (add_closer [] (c ∷ [])) cs) ds
      ∙ ap (λ l. l ++ ds)
          (add_closer-append (add_closer [] (c ∷ [])) cs
            ∙ ap (λ l. l ++ cs) (add_closer-append [] (c ∷ []) ∙ ap (λ o. o ∷ []) e))

  new_from-AppMade :
      (broker : String) (others : List String)
      → conf.topic_configs.brokers ≡ broker ∷ others
      → Accepted kit up conf
      → Succeeds (new_from kit render (returned conf)) AppMade
  unfolding new_from
  new_from-AppMade broker others brokers ok =
      Succeeds-bind _ (λ t. Unit {0})
        (or_panic-Succeeds _ (λ t. Unit {0}) (new_logger-Yields kit up conf.logging_production)) _
        AppMade
        (λ t u.
          Succeeds-bind _ Connected (must-Succeeds _ Connected new_user_cache-Yields render) _
            AppMade
            (λ cache connected.
              Succeeds-bind _ (λ s. Unit {0})
                (must-Succeeds _ (λ s. Unit {0}) (new_user_search-Yields ok.2) render) _ AppMade
                (λ finder u.
                  Succeeds-bind _ (RoutersMade cache.0 finder) (new_routers-Succeeds cache.0 finder)
                    _ AppMade
                    (λ routers served.
                      Succeeds-bind _ (ConsumersMade kit up conf cache.0 finder)
                        (must-Succeeds _ (ConsumersMade kit up conf cache.0 finder)
                          (new_user_consumers-Yields kit up conf cache.0 finder broker others
                            brokers ok)
                          render)
                        _ AppMade
                        (λ consumers consuming. Succeeds-pure _ AppMade (
                          cache.0,
                          finder,
                          routers,
                          consumers,
                          served,
                          consuming,
                          refl,
                          closers_of cache.1 connected routers.1 consumers.1,
                        ))))))

  -- Where every service answers, the registry with a schema that is one of Avro, and the
  -- environment gives settings that name a broker and that the libraries accept (kafka.NewReader
  -- those of the readers, Elasticsearch its addresses, Kafka the topics, net/http the address of
  -- the schema), New returns an application and does not panic: its components are that of
  -- telemetry, the HTTP server and the gRPC server over the storage that the settings name, then
  -- as many consumers for the cache as the settings ask for, and then those for the search; its
  -- closers are Redis, the storage's and the readers, in this order.
  pub new_app_lem :
      (conv : Strconv) (env : Env) (broker : String) (others : List String)
      → new conv env ≡ returned conf
      → conf.topic_configs.brokers ≡ broker ∷ others
      → Accepted kit up conf
      → Succeeds (new_app kit render conv env) AppMade
  unfolding new_app
  new_app_lem conv env broker others settings brokers ok =
      subst (λ c. Succeeds (new_from kit render c) AppMade) (sym settings)
        (new_from-AppMade broker others brokers ok)
