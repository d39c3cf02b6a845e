-- ===== src/Bootstrap/Up/Consumers.antt =====
-- `newConsumers` of internal/bootstrap/consumer.go, where every service answers.
use mathlib.Core.Option.{none-ne-some}
use go_api_demo.Prelude.{
  String, ◌≡◌, refl, ap, sym, ◌∙◌, true, Option, some, List, [], ◌∷◌, ◌++◌, inl, inr, length, map,
}
use go_api_demo.Error.{Error}
use go_api_demo.Effect.Fallible.{Yields, Yields-pure, Yields-bind}
use go_api_demo.Int.{pos_part}
use go_api_demo.Config.{Config, KafkaConsumer}
use go_api_demo.Metrics.{ConsumerMetrics, ConsumerMetricsCollector, register_metrics}
use go_api_demo.Consume.Consumers.{Consumer}
use go_api_demo.Consume.Consumers.Laws.{numbered, new_consumers_lem}
use go_api_demo.Bootstrap.Parts.{
  Kit, UserCache, UserSearch, Closable, reader, Component, consumer_cache, consumer_search,
  add_closer,
}
use go_api_demo.Bootstrap.Consumers.{
  user_consumer_metrics, consumers_for, labels, as_closers, new_user_consumers,
}
use go_api_demo.Bootstrap.Up.{IsUp, Accepted, add_closer-append}
use go_api_demo.Bootstrap.Up.Services.{
  created-Yields, user_decoder-Yields, metrics-Yields, panicking-Yields,
}

module _ {W D R I Conn Codec Data : Type 0} (kit : Kit W D R I Conn Codec Data)
    (up : IsUp kit) where
  -- The consumers on the readers, for one destination.
  abbrev pub numbered_for :
      {P : Type 0}
      → Config
      → KafkaConsumer
      → String
      → ConsumerMetrics I
      → P
      → Codec
      → List R
      → List (Consumer R P Codec)
  numbered_for conf settings destination metrics processor decoder rs =
      numbered kit.meter kit.new_reader settings conf.telemetry.enabled (labels "user" destination)
        (record { metrics = metrics; metrics_labels = labels "user" destination }) processor decoder
        rs 0

  unregistered :
      (r : R) (id : String) (e : Error) (u v : W) (collector : ConsumerMetricsCollector I)
      → ¬ (register_metrics kit.meter collector true r id u ≡ (some e, v))
  unfolding register_metrics
  unregistered r id e u v collector failed =
      none-ne-some e (sym (up.callback _ _ u) ∙ ap (λ (q : Option Error × W). q.0) failed)

  module _ {P : Type 0} (conf : Config) (settings : KafkaConsumer) (destination : String)
      (metrics : ConsumerMetrics I) (processor : P) (decoder : Codec) where
    abbrev pub Made : List (Consumer R P Codec) × List R → Type 0
    Made (cs, rs) =
        (length rs ≡ pos_part settings.num)
        × (cs ≡ numbered_for conf settings destination metrics processor decoder rs)

    pub consumers_for-Yields :
        up.accepts settings.reader_config
        → Yields (consumers_for kit conf settings destination metrics processor decoder) Made
    consumers_for-Yields ok w =
        let collector : ConsumerMetricsCollector I = record {
          metrics = metrics;
          metrics_labels = labels "user" destination;
        } in
        elim (new_consumers_lem kit.meter kit.new_reader settings conf.telemetry.enabled
          (labels "user" destination) collector processor decoder
          (up.reader settings.reader_config ok) w) [
            | inl (rs, v, many, _, e) ↦ (
              inl (numbered_for conf settings destination metrics processor decoder rs, rs),
              v,
              e,
              (_, refl, (many, refl)),
            )
            | inr (on, (e, v, f, (r, id, u, failed))) ↦
                absurd (unregistered r id e u v collector failed)
          ]

  -- The consumers of both destinations, on the given readers, and the readers as closers.
  abbrev pub ConsumersMade :
      Config
      → UserCache
      → UserSearch
      → List (Component D R Codec) × List (Option (Closable D R))
      → Type 0
  ConsumersMade conf user_cache user_search (components, closers) =
      (rs : List R) × (ss : List R) × (decoder : Codec) × (metrics : ConsumerMetrics I) × (length rs
        ≡ pos_part conf.user_consumer_cache.num)
      × (length ss ≡ pos_part conf.user_consumer_search.num)
      × (components
          ≡ map consumer_cache
              (numbered_for conf conf.user_consumer_cache "cache" metrics user_cache decoder rs)
            ++ map consumer_search (
                numbered_for conf conf.user_consumer_search "search" metrics user_search decoder
                  ss))
      × (closers ≡ map (λ r. some (reader r)) (rs ++ ss))

  abbrev components_of :
      List (Consumer R UserCache Codec)
      → List (Consumer R UserSearch Codec)
      → List (Component D R Codec)
  components_of cs ds = map consumer_cache cs ++ map consumer_search ds

  both :
      {cs cs' : List (Consumer R UserCache Codec)} {ds ds' : List (Consumer R UserSearch Codec)}
      → cs ≡ cs'
      → ds ≡ ds'
      → components_of cs ds ≡ components_of cs' ds'
  both e d = cc

  as_closers-append :
      (rs ss : List R) → as_closers kit (rs ++ ss) ≡ as_closers kit rs ++ as_closers kit ss
  as_closers-append [] ss = refl
  as_closers-append (r ∷ rs) ss = ap (λ cs. some (reader r) ∷ cs) (as_closers-append rs ss)

  closers_of :
      (rs ss : List R)
      → add_closer (add_closer [] (as_closers kit rs)) (as_closers kit ss)
        ≡ map (λ r. some (reader r)) (rs ++ ss)
  closers_of rs ss =
      add_closer-append (add_closer [] (as_closers kit rs)) (as_closers kit ss)
      ∙ ap (λ cs. cs ++ as_closers kit ss) (add_closer-append [] (as_closers kit rs))
      ∙ sym (as_closers-append rs ss)

  pub new_user_consumers-Yields :
      (conf : Config) (user_cache : UserCache) (user_search : UserSearch) (broker : String)
      (others : List String)
      → conf.topic_configs.brokers ≡ broker ∷ others
      → Accepted kit up conf
      → Yields
          (new_user_consumers kit conf user_cache user_search)
          (ConsumersMade conf user_cache user_search)
  unfolding new_user_consumers
  new_user_consumers-Yields conf user_cache user_search broker others brokers ok =
      Yields-bind _ (λ t. Unit {0})
        (created-Yields kit up conf.topic_configs broker others brokers ok.3) _
        (ConsumersMade conf user_cache user_search)
        (λ t u.
          Yields-bind _ (λ c. Unit {0}) (user_decoder-Yields kit up conf ok.4) _
            (ConsumersMade conf user_cache user_search)
            (λ decoder u.
              Yields-bind _ (λ m. Unit {0})
                (panicking-Yields kit up (user_consumer_metrics kit conf.telemetry.enabled)
                  (λ m. Unit {0}) (metrics-Yields kit up conf.telemetry.enabled))
                _ (ConsumersMade conf user_cache user_search)
                (λ metrics u.
                  Yields-bind _
                    (Made conf conf.user_consumer_cache "cache" metrics user_cache decoder)
                    (consumers_for-Yields conf conf.user_consumer_cache "cache" metrics user_cache
                      decoder ok.0)
                    _ (ConsumersMade conf user_cache user_search)
                    (λ made h.
                      Yields-bind _
                        (Made conf conf.user_consumer_search "search" metrics user_search decoder)
                        (consumers_for-Yields conf conf.user_consumer_search "search" metrics
                          user_search decoder ok.1)
                        _ (ConsumersMade conf user_cache user_search)
                        (λ made' h'. Yields-pure _ (ConsumersMade conf user_cache user_search) (
                          made.1,
                          made'.1,
                          decoder,
                          metrics,
                          h.0,
                          h'.0,
                          both h.1 h'.1,
                          closers_of made.1 made'.1,
                        ))))))
