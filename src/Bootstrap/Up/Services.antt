-- ===== src/Bootstrap/Up/Services.antt =====
-- What `newConsumers` of internal/bootstrap/consumer.go gets before it makes the consumers, where every
-- service answers.
use go_api_demo.Prelude.{
  String, ◌≡◌, refl, ap, ◌∙◌, Bool, true, false, Option, none, some, List, ◌∷◌, ◌⊎◌, inl, inr,
}
use go_api_demo.Prelude.Dict.{lookup}
use go_api_demo.Error.{Error, Outcome, returned}
use go_api_demo.Effect.{go_on}
use go_api_demo.Effect.Fallible.{Fallible, unit_or, Yields}
use go_api_demo.Config.{TopicConfig, TopicConfigs, Config}
use go_api_demo.Metrics.{new_consumer_metrics}
use go_api_demo.Schema.{keep_codec, get_schema_codec, get_decoder, new_client}
use go_api_demo.Topic.{
  dial_brokers, on_controller, on_broker, dialled, create_topics, join_host_port,
}
use go_api_demo.Bootstrap.Parts.{Kit, lift, lift_error, or_panic, panicking}
use go_api_demo.Topic.Laws.{dial-first}
use go_api_demo.Json.{Document}
use go_api_demo.Bootstrap.Consumers.{endpoint, user_decoder, user_consumer_metrics}
use go_api_demo.Bootstrap.Up.{IsUp}

module _ {W D R I Conn Codec Data : Type 0} (kit : Kit W D R I Conn Codec Data)
    (up : IsUp kit) where
  on_controller_up :
      (c d : Conn) (conf : List TopicConfig)
      → up.creates conf
      → (w : W) → (on_controller kit.kafka c (some d) conf w).0 ≡ returned none
  unfolding on_controller
  on_controller_up c d conf ok w = ap returned (up.topics d conf ok w)

  on_broker_up :
      (c : Conn) (conf : List TopicConfig)
      → up.creates conf
      → (w : W) → (on_broker kit.kafka c conf w).0 ≡ returned none
  unfolding on_broker
  on_broker_up c conf ok w =
      let host = (kit.kafka.controller c w).0.0.0 in
      let port = (kit.kafka.controller c w).0.0.1 in
      let address = join_host_port host port in
      let w1 : W = (kit.kafka.controller c w).1 in
      let (d, e) = up.dial address w1 in
      rw (up.controller c w, on_broker)
        (rw (ap (λ (r : Option Conn × Option Error). r.1) e) (
          rw (ap (λ (r : Option Conn × Option Error). r.0) e)
            (on_controller_up c d conf ok (kit.kafka.dial address w1).1)))

  dialled_up :
      (conf : List TopicConfig) (r : (Option Conn × Option Error) × W) (c : Conn)
      → r.0 ≡ (some c, none)
      → up.creates conf
      → (dialled kit.kafka conf r).0 ≡ returned none
  unfolding dialled
  dialled_up conf r c e ok =
      ap (λ (q : Option Conn × Option Error). (dialled kit.kafka conf (q, r.1)).0) e
      ∙ on_broker_up c conf ok r.1

  create_topics_up :
      (conf : TopicConfigs) (broker : String) (others : List String)
      → conf.brokers ≡ broker ∷ others
      → up.creates conf.conf
      → (w : W) → (create_topics kit.kafka conf w).0 ≡ returned none
  unfolding create_topics
  create_topics_up conf broker others e ok w =
      let (c, d) = up.dial broker w in
      let first =
        dial-first kit.kafka (λ a n gone. let (c, d) = up.dial a n in cc) broker others w in
      ap (λ (bs : List String). (dialled kit.kafka conf.conf (dial_brokers kit.kafka bs w)).0) e
      ∙ dialled_up conf.conf (dial_brokers kit.kafka (broker ∷ others) w) c
          (ap (λ (r : (Option Conn × Option Error) × W). r.0) first ∙ d) ok

  get_schema_codec_up :
      (address : String)
      → up.is_url address
      → (w : W)
      → (codec : Codec) × ((get_schema_codec kit.registry address (new_client kit.registry w)).0
          ≡ inl codec)
  unfolding get_schema_codec keep_codec lookup
  get_schema_codec_up address ok w =
      let (body, schema, codec, fetched, good, made) = up.schema address ok w in
      let body_is : (kit.registry.fetch address w).0.0 ≡ body =
        ap (λ (r : Document × Option Error). r.0) fetched in
      (
        codec,
        rw (up.request address ok, get_schema_codec)
            (rw (ap (λ (r : Document × Option Error). r.1) fetched)
              (rw (body_is, keep_codec) (rw good (rw made refl)))),
      )

  pub user_decoder-Yields :
      (conf : Config) → up.is_url (endpoint conf) → Yields (user_decoder kit conf) (λ c. Unit {0})
  unfolding get_decoder
  user_decoder-Yields conf ok w =
      let (codec, e) = get_schema_codec_up (endpoint conf) ok w in
      let w' : W = (get_decoder kit.registry (endpoint conf) (new_client kit.registry w)).1.http in
      (inl codec, w', ap (λ (r : Codec ⊎ Error). (returned r, w')) e, (codec, refl, tt))

  metrics_up :
      (telemetry_enabled : Bool) (w : W)
      → (new_consumer_metrics kit.meter telemetry_enabled w).0.1 ≡ none
  unfolding new_consumer_metrics
  metrics_up true w =
      rw (up.counter _ _, new_consumer_metrics)
        (rw (up.queue_length _ _) (rw (up.queue_capacity _ _) (rw (up.lag _ _) refl)))
  metrics_up false w = refl

  pub metrics-Yields :
      (telemetry_enabled : Bool)
      → Yields (user_consumer_metrics kit telemetry_enabled) (λ m. Unit {0})
  metrics-Yields telemetry_enabled w =
      let m = (new_consumer_metrics kit.meter telemetry_enabled w).0.0 in
      let w' : W = (new_consumer_metrics kit.meter telemetry_enabled w).1 in
      (
        inl m,
        w',
        ap (λ (o : Option Error). (returned (elim o [ none ↦ inl m | some e ↦ inr e ]), w'))
            (metrics_up telemetry_enabled w),
        (m, refl, tt),
      )

  pub created-Yields :
      (conf : TopicConfigs) (broker : String) (others : List String)
      → conf.brokers ≡ broker ∷ others
      → up.creates conf.conf
      → Yields (lift_error (create_topics kit.kafka conf)) (λ t. Unit {0})
  created-Yields conf broker others e ok w =
      let w' : W = (create_topics kit.kafka conf w).1 in
      (
        inl tt,
        w',
        ap (λ (o : Outcome (Option Error)). go_on (λ err v. (returned (unit_or err), v)) (o, w'))
            (create_topics_up conf broker others e ok w),
        (tt, refl, tt),
      )

  pub panicking-Yields :
      {A : Type 0} (m : Fallible W A) (P : A → Type 0) → Yields m P → Yields (lift (or_panic m)) P
  panicking-Yields m P fine w =
      let (r, v, e, (a, is_a, p)) = fine w in
      (
        inl a,
        v,
        ap (λ q. go_on (λ b u. (returned (inl b), u)) (go_on panicking q))
            (e ∙ ap (λ s. (returned s, v)) is_a),
        (a, refl, p),
      )
