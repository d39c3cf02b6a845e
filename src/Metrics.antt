-- ===== src/Metrics.antt =====
-- internal/metrics/metrics.go. The meter of OpenTelemetry is third-party code: `Meter` is what the
-- code calls of it. A callback is the values that its closure holds, and `observe` is its body; the
-- closure has a copy of the metrics of its own. An int64 is its 64 bits, as a number.
pub mod Laws
use go_api_demo.Prelude.{
  ℕ, ◌+◌, ◌%◌, ◌^◌, String, Bool, Option, none, some, List, [], ◌∷◌, if◌then◌else◌,
}
use go_api_demo.Prelude.State.{State}
use go_api_demo.Error.{Error}

pub record ConsumerMetricsLabels : Type 0 where
  pub entity_type : String
  pub destination : String

-- The zero value has no instruments.
pub record ConsumerMetrics (I : Type 0) : Type 0 where
  pub msg_counter : Option I
  pub queue_length_gauge : Option I
  pub queue_capacity_gauge : Option I
  pub lag_gauge : Option I
  pub total_msg_count : ℕ

pub record ConsumerMetricsCollector (I : Type 0) : Type 0 where
  pub metrics : ConsumerMetrics I
  pub metrics_labels : ConsumerMetricsLabels

-- kafka.ReaderStats, as far as the code reads it.
pub record ReaderStats : Type 0 where
  pub messages : ℕ
  pub queue_length : ℕ
  pub queue_capacity : ℕ
  pub lag : ℕ

pub record Observation (I : Type 0) : Type 0 where
  pub instrument : Option I
  pub value : ℕ
  pub attributes : List (String × String)

-- `stats` is the reader whose `Stats` is called.
pub record Callback (I R : Type 0) : Type 0 where
  pub metrics : ConsumerMetrics I
  pub stats : R
  pub attributes : List (String × String)

pub record Meter (W I R : Type 0) : Type 0 where
  pub int64_observable_counter : String → String → State W (Option I × Option Error)
  pub int64_observable_gauge : String → String → State W (Option I × Option Error)
  pub register_callback : Callback I R → List (Option I) → State W (Option Error)

module _ {I : Type 0} where
  abbrev pub no_metrics : ConsumerMetrics I
  no_metrics = record {
    msg_counter = none;
    queue_length_gauge = none;
    queue_capacity_gauge = none;
    lag_gauge = none;
    total_msg_count = 0;
  }

  -- The body of the callback: what it observes, and the metrics after it.
  unfoldable pub observe :
      List (String × String) → ReaderStats → State (ConsumerMetrics I) (List (Observation I))
  observe attributes stats m =
      let total = (m.total_msg_count + stats.messages) % 2 ^ 64 in
      (
        record { instrument = m.msg_counter; value = total; attributes = attributes }
            ∷ record {
              instrument = m.queue_length_gauge;
              value = stats.queue_length;
              attributes = attributes;
            }
            ∷ record {
              instrument = m.queue_capacity_gauge;
              value = stats.queue_capacity;
              attributes = attributes;
            }
            ∷ record { instrument = m.lag_gauge; value = stats.lag; attributes = attributes }
            ∷ [],
        record m { total_msg_count = total },
      )

  module _ {W R : Type 0} (meter : Meter W I R) where
    unfoldable pub new_consumer_metrics : Bool → State W (ConsumerMetrics I × Option Error)
    new_consumer_metrics telemetry_enabled w =
        if telemetry_enabled
        then (let ((counter, err1), w1) =
              meter.int64_observable_counter "kafka_consumer_messages_total"
                "Total number of Kafka messages consumed regardless of success or failure" w in
            elim err1 [
              | some e ↦ ((no_metrics, some e), w1)
              | none ↦
                  let ((queue_length, err2), w2) =
                    meter.int64_observable_gauge "kafka_consumer_queue_length"
                      "Queue length of Kafka consumer" w1 in
                  elim err2 [
                    | some e ↦ ((no_metrics, some e), w2)
                    | none ↦
                        let ((queue_capacity, err3), w3) =
                          meter.int64_observable_gauge "kafka_consumer_queue_capacity"
                            "Queue capacity of Kafka consumer" w2 in
                        elim err3 [
                          | some e ↦ ((no_metrics, some e), w3)
                          | none ↦
                              let ((lag, err4), w4) =
                                meter.int64_observable_gauge "kafka_consumer_lag"
                                  "Lag of Kafka consumer" w3 in
                              elim err4 [
                                | some e ↦ ((no_metrics, some e), w4)
                                | none ↦ (
                                  (
                                    record {
                                      msg_counter = counter;
                                      queue_length_gauge = queue_length;
                                      queue_capacity_gauge = queue_capacity;
                                      lag_gauge = lag;
                                      total_msg_count = 0;
                                    },
                                    none,
                                  ),
                                  w4,
                                )
                              ]
                        ]
                  ]
            ])
        else ((no_metrics, none), w)

    unfoldable pub register_metrics :
        ConsumerMetricsCollector I → Bool → R → String → State W (Option Error)
    register_metrics m telemetry_enabled stats group_id w =
        if telemetry_enabled
        then meter.register_callback
            (record {
              metrics = m.metrics;
              stats = stats;
              attributes =
                  ("consumer", group_id)
                  ∷ ("entity_type", m.metrics_labels.entity_type)
                  ∷ ("destination", m.metrics_labels.destination)
                  ∷ [];
            })
            (m.metrics.msg_counter ∷ m.metrics.queue_length_gauge ∷ m.metrics.queue_capacity_gauge
              ∷ m.metrics.lag_gauge ∷ [])
            w
        else (none, w)
