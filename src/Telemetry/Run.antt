-- ===== src/Telemetry/Run.antt =====
-- `Run` of internal/telemetry/telemetry.go. OpenTelemetry is third-party code: `Otel` is what the code
-- calls of it, on the state `W`. `wait` is what the world is when the context is done.
pub mod Laws
use go_api_demo.Prelude.{String, Bool, true, false, Option, none, some, if◌then◌else◌}
use go_api_demo.Prelude.State.{State}
use go_api_demo.Error.{Error, Outcome, returned, panicked}
use go_api_demo.Log.{Sink}
use go_api_demo.Config.{Telemetry}
use go_api_demo.Telemetry.{shut_down_one}

pub record Otel (W : Type 0) : Type 0 where
  pub new_resource : String → State W (Option Error)
  pub new_metric_exporter : String → State W (Option Error)
  pub set_meter_provider : W → W
  pub start_runtime : State W (Option Error)
  pub new_trace_exporter : String → State W (Option Error)
  pub set_text_map_propagator : W → W
  pub set_tracer_provider : W → W
  pub wait : W → W
  pub shutdown_tracer : State W (Option Error)
  pub shutdown_meter : State W (Option Error)

module _ {W : Type 0} (otel : Otel W) (conf : Telemetry) where
  unfoldable pub meter_provider : State W (Option Error)
  meter_provider w =
      let (err, w') = otel.new_metric_exporter conf.exporter_target_end_point w in
      elim err [ some e ↦ (some e, w') | none ↦ otel.start_runtime (otel.set_meter_provider w') ]

  unfoldable pub tracer_provider : State W (Option Error)
  tracer_provider w =
      let (err, w') = otel.new_trace_exporter conf.exporter_target_end_point w in
      elim err [
        | some e ↦ (some e, w')
        | none ↦ (none, otel.set_tracer_provider (otel.set_text_map_propagator w'))
      ]

  -- What an enabled component does before it waits.
  unfoldable pub set_up : State W (Option Error)
  unfolding meter_provider tracer_provider
  set_up w =
      let (err1, w1) = otel.new_resource conf.service_name w in
      elim err1 [
        | some e ↦ (some e, w1)
        | none ↦
            let (err2, w2) = meter_provider w1 in
            elim err2 [ some e ↦ (some e, w2) | none ↦ tracer_provider w2 ]
      ]

  module _ (render : Error → String) where
    -- On from the shutdown of the tracer provider.
    unfoldable pub stop_meter :
        Outcome (Option Error) × Sink → State W (Outcome (Option Error) × Sink)
    stop_meter (panicked text, s) w = ((panicked text, s), w)
    stop_meter (returned saved, s) w =
        let (err, w') = otel.shutdown_meter w in (shut_down_one render saved err s, w')

    -- On from what an enabled component does before it waits.
    unfoldable pub after_set_up : Sink → Option Error × W → (Outcome (Option Error) × Sink) × W
    unfolding stop_meter
    after_set_up s (some e, w) = ((returned (some e), s), w)
    after_set_up s (none, w) =
        let (err, w') = otel.shutdown_tracer (otel.wait w) in
        stop_meter (shut_down_one render none err s) w'

    unfoldable pub run : Sink → State W (Outcome (Option Error) × Sink)
    unfolding set_up after_set_up
    run s w = if conf.enabled then after_set_up s (set_up w) else ((returned none, s), otel.wait w)
