-- ===== src/Tests/Telemetry.antt =====
-- The run and the shutdown of the telemetry component.
use go_api_demo.Prelude.{ℕ, true, none, some}
use go_api_demo.Error.{canceled}
use go_api_demo.Config.{Telemetry}
use go_api_demo.Int.{pos}
use go_api_demo.Telemetry.Run.{Otel}

-- Both shutdowns are cancelled.
abbrev otel : Otel ℕ
otel = record {
  new_resource = λ name w. (none, w);
  new_metric_exporter = λ endpoint w. (none, w);
  set_meter_provider = λ w. w;
  start_runtime = λ w. (none, w);
  new_trace_exporter = λ endpoint w. (none, w);
  set_text_map_propagator = λ w. w;
  set_tracer_provider = λ w. w;
  wait = λ w. w;
  shutdown_tracer = λ w. (some canceled, w);
  shutdown_meter = λ w. (some canceled, w);
}

abbrev conf : Telemetry
conf = record {
  service_name = "go-api-demo";
  exporter_target_end_point = "0.0.0.0:4317";
  metrics_collection_interval = pos 5000000000;
  enabled = true;
}
