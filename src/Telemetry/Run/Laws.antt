-- ===== src/Telemetry/Run/Laws.antt =====
-- On `Run` of internal/telemetry/telemetry.go.
use go_api_demo.Prelude.{String, ◌≡◌, Bool, true, Option, none, some, if◌then◌else◌}
use go_api_demo.Error.{Error, is_canceled, Outcome, returned}
use go_api_demo.Log.{Sink}
use go_api_demo.Config.{Telemetry}
use go_api_demo.Telemetry.Run.{Otel, set_up, after_set_up, run}

-- The error of a call that was cancelled.
abbrev pub IsCanceled : Option Error → Type 0
IsCanceled o = (e : Error) × (o ≡ some e) × (is_canceled e ≡ true)

module _ {W : Type 0} (otel : Otel W) (conf : Telemetry) (render : Error → String) (s : Sink)
    (w : W) where
  abbrev pub ready : W
  ready = otel.wait (set_up otel conf w).1

  -- The results of the two shutdowns.
  abbrev pub tracer_end : Option Error
  tracer_end = (otel.shutdown_tracer ready).0

  abbrev pub meter_end : Option Error
  meter_end = (otel.shutdown_meter (otel.shutdown_tracer ready).1).0

  abbrev pub result : Outcome (Option Error)
  result = (run otel conf render s w).0.0

  abbrev of : Bool → Outcome (Option Error)
  of b =
      (if b
        then after_set_up otel conf render s (set_up otel conf w)
        else ((returned none, s), otel.wait w)).0.0
