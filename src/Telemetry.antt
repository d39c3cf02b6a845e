-- ===== src/Telemetry.antt =====
-- internal/telemetry/telemetry.go: the shutdown of the telemetry component. The providers of traces
-- and of metrics are third-party code: a `Shutdown` holds the errors of shutting them down.
pub mod Run
pub mod Laws
use go_api_demo.Prelude.{String, Bool, true, false, Option, none, some, if◌then◌else◌}
use go_api_demo.Prelude.State.{State}
use go_api_demo.Error.{
  Error, message, is_canceled, join, nil_dereference, Outcome, returned, panicked,
}
use go_api_demo.Log.{Sink, errorf, infof}

pub record Shutdown : Type 0 where
  pub tracer : Option Error
  pub meter : Option Error

-- errors.Is(err, context.Canceled), where `none` is nil
abbrev pub was_canceled : Option Error → Bool
was_canceled none = false
was_canceled (some e) = is_canceled e

module _ (render : Error → String) where
  -- fmt.Sprintf("%+v", err)
  abbrev pub render_option : Option Error → String
  render_option none = "<nil>"
  render_option (some e) = render e

  -- After the call of `Shutdown` of one provider; `saved` is what is joined so far.
  unfoldable pub shut_down_one : Option Error → Option Error → State Sink (Outcome (Option Error))
  shut_down_one saved err s =
      let s' = if was_canceled err then s else errorf (render_option err) s in
      let joined = if was_canceled err then saved else join saved err in
      elim err [
        | none ↦ (panicked nil_dereference, s')
        | some e ↦ (returned joined, infof (message e) s')
      ]

  -- From `ctx.Done()` on, with both providers.
  unfoldable pub shut_down : Shutdown → State Sink (Outcome (Option Error))
  unfolding shut_down_one
  shut_down errs s =
      let (result, s') = shut_down_one none errs.tracer s in
      elim result [
        | panicked text ↦ (panicked text, s')
        | returned saved ↦ shut_down_one saved errs.meter s'
      ]
