-- ===== src/Telemetry/Laws.antt =====
-- On the second half of `Run` of internal/telemetry/telemetry.go.
use go_api_demo.Prelude.{String, ◌≡◌, ◌↔◌, refl, true, Option, none, some, ◌⊎◌, inl, inr, arith}
use go_api_demo.Error.{Error, is_canceled, join, Outcome, returned, panicked}
use go_api_demo.Log.{Sink}
use go_api_demo.Telemetry.{shut_down_one, shut_down}

module _ (render : Error → String) (s : Sink) where
  abbrev pub ended : Option Error → Option Error → Outcome (Option Error)
  ended tracer meter = (shut_down render (record { tracer = tracer; meter = meter }) s).0

  -- Both calls returned an error; the result is nil exactly if both errors are cancellations.
  abbrev pub Reports : Option Error → Option Error → Type 0
  Reports tracer meter =
      (d : Error) × (e : Error) × (tracer ≡ some d)
      × (meter ≡ some e)
      × ((x : Option Error) × (ended tracer meter ≡ returned x)
          × ((x ≡ none) ↔ ((is_canceled d ≡ true) × (is_canceled e ≡ true))))

  -- After the context is done, with both providers: if each shutdown returns an error, then the
  -- component returns nil exactly if both are cancellations; if one of them succeeds, it panics.
  pub shut_down_lem :
      (tracer meter : Option Error)
      → Reports tracer meter
        ⊎ (((tracer ≡ none) ⊎ (meter ≡ none))
            × ((text : String) × (ended tracer meter ≡ panicked text)))
  unfolding shut_down shut_down_one join
  shut_down_lem none meter = inr (inl refl, (_, refl))
  shut_down_lem (some d) none = inr (inr refl, (_, refl))
  shut_down_lem (some d) (some e) = inl (d, e, refl, refl, (_, refl, ground arith))
