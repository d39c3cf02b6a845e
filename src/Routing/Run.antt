-- ===== src/Routing/Run.antt =====
-- `Run` of internal/routing/http.go and of internal/routing/grpc.go. A server is what the code calls
-- of it. The goroutine that waits for the context and the call of `Serve` run side by side: a step is
-- the end of the context, the answer to requests, the goroutine's call after the context's end, or the
-- return of `Serve`.
pub mod Laws
use go_api_demo.Prelude.{
  ℕ, zero, suc, String, ◌<>◌, Bool, true, false, ◌≡◌, Option, none, some, List, [], ◌∷◌, ◌++◌,
}
use go_api_demo.Prelude.State.{State}
use go_api_demo.Error.{Error, message, server_closed, Outcome, returned, panicked}
use go_api_demo.Log.{Sink, infof, panicf, log_error}
use go_api_demo.Int.{ℤ, show}

-- `stop` is `Shutdown`, which gets the context's error, or `Stop`, which gets and returns nothing.
-- `serves w v`: in the state `w`, answering requests can lead to `v`; `may_return w err`: in the
-- state `w`, `Serve` can return `err`.
pub record Server (W : Type 0) : Type 1 where
  pub listen : String → State W (Option Error)
  pub stop : Option Error → State W (Option Error)
  pub serves : W → W → Type 0
  pub may_return : W → Option Error → Type 0

-- A server that was started. `stops` has, for each call of `stop`, the context's error at that time,
-- and `result` is what `Run` has returned.
pub record Serving (W : Type 0) : Type 0 where
  pub world : W
  pub sink : Sink
  pub ctx_err : Option Error
  pub waiting : Bool
  pub stops : List (Option Error)
  pub result : Option (Option Error)

abbrev pub launched : {W : Type 0} → W → Sink → Option Error → Serving W
launched w sink ctx_err = record {
  world = w;
  sink = sink;
  ctx_err = ctx_err;
  waiting = true;
  stops = [];
  result = none;
}

-- `err == http.ErrServerClosed`, for an `err` that is not nil.
unfoldable pub http_result : Option Error → Option Error
http_result none = none
http_result (some server_closed) = none
http_result (some e) = some e

module _ {W : Type 0} (server : Server W) (render : Error → String) where
  -- The start of the HTTP server: the error of `Listen`, or the server that runs.
  unfoldable pub start_http : ℤ → State (W × Sink) (Option Error)
  start_http port (w, sink) =
      let (err, w') = server.listen (":" <> show port) w in
      elim err [
        | some e ↦ (some e, (w', sink))
        | none ↦ (none, (w', infof ("HTTP server running on port " <> show port) sink))
      ]

  -- The start of the gRPC server, which panics where `Listen` returns an error.
  unfoldable pub start_grpc : ℤ → State (W × Sink) (Outcome (Unit {0}))
  start_grpc port (w, sink) =
      let (err, w') = server.listen (":" <> show port) w in
      elim err [
        | some e ↦
            let (result, sink') = panicf ("failed to listen: " <> message e) sink in
            (result, (w', sink'))
        | none ↦ (returned tt, (w', infof ("gRPC server running on port " <> show port) sink))
      ]

  -- The error of the goroutine's `Shutdown`.
  abbrev pub stop_logged : Option Error → Sink → Sink
  stop_logged none sink = sink
  stop_logged (some e) sink = log_error render e sink

  -- `result_of` is what `Run` makes of the result of `Serve`.
  module _ (result_of : Option Error → Option Error) where
    pub data Step (s : Serving W) : Serving W → Type 0 where
      cancel : (e : Error) → s.ctx_err ≡ none → Step s (record s { ctx_err = some e })
      serve : (w : W) → server.serves s.world w → Step s (record s { world = w })
      stop :
          (e : Error)
          → s.ctx_err ≡ some e
          → s.waiting ≡ true
          → Step s (record s {
            world = (server.stop s.ctx_err s.world).1;
            sink = stop_logged (server.stop s.ctx_err s.world).0 s.sink;
            waiting = false;
            stops = s.stops ++ s.ctx_err ∷ [];
          })
      serve_return :
          (err : Option Error)
          → s.result ≡ none
          → server.may_return s.world err
          → Step s (record s { result = some (result_of err) })

    pub data Steps (s : Serving W) : Serving W → Type 0 where
      here : Steps s s
      next : {t u : Serving W} → Steps s t → Step t u → Steps s u
