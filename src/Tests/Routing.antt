-- ===== src/Tests/Routing.antt =====
-- The runs of the two servers.
use go_api_demo.Prelude.{◌≡◌, refl, Bool, true, false, Option, none, some, [], ◌∷◌, inl}
use go_api_demo.Error.{Error, canceled, server_closed, made}
use go_api_demo.Routing.Run.{Server, Serving, http_result, cancel, stop, here, next}
use go_api_demo.Routing.Run.Laws.{
  IsNil, IsNilOrStopped, IsServer, RunOk, http_run_lem, grpc_run_lem,
}
use go_api_demo.Tests.Fixtures.{render, sink}

-- The world is whether the server was stopped; it answers requests without a change.
data Same (w : Bool) : Bool → Type 0 where
  same : Same w w

data MayReturn (ended : Option Error) : Bool → Option Error → Type 0 where
  failed : MayReturn ended false (some (made "accept"))
  closed : MayReturn ended true ended

abbrev server : Option Error → Server Bool
server ended = record {
  listen = λ address w. (none, w);
  stop = λ e w. (none, true);
  serves = Same;
  may_return = MayReturn ended;
}

served : (w v : Bool) → Same w v → v ≡ w
served w _ same = refl

http_returns :
    (w : Bool) (err : Option Error)
    → MayReturn (some server_closed) w err
    → http_result err ≡ none
    → w ≡ true
unfolding http_result
http_returns _ _ failed e = cc
http_returns _ _ closed e = refl

grpc_returns : (w : Bool) (err : Option Error) → MayReturn none w err → err ≡ none → w ≡ true
grpc_returns _ _ failed e = cc
grpc_returns _ _ closed e = refl

http_ends :
    (w : Bool)
    → w ≡ true
    → (err : Option Error) × MayReturn (some server_closed) w err × (http_result err ≡ none)
unfolding http_result
http_ends true e = (some server_closed, closed, refl)
http_ends false e = absurd (cc)

grpc_ends : (w : Bool) → w ≡ true → (err : Option Error) × MayReturn none w err × IsNilOrStopped err
grpc_ends true e = (none, closed, inl refl)
grpc_ends false e = absurd (cc)

http-IsServer : IsServer (server (some server_closed)) http_result IsNil
http-IsServer = record {
  stopped = λ w. w;
  stop_stops = λ e w. refl;
  serves_same = served;
  nil_stopped = http_returns;
  stopped_returns = http_ends;
}

grpc-IsServer : IsServer (server none) (λ err. err) IsNilOrStopped
grpc-IsServer = record {
  stopped = λ w. w;
  stop_stops = λ e w. refl;
  serves_same = served;
  nil_stopped = grpc_returns;
  stopped_returns = grpc_ends;
}

http_open : http-IsServer.stopped false ≡ false
unfolding http-IsServer
http_open = refl

grpc_open : grpc-IsServer.stopped false ≡ false
unfolding grpc-IsServer
grpc_open = refl

-- A server whose context has ended and that was stopped.
abbrev serving : Serving Bool
serving = record {
  world = true;
  sink = sink;
  ctx_err = some canceled;
  waiting = false;
  stops = some canceled ∷ [];
  result = none;
}

http_run_lem_example :
    RunOk
      (server (some server_closed))
      render
      http_result
      IsNil
      http-IsServer
      false
      sink
      none
      http_open
      serving
http_run_lem_example =
    http_run_lem (server (some server_closed)) render false sink none serving http-IsServer
      http_open (next (next here (cancel canceled refl)) (stop canceled refl refl))

grpc_run_lem_example :
    RunOk
      (server none)
      render
      (λ err. err)
      IsNilOrStopped
      grpc-IsServer
      false
      sink
      none
      grpc_open
      serving
grpc_run_lem_example =
    grpc_run_lem (server none) render false sink none serving grpc-IsServer grpc_open
      (next (next here (cancel canceled refl)) (stop canceled refl refl))
