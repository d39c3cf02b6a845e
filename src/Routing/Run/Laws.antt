-- ===== src/Routing/Run/Laws.antt =====
-- On `Run` of internal/routing/http.go and internal/routing/grpc.go, for any order of events.
use go_api_demo.Prelude.{
  ◌≡◌, ◌≢◌, refl, String, Bool, true, false, Option, Option-cases, none, some, List, [], ◌∷◌, ◌⊎◌,
  inl, inr,
}
use go_api_demo.Error.{Error, made}
use go_api_demo.Log.{Sink}
use go_api_demo.Routing.Run.{
  Server, Serving, launched, http_result, Step, cancel, serve, stop, serve_return, Steps, here,
  next,
}

-- What is documented of a server, for what `result_of` makes of a result: it is nil only after a stop;
-- after a stop `Serve` can return, with a result as `After` says; answering requests stops nothing.
pub record IsServer {W : Type 0} (server : Server W) (result_of : Option Error → Option Error)
    (After : Option Error → Type 0) : Type 0 where
  pub stopped : W → Bool
  pub stop_stops : (e : Option Error) (w : W) → stopped (server.stop e w).1 ≡ true
  pub serves_same : (w v : W) → server.serves w v → stopped v ≡ stopped w
  pub nil_stopped :
      (w : W) (err : Option Error)
      → server.may_return w err
      → result_of err ≡ none
      → stopped w ≡ true
  pub stopped_returns :
      (w : W)
      → stopped w ≡ true
      → (err : Option Error) × server.may_return w err × After (result_of err)

-- `ErrServerClosed` is no error for the HTTP server.
abbrev pub IsNil : Option Error → Type 0
IsNil r = r ≡ none

-- `Serve` of gRPC returns nil if it was stopped while it ran, and `ErrServerStopped` if it was called
-- after the stop.
abbrev pub server_stopped : Error
server_stopped = made "grpc: the server has been stopped"

abbrev pub IsNilOrStopped : Option Error → Type 0
IsNilOrStopped r = (r ≡ none) ⊎ (r ≡ some server_stopped)

-- At most one call, with the error of a context that is done.
abbrev pub DoneOnce : List (Option Error) → Type 0
DoneOnce stops = (e : Error) × (stops ≡ some e ∷ [])

module _ {W : Type 0} (server : Server W) (render : Error → String)
    (result_of : Option Error → Option Error) (After : Option Error → Type 0)
    (lawful : IsServer server result_of After) (w : W) (sink : Sink) (ctx_err : Option Error)
    (running : lawful.stopped w ≡ false) where
  record IsValid (s : Serving W) : Type 0 where
    pub stops_once :
        ((s.stops ≡ []) × (s.waiting ≡ true) × (lawful.stopped s.world ≡ false))
        ⊎ (DoneOnce s.stops × (s.waiting ≡ false) × (lawful.stopped s.world ≡ true))
    pub nil_after : (s.result ≢ some none) ⊎ DoneOnce s.stops

  launched-IsValid : IsValid (launched w sink ctx_err)
  launched-IsValid = record { stops_once = inl (refl, refl, running); nil_after = inl (λ e. cc) }

  Step-IsValid : {s t : Serving W} → Step server render result_of s t → IsValid s → IsValid t
  Step-IsValid (cancel e c) v = record { stops_once = v.stops_once; nil_after = v.nil_after }
  Step-IsValid {s} (serve u r) v = record {
    stops_once = rw (lawful.serves_same s.world u r) v.stops_once;
    nil_after = v.nil_after;
  }
  Step-IsValid {s} (stop e c k) v = record {
    stops_once = elim v.stops_once [
      | inl (none_yet, waits, o) ↦
          inr ((e, rw (none_yet, c) refl), refl, lawful.stop_stops s.ctx_err s.world)
      | inr (once, waits, o) ↦ absurd (cc)
    ];
    nil_after = elim v.stops_once [
      | inl (none_yet, waits, o) ↦ inr (e, rw (none_yet, c) refl)
      | inr (once, waits, o) ↦ absurd (cc)
    ];
  }
  Step-IsValid {s} (serve_return err r m) v = record {
    stops_once = v.stops_once;
    nil_after = elim v.stops_once [
      | inl (none_yet, waits, o) ↦ inl (λ e.
          let h : result_of err ≡ none = cc in let d = lawful.nil_stopped s.world err m h in cc)
      | inr (once, waits, o) ↦ inr once
    ];
  }

  Steps-IsValid :
      {s : Serving W} → Steps server render result_of (launched w sink ctx_err) s → IsValid s
  Steps-IsValid here = launched-IsValid
  Steps-IsValid (next steps step) = Step-IsValid step (Steps-IsValid steps)

  -- What the server can come to from here: a return, with a result that may follow a stop.
  abbrev pub Ends : Serving W → Type 0
  Ends s =
      (t : Serving W) × Steps server render result_of s t
      × ((r : Option Error) × (t.result ≡ some r) × After r)

  end_stopped : (s : Serving W) → s.result ≡ none → lawful.stopped s.world ≡ true → Ends s
  end_stopped s r o =
      let (err, m, is_nil) = lawful.stopped_returns s.world o in
      (_, next here (serve_return err r m), (_, refl, is_nil))

  end_waiting :
      (s : Serving W) (e : Error) → s.result ≡ none → s.ctx_err ≡ some e → s.waiting ≡ true → Ends s
  end_waiting s e r c k =
      let (err, m, is_nil) =
        lawful.stopped_returns (server.stop s.ctx_err s.world).1
          (lawful.stop_stops s.ctx_err s.world) in
      (_, next (next here (stop e c k)) (serve_return err r m), (_, refl, is_nil))

  end_lem : (s : Serving W) → IsValid s → (s.result ≢ none) ⊎ ((s.ctx_err ≡ none) ⊎ Ends s)
  end_lem s v = elim (Option-cases s.result) [
    | inr (err, r) ↦ inl (λ e. cc)
    | inl r ↦ elim (Option-cases s.ctx_err) [
      | inl c ↦ inr (inl c)
      | inr (e, c) ↦ elim v.stops_once [
        | inl (none_yet, waits, o) ↦ inr (inr (end_waiting s e r c waits))
        | inr (once, waits, o) ↦ inr (inr (end_stopped s r o))
      ]
    ]
  ]

  abbrev pub RunOk : Serving W → Type 0
  RunOk s =
      ((s.stops ≡ []) ⊎ DoneOnce s.stops)
      × ((s.result ≢ some none) ⊎ DoneOnce s.stops)
      × ((s.result ≢ none) ⊎ ((s.ctx_err ≡ none) ⊎ Ends s))

  serving_lem :
      (s : Serving W) → Steps server render result_of (launched w sink ctx_err) s → RunOk s
  serving_lem s steps =
      let v = Steps-IsValid steps in
      (
        elim v.stops_once [
          | inl (none_yet, waits, o) ↦ inl none_yet
          | inr (once, waits, o) ↦ inr once
        ],
        v.nil_after,
        end_lem s v,
      )

module _ {W : Type 0} (server : Server W) (render : Error → String) (w : W) (sink : Sink)
    (ctx_err : Option Error) (s : Serving W) where
  -- A run of the HTTP server calls Shutdown at most once, and only with a context that is done; it
  -- returns nil only after that call; and from each point at which its context is done and it has not
  -- returned, it can go on to return nil.
  pub http_run_lem :
      (lawful : IsServer server http_result IsNil) (running : lawful.stopped w ≡ false)
      → Steps server render http_result (launched w sink ctx_err) s
      → RunOk server render http_result IsNil lawful w sink ctx_err running s
  http_run_lem lawful running =
      serving_lem server render http_result IsNil lawful w sink ctx_err running s

  -- A run of the gRPC server calls Stop at most once, and only after its context is done; it returns
  -- nil only after that call; and from each point at which its context is done and it has not
  -- returned, it can go on to return: nil, or the error of a server that was stopped before it served.
  pub grpc_run_lem :
      (lawful : IsServer server (λ err. err) IsNilOrStopped) (running : lawful.stopped w ≡ false)
      → Steps server render (λ err. err) (launched w sink ctx_err) s
      → RunOk server render (λ err. err) IsNilOrStopped lawful w sink ctx_err running s
  grpc_run_lem lawful running =
      serving_lem server render (λ err. err) IsNilOrStopped lawful w sink ctx_err running s
