-- ===== src/App.antt =====
-- internal/app/app.go. The error group of golang.org/x/sync is third-party code: `Group` is what the
-- code calls of it. A component's `Run` is any code that returns at some time: `may_return` is what
-- it can return while its context is open or done. A step of the application is a signal, which
-- cancels the context that `main` passes, or the return of one component.
pub mod Laws
use go_api_demo.Prelude.{
  ℕ, zero, suc, String, Bool, true, false, ◌||◌, ◌≡◌, Option, none, some, List, [], ◌∷◌, ◌++◌,
}
use go_api_demo.Error.{Error, nil_dereference, Outcome, returned, panicked}

-- `cancelled` is whether the context of the group is done by the group's own doing; `error` is what
-- `Wait` returns when all functions have returned.
pub record Group (G : Type 0) : Type 0 where
  pub with_context : G
  pub finish : Option Error → G → G
  pub error : G → Option Error
  pub cancelled : G → Bool

-- The application while `Run` waits. `results` are those of the components that have
-- returned, in order; the code does not keep them.
pub record Running (C G : Type 0) : Type 0 where
  pub running : List C
  pub group : G
  pub interrupted : Bool
  pub results : List (Option Error)

module _ {C G : Type 0} (group : Group G) (may_return : C → Bool → Option Error → Type 0) where
  abbrev pub ctx_done : Running C G → Bool
  ctx_done a = a.interrupted || group.cancelled a.group

  -- `Run`, when each component has been handed to the group.
  abbrev pub started : List C → Running C G
  started components = record {
    running = components;
    group = group.with_context;
    interrupted = false;
    results = [];
  }

  pub data Step (a : Running C G) : Running C G → Type 0 where
    interrupt : a.interrupted ≡ false → Step a (record a { interrupted = true })
    finish :
        (xs : List C) (c : C) (ys : List C) (err : Option Error)
        → a.running ≡ xs ++ c ∷ ys
        → may_return c (ctx_done a) err
        → Step a (record a {
          running = xs ++ ys;
          group = group.finish err a.group;
          results = a.results ++ err ∷ [];
        })

  -- `n` steps.
  pub data Steps (a : Running C G) : ℕ → Running C G → Type 0 where
    here : Steps a zero a
    next : {n : ℕ} {b c : Running C G} → Steps a n b → Step b c → Steps a (suc n) c

  -- `Wait` returns, and `Run` with it.
  abbrev pub IsDone : Running C G → Type 0
  IsDone a = a.running ≡ []

-- A closer changes the state of the world, and its error is dropped; `none` is nil.
abbrev pub Closer : Type 0 → Type 0
Closer S = S → S

unfoldable pub close : {S : Type 0} → List (Option (Closer S)) → S → Outcome (Unit {0}) × S
close [] s = (returned tt, s)
close (some c ∷ closers) s = close closers (c s)
close (none ∷ closers) s = (panicked nil_dereference, s)
