-- ===== src/App/Laws.antt =====
-- On `Run` of internal/app/app.go, for any components and any order of events.
use go_api_demo.Prelude.{
  ℕ, suc, ◌+◌, ◌≤◌, ◌≡◌, refl, ap, sym, ◌∙◌, Bool, Bool-cases, true, false, ◌||◌, Option, none,
  some, List, [], ◌∷◌, ◌++◌, ◌⊎◌, inl, inr, arith, length, if◌then◌else◌,
}
use go_api_demo.Prelude.Lists.{length-append, length-middle}
use go_api_demo.Error.{Error}
use go_api_demo.App.{
  Group, Running, ctx_done, started, Step, interrupt, finish, Steps, here, next, IsDone,
}

-- What is documented of an error group: the first error that a function returns is kept and cancels
-- the context; later results change neither.
pub record IsGroup {G : Type 0} (group : Group G) : Type 0 where
  pub error_start : group.error group.with_context ≡ none
  pub open_start : group.cancelled group.with_context ≡ false
  pub error_finish :
      (r : Option Error) (g : G)
      → group.error (group.finish r g) ≡ (elim (group.error g) [ none ↦ r | some e ↦ some e ])
  pub cancelled_finish :
      (r : Option Error) (g : G)
      → group.cancelled (group.finish r g) ≡ (elim r [ none ↦ group.cancelled g | some e ↦ true ])

abbrev pub first_error : List (Option Error) → Option Error
first_error [] = none
first_error (none ∷ rs) = first_error rs
first_error (some e ∷ rs) = some e

abbrev pub any_error : List (Option Error) → Bool
any_error [] = false
any_error (none ∷ rs) = any_error rs
any_error (some e ∷ rs) = true

first_error-append :
    (rs : List (Option Error)) (r : Option Error)
    → first_error (rs ++ r ∷ []) ≡ (elim (first_error rs) [ none ↦ r | some e ↦ some e ])
first_error-append [] none = refl
first_error-append [] (some e) = refl
first_error-append (none ∷ rs) r = first_error-append rs r
first_error-append (some e ∷ rs) r = refl

any_error-append :
    (rs : List (Option Error)) (r : Option Error)
    → any_error (rs ++ r ∷ []) ≡ (elim r [ none ↦ any_error rs | some e ↦ true ])
any_error-append [] none = refl
any_error-append [] (some e) = refl
any_error-append (none ∷ rs) r = any_error-append rs r
any_error-append (some e ∷ rs) none = refl
any_error-append (some e ∷ rs) (some d) = refl

done? : {C : Type 0} (cs : List C) → (¬ (cs ≡ [])) ⊎ (cs ≡ [])
done? [] = inr refl
done? (c ∷ cs) = inl (λ e. cc)

module _ {C G : Type 0} (group : Group G) (lawful : IsGroup group)
    (may_return : C → Bool → Option Error → Type 0) (components : List C) where
  -- The group knows what the components have returned.
  pub record IsValid (a : Running C G) : Type 0 where
    pub error_first : group.error a.group ≡ first_error a.results
    pub cancelled_any : group.cancelled a.group ≡ any_error a.results
    pub counted : length a.running + length a.results ≡ length components

  started-IsValid : IsValid (started group may_return components)
  started-IsValid = record {
    error_first = lawful.error_start;
    cancelled_any = lawful.open_start;
    counted = omega arith;
  }

  Step-IsValid : {a b : Running C G} → Step group may_return a b → IsValid a → IsValid b
  Step-IsValid (interrupt e) v = record {
    error_first = v.error_first;
    cancelled_any = v.cancelled_any;
    counted = v.counted;
  }
  Step-IsValid {a} (finish xs c ys err e m) v = record {
    error_first =
        lawful.error_finish err a.group
        ∙ ap (λ o. elim o [ none ↦ err | some d ↦ some d ]) v.error_first
        ∙ sym (first_error-append a.results err);
    cancelled_any =
        lawful.cancelled_finish err a.group
        ∙ ap (λ b. elim err [ none ↦ b | some d ↦ true ]) v.cancelled_any
        ∙ sym (any_error-append a.results err);
    counted =
        omega (
          arith,
          ap length e ∙ length-middle xs c ys,
          length-append a.results (err ∷ []),
          v.counted,
        );
  }

  Steps-IsValid :
      {n : ℕ} {a : Running C G}
      → Steps group may_return (started group may_return components) n a
      → IsValid a
  Steps-IsValid here = started-IsValid
  Steps-IsValid (next steps step) = Step-IsValid step (Steps-IsValid steps)

  -- In every execution, the context of the components is done exactly from the first signal or error
  -- on; and when `Run` returns, every component has returned, and the result is the error of the
  -- component that returned one first, and nil if none did.
  pub app_run_lem :
      (n : ℕ) (a : Running C G)
      → Steps group may_return (started group may_return components) n a
      → (ctx_done group may_return a ≡ (a.interrupted || any_error a.results))
        × ((¬ IsDone group may_return a)
            ⊎ ((length a.results ≡ length components)
                × (group.error a.group ≡ first_error a.results)))
  app_run_lem n a steps =
      let v = Steps-IsValid steps in
      (
        ap (λ b. a.interrupted || b) v.cancelled_any,
        elim (done? a.running) [
          | inl some_left ↦ inl some_left
          | inr done ↦ inr (omega (arith, ap length done, v.counted), v.error_first)
        ],
      )

  -- Signals and components that are left bound the steps that are left.
  abbrev steps_left : Running C G → ℕ
  steps_left a = length a.running + (if a.interrupted then 0 else 1)

  Step-steps_left :
      {a b : Running C G} → Step group may_return a b → steps_left a ≡ suc (steps_left b)
  Step-steps_left {a} (interrupt e) = ground arith
  Step-steps_left {a} (finish xs c ys err e m) = omega (arith, ap length e ∙ length-middle xs c ys)

  Steps-steps_left :
      {a : Running C G} {n : ℕ} {b : Running C G}
      → Steps group may_return a n b
      → steps_left a ≡ n + steps_left b
  Steps-steps_left here = omega arith
  Steps-steps_left (next steps step) = omega (arith, Steps-steps_left steps, Step-steps_left step)

  first_step :
      {a b : Running C G} {n : ℕ} {c : Running C G}
      → Step group may_return a b
      → Steps group may_return b n c
      → Steps group may_return a (suc n) c
  first_step step here = next here step
  first_step step (next steps last) = next (first_step step steps) last

  -- Every component can return once its context is done.
  abbrev pub Stops : Type 0
  Stops = (c : C) → (err : Option Error) × may_return c true err

  pub stop_all :
      Stops
      → (cs : List C) (a : Running C G) → a.running ≡ cs
      → ctx_done group may_return a ≡ true
      → (b : Running C G) × Steps group may_return a (length cs) b × IsDone group may_return b
  stop_all stops [] a e done = (a, here, e)
  stop_all stops (c ∷ cs) a e done =
      let (err, m) = stops c in
      let after : Running C G = record a {
        running = cs;
        group = group.finish err a.group;
        results = a.results ++ err ∷ [];
      } in
      let (b, steps, ended) =
        stop_all stops cs after refl (ground (arith, lawful.cancelled_finish err a.group)) in
      (b, first_step (finish [] c cs err e (rw done m)) steps, ended)

  -- Where every component can return once its context is done: no execution is longer than one step
  -- for each component and one for a signal, and from each point of an execution at which the
  -- context is done, `Run` can return, after as many steps as there are components left.
  pub app_run_stops :
      Stops
      → (n : ℕ) (a : Running C G) → Steps group may_return (started group may_return components) n a
      → (n ≤ length components + 1)
        × ((ctx_done group may_return a ≡ false)
            ⊎ ((b : Running C G) × Steps group may_return a (length a.running) b
                × IsDone group may_return b))
  app_run_stops stops n a steps = (
    omega (arith, Steps-steps_left steps),
    elim (Bool-cases (ctx_done group may_return a)) [
      | inr e ↦ inl e
      | inl e ↦ inr (stop_all stops a.running a refl e)
    ],
  )
