-- ===== src/Create/Laws/Http.antt =====
-- POST /user, the controller of internal/user/create/controllerhttp.go.
use go_api_demo.Prelude.{
  ◌≡◌, refl, ap, Option, none, some, [], ◌∷◌, ◌⊎◌, inl, inr, String, Option-cases,
}
use go_api_demo.Error.{Error, Outcome, returned}
use go_api_demo.Context.{Context}
use go_api_demo.Json.{Document}
use go_api_demo.Response.{new_writer, write_response, write_500_response, write_error_response}
use go_api_demo.Server.{Host, Exchange}
use go_api_demo.Time.Rfc3339.{Zone}
use go_api_demo.User.{Creator}
use go_api_demo.Validate.{Engine}
use go_api_demo.Validate.Engine.{IsLawful}
use go_api_demo.Create.{InputData, user_of, Draw, view_model}
use go_api_demo.Create.Http.{decode_input, output, respond, validated, create_http}
use go_api_demo.Create.Laws.Interactor.{output_of, call, create-ok, create-failed}
use go_api_demo.Create.Laws.Input.{IsInput, validate-IsInput}

-- The body decodes to an input that keeps the rules.
abbrev pub Accepts : Document → Type 0
Accepts body = (input : InputData) × (decode_input body ≡ (input, none)) × IsInput input

some≢none {ℓ} : {A : Type ℓ} {a : A} → ◌≡◌ {A = Option A} (some a) none → ⊥
some≢none e = cc

module _ {S : Type 0} (engine : Engine) (lawful : IsLawful engine) (creator : Creator S)
    (zone : Zone) (render : Error → String) (ctx : Context) (draw : Draw) (body : Document)
    (h : Host S) where
  abbrev pub after : Outcome (Unit {0}) × Exchange S
  after =
      create_http engine creator zone render ctx draw body
        (record { writer = new_writer; host = h })

  -- A request that is refused: 400, and the store as it was.
  abbrev pub Refused : Exchange S → Type 0
  Refused x = (¬ Accepts body) × (x.writer.status ≡ some 400) × (x.host.store ≡ h.store)

  abbrev pub Stored : InputData → Exchange S → Type 0
  Stored input x =
      (decode_input body ≡ (input, none))
      × IsInput input
      × (x.host.store ≡ (call creator ctx draw input h.store).1)
      × (((e : Error) × ((call creator ctx draw input h.store).0 ≡ some e)
            × (x.writer.status ≡ some 500))
          ⊎ (((call creator ctx draw input h.store).0 ≡ none)
              × (x.writer.status ≡ some 201)
              × (x.writer.body ≡ output (view_model zone (output_of (user_of draw input))) ∷ [])
              × (x.host.sink ≡ h.sink)))

  -- With a lawful validation engine, every request gets an answer and no panic. A body that is no
  -- input, or one whose names break the rules, gets 400 and leaves the store as it was. Any other is
  -- stored by one call of the store with the user of the request: if that succeeds the answer is 201
  -- with the stored user for a body and nothing is logged, and if it fails the answer is 500.
  pub create_http_lem :
      (after.0 ≡ returned tt) × (Refused after.1 ⊎ ((input : InputData) × Stored input after.1))
  unfolding create_http write_response write_error_response write_500_response
  create_http_lem = elim (Option-cases (decode_input body).1) [
    | inr (e, bad) ↦
        rw (bad, create_http)
          (refl, inl (λ a. some≢none (ap (λ (r : InputData × Option Error). r.1) a.1), refl, refl))
    | inl fine ↦ elim (validate-IsInput engine lawful (decode_input body).0) [
      | inr (invalid, (list, e, k, l)) ↦
          rw (fine, create_http)
            (rw (e, validated)
              (
                refl,
                inl (
                  λ a. invalid (rw (ap (λ (r : InputData × Option Error). r.0) a.1) a.2),
                  refl,
                  refl,
                ),
              ))
      | inl (valid, e) ↦
          elim (Option-cases (call creator ctx draw (decode_input body).0 h.store).0) [
            | inl done ↦
                let made = create-ok creator ctx draw (decode_input body).0 h.store done in
                rw (fine, create_http)
                  (rw (e, validated)
                    (rw (made, respond)
                      (
                        refl,
                        inr (
                          (decode_input body).0,
                          (
                            refl,
                            valid,
                            ap (λ r. r.1) made,
                            inr (
                              done,
                              refl,
                              ap (λ r. output (view_model zone r.0.0) ∷ []) made,
                              refl,
                            ),
                          ),
                        ),
                      )))
            | inr (d, failed) ↦
                let made = create-failed creator ctx draw (decode_input body).0 h.store failed in
                rw (fine, create_http)
                  (rw (e, validated)
                    (rw (made, respond)
                      (
                        refl,
                        inr (
                          (decode_input body).0,
                          (refl, valid, ap (λ r. r.1) made, inl (d, failed, refl)),
                        ),
                      )))
          ]
    ]
  ]
