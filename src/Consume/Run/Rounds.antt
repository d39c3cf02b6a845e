-- ===== src/Consume/Run/Rounds.antt =====
-- One round of `Run` of internal/consume/consumer.go.
use mathlib.Core.Path.{subst₂}
use go_api_demo.Prelude.{
  ℕ, suc, String, ◌≡◌, ◌≢◌, ◌⊎◌, inl, inr, refl, ap, sym, ◌∙◌, Bool, true, false, Option,
  Option-cases, none, some, List, [], ◌∷◌, ◌++◌,
}
use go_api_demo.Error.{Error, message, is_same, Outcome, Outcome-cases, returned, panicked}
use go_api_demo.Context.{Context}
use go_api_demo.Log.{infof, log_error}
use go_api_demo.Consume.{Message, KafkaReader, Decoder, Processor, World, consume, run}
use go_api_demo.Consume.Cases.{
  committed, consume-tombstone, consume-undecodable, consume-failed, consume-processed,
}
use go_api_demo.Consume.Run.{IsQueue, deal, deal_value, deal_decoded, finish}

module _ {R S Data : Type 0} (reader : KafkaReader R) (queue : IsQueue reader)
    (decoder : Decoder Data) (processor : Processor S Data) (ctx : Context) (m : Message)
    (w : World R S) where
  abbrev pub taken : Outcome (Option Error) × World R S
  taken = consume reader decoder processor ctx m w

  -- What the outcome of a message has to do with the outcome of dealing with it: a message that is
  -- dealt with is committed and returns nil; another returns an error, and is not committed.
  abbrev pub Agrees : Outcome (Option Error) × World R S → Bool × S → Type 0
  Agrees t d =
      (t.1.store ≡ d.1)
      × (t.1.sink ≡ w.sink)
      × (queue.pending t.1.reader ≡ queue.pending w.reader)
      × (((d.0 ≡ true)
            × (t.0 ≡ returned none)
            × (queue.committed t.1.reader ≡ queue.committed w.reader ++ m ∷ []))
          ⊎ ((d.0 ≡ false)
              × ((e : Error) × (t.0 ≡ returned (some e)))
              × (queue.committed t.1.reader ≡ queue.committed w.reader)))

  Agrees-committed :
      (s : S)
      → Agrees (committed reader decoder processor ctx m w (record w { store = s })) (true, s)
  Agrees-committed s =
      let c = queue.commit_ok ctx w.reader m in (refl, refl, c.1, inl (refl, ap returned c.0, c.2))

  Agrees-failed :
      (s : S) (e : Error) → Agrees (returned (some e), record w { store = s }) (false, s)
  Agrees-failed s e = (refl, refl, refl, inr (refl, (e, refl), refl))

  deal-of :
      {value : List ℕ} {o : Outcome (Data × Option Error)}
      → m.value ≡ some value
      → decoder value ≡ o
      → deal decoder processor ctx m w.store ≡ deal_decoded decoder processor ctx o w.store
  unfolding deal
  deal-of e d =
      ap (λ v. deal_value decoder processor ctx v w.store) e
      ∙ ap (λ o. deal_decoded decoder processor ctx o w.store) d

  -- Where the message does not make the decoder panic, consuming it leaves the store as dealing with
  -- it does, the log and what is pending as they were, and returns nil and commits exactly this
  -- message if it is dealt with, and otherwise returns an error and commits nothing.
  pub consume-deal :
      ((value : List ℕ) (text : String) → m.value ≡ some value → decoder value ≢ panicked text)
      → Agrees taken (deal decoder processor ctx m w.store)
  unfolding deal
  consume-deal calm = elim (Option-cases m.value) [
    | inl e ↦
        subst₂ Agrees (sym (consume-tombstone reader decoder processor ctx m w e))
          (sym (ap (λ v. deal_value decoder processor ctx v w.store) e)) (Agrees-committed w.store)
    | inr (value, e) ↦ elim (Outcome-cases (decoder value)) [
      | inr (text, d) ↦ absurd (calm value text e d)
      | inl ((n_msg, some err), d) ↦
          subst₂ Agrees
            (sym (consume-undecodable reader decoder processor ctx m w value e n_msg err d))
            (sym (deal-of e d)) (Agrees-failed w.store err)
      | inl ((n_msg, none), d) ↦
          let s = (processor.process ctx n_msg w.store).1 in
          elim (Option-cases (processor.process ctx n_msg w.store).0) [
            | inr (err, f) ↦
                subst₂ Agrees
                  (sym (consume-failed reader decoder processor ctx m w value e n_msg d err f))
                  (sym (deal-of e d ∙ ap (λ o. finish decoder processor (o, s)) f))
                  (Agrees-failed s err)
            | inl f ↦
                subst₂ Agrees
                  (sym (consume-processed reader decoder processor ctx m w value e n_msg d f))
                  (sym (deal-of e d ∙ ap (λ o. finish decoder processor (o, s)) f))
                  (Agrees-committed s)
          ]
    ]
  ]

module _ {R S Data : Type 0} (reader : KafkaReader R) (decoder : Decoder Data)
    (processor : Processor S Data) (render : Error → String)
    (consume_func : Context → Message → World R S → Outcome (Option Error) × World R S)
    (ctx : Context) (rounds : ℕ) (w : World R S) where
  abbrev pub fetched : (Message × Option Error) × R
  fetched = reader.fetch_message ctx w.reader

  abbrev pub ran : ℕ → World R S → Option (Outcome (Option Error)) × World R S
  ran = λ n v. run reader decoder processor render consume_func n ctx v

  abbrev pub logged : Error → World R S → World R S
  logged e v = record v { sink = log_error render e v.sink }

  pub run-end :
      {e : Error}
      → fetched.0.1 ≡ some e
      → is_same e (reader.ctx_err fetched.1) ≡ true
      → ran (suc rounds) w
        ≡ (some (returned none), record w { reader = fetched.1; sink = infof (message e) w.sink })
  unfolding run
  run-end f s = rw (f, run) (rw s)

  pub run-hiccup :
      {e : Error}
      → fetched.0.1 ≡ some e
      → is_same e (reader.ctx_err fetched.1) ≡ false
      → ran (suc rounds) w ≡ ran rounds (logged e (record w { reader = fetched.1 }))
  unfolding run
  run-hiccup f s = rw (f, run) (rw s)

  module _ (m : Message) (f : fetched.0 ≡ (m, none)) where
    abbrev pub consumed : Outcome (Option Error) × World R S
    consumed = consume_func ctx m (record w { reader = fetched.1 })

    pub run-consumed : consumed.0 ≡ returned none → ran (suc rounds) w ≡ ran rounds consumed.1
    unfolding run
    run-consumed c =
        rw (ap (λ p. p.1) f, run)
          (rw (ap (λ p. p.0) f) (
            rw c (
              ap
                (λ (x : Message).
                  ran rounds (consume_func ctx x (record w { reader = fetched.1 })).1)
                (ap (λ p. p.0) f))))

    pub run-failed :
        {e : Error}
        → consumed.0 ≡ returned (some e)
        → ran (suc rounds) w ≡ ran rounds (logged e consumed.1)
    unfolding run
    run-failed {e} c =
        rw (ap (λ p. p.1) f, run)
          (rw (ap (λ p. p.0) f) (
            rw c (
              ap
                (λ (x : Message).
                  ran rounds (logged e (consume_func ctx x (record w { reader = fetched.1 })).1))
                (ap (λ p. p.0) f))))

    pub run-panicked :
        {text : String}
        → consumed.0 ≡ panicked text
        → ran (suc rounds) w ≡ (some (panicked text), consumed.1)
    unfolding run
    run-panicked {text} c =
        rw (ap (λ p. p.1) f, run)
          (rw (ap (λ p. p.0) f) (
            rw c (
              ap
                (λ (x : Message).
                  (some (panicked text), (consume_func ctx x (record w { reader = fetched.1 })).1))
                (ap (λ p. p.0) f))))
