-- ===== src/Consume/Run/Next.antt =====
-- One round of `Run` of internal/consume/consumer.go.
use mathlib.Core.Path.{subst}
use mathlib.Core.List.{append-nil}
use go_api_demo.Prelude.{
  ℕ, zero, String, ◌≡◌, ◌≢◌, inl, inr, refl, ap, sym, ◌∙◌, Bool, Option, none, some, List, [], ◌∷◌,
  ◌++◌,
}
use go_api_demo.Error.{Error, is_same, Outcome, returned, panicked}
use go_api_demo.Context.{Context}
use go_api_demo.Consume.{Message, KafkaReader, Decoder, Processor, World, run}
use go_api_demo.Consume.Run.{Event, delivered, hiccup, IsQueue, deal, keep}
use go_api_demo.Consume.Run.Rounds.{
  Agrees, consume-deal, run-end, run-hiccup, run-consumed, run-failed,
}
use go_api_demo.Consume.Run.Total.{inner, consume_func, cf-consume, loop, moved}

module _ {R S Data : Type 0} (reader : KafkaReader R) (queue : IsQueue reader)
    (decoder : Decoder Data) (processor : Processor S Data)
    (start_span : Context → String → Context) (telemetry_enabled : Bool)
    (entity_type destination : String) (render : Error → String) (ctx : Context)
    (w : World R S) where
  abbrev pub round : Option (Outcome (Option Error)) × World R S
  round =
      loop reader queue decoder processor start_span telemetry_enabled entity_type destination
        render ctx 1 w

  abbrev consuming : Context → Message → World R S → Outcome (Option Error) × World R S
  consuming =
      consume_func reader queue decoder processor start_span telemetry_enabled entity_type
        destination render ctx

  abbrev pub span : Context
  span =
      inner reader queue decoder processor start_span telemetry_enabled entity_type destination
        render ctx

  abbrev after_fetch : World R S
  after_fetch =
      moved reader queue decoder processor start_span telemetry_enabled entity_type destination
        render ctx w

  -- The loop goes on, and this is left.
  abbrev pub GoesOn :
      List Event → List Message → S → Option (Outcome (Option Error)) × World R S → Type 0
  GoesOn es now s t =
      (t.0 ≡ none)
      × (t.1.store ≡ s)
      × (queue.pending t.1.reader ≡ es)
      × (queue.committed t.1.reader ≡ queue.committed w.reader ++ now)

  pub round-end :
      queue.pending w.reader ≡ []
      → (round.0 ≡ some (returned none))
        × (round.1.store ≡ w.store)
        × (queue.committed round.1.reader ≡ queue.committed w.reader)
  unfolding is_same
  round-end waiting =
      let (f, c, k) = queue.fetch_end ctx w.reader waiting in
      let e = run-end reader decoder processor render consuming ctx zero w f (rw c) in
      subst
        (λ t.
          (t.0 ≡ some (returned none))
          × (t.1.store ≡ w.store)
          × (queue.committed t.1.reader ≡ queue.committed w.reader))
        (sym e) (refl, refl, k)

  pub round-hiccup :
      (e : Error) (es : List Event)
      → queue.pending w.reader ≡ hiccup e ∷ es
      → GoesOn es [] w.store round
  unfolding run
  round-hiccup e es waiting =
      let (f, c, p, k) = queue.fetch_hiccup ctx w.reader e es waiting in
      let step = run-hiccup reader decoder processor render consuming ctx zero w f c in
      subst (GoesOn es [] w.store) (sym step)
        (refl, refl, p, k ∙ sym (append-nil (queue.committed w.reader)))

  pub round-delivered :
      (m : Message) (es : List Event)
      → queue.pending w.reader ≡ delivered m ∷ es
      → ((value : List ℕ) (text : String) → m.value ≡ some value → decoder value ≢ panicked text)
      → GoesOn es
          (keep decoder processor (deal decoder processor span m w.store).0 m [])
          (deal decoder processor span m w.store).1
          round
  unfolding run
  round-delivered m es waiting calm =
      let (f, p, k) = queue.fetch_delivered ctx w.reader m es waiting in
      let d = deal decoder processor span m w.store in
      let agrees =
        subst (λ t. Agrees reader queue decoder processor span m after_fetch t d)
          (sym (
            cf-consume reader queue decoder processor start_span telemetry_enabled entity_type
              destination render ctx m after_fetch))
          (consume-deal reader queue decoder processor span m after_fetch calm) in
      let (stored, _, pends, cases) = agrees in
      elim cases [
        | inl (g, r, c) ↦
            subst (GoesOn es (keep decoder processor d.0 m []) d.1)
              (sym (run-consumed reader decoder processor render consuming ctx zero w m f r))
              (
                refl,
                stored,
                pends ∙ p,
                c
                    ∙ ap (λ l. l ++ m ∷ []) k
                    ∙ ap (λ b. queue.committed w.reader ++ keep decoder processor b m []) (sym g),
              )
        | inr (g, (e, r), c) ↦
            subst (GoesOn es (keep decoder processor d.0 m []) d.1)
              (sym (run-failed reader decoder processor render consuming ctx zero w m f r))
              (
                refl,
                stored,
                pends ∙ p,
                c
                    ∙ k
                    ∙ sym (append-nil (queue.committed w.reader))
                    ∙ ap (λ b. queue.committed w.reader ++ keep decoder processor b m []) (sym g),
              )
      ]
