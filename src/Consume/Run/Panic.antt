-- ===== src/Consume/Run/Panic.antt =====
-- `Run` of internal/consume/consumer.go where a message makes the decoder panic.
use mathlib.Core.Path.{subst}
use mathlib.Core.List.{append-nil}
use go_api_demo.Prelude.{
  ℕ, zero, suc, ◌<◌, String, ◌≡◌, inl, inr, refl, ap, sym, ◌∙◌, Bool, Option, Option-cases,
  Bool-cases, none, some, List, [], ◌∷◌, ◌++◌, length, arith,
}
use go_api_demo.Error.{Error, is_same, Outcome, Outcome-cases, panicked}
use go_api_demo.Context.{Context}
use go_api_demo.Consume.{Message, KafkaReader, Decoder, Processor, World, run}
use go_api_demo.Consume.Cases.{consume-panicked}
use go_api_demo.Consume.Run.{Event, delivered, hiccup, IsQueue, deal, deal_all, keep, NoPanic}
use go_api_demo.Consume.Run.Rounds.{run-end, run-hiccup, run-consumed, run-failed, run-panicked}
use go_api_demo.Consume.Run.Total.{
  inner, consume_func, cf-consume, loop, dealt, dealt-delivered, moved, Leaves, Leaves-step,
}
use go_api_demo.Consume.Run.Next.{round-hiccup, round-delivered}

module _ {R S Data : Type 0} (reader : KafkaReader R) (decoder : Decoder Data)
    (processor : Processor S Data) (render : Error → String)
    (consume_func : Context → Message → World R S → Outcome (Option Error) × World R S)
    (ctx : Context) (rounds : ℕ) where
  abbrev go_on :
      Option (Outcome (Option Error)) × World R S → Option (Outcome (Option Error)) × World R S
  go_on (none, w) = run reader decoder processor render consume_func rounds ctx w
  go_on (some result, w) = (some result, w)

  abbrev run_one : World R S → Option (Outcome (Option Error)) × World R S
  run_one w = run reader decoder processor render consume_func 1 ctx w

  -- The loop is its first round, and then the loop.
  run-go_on :
      (w : World R S)
      → run reader decoder processor render consume_func (suc rounds) ctx w ≡ go_on (run_one w)
  unfolding run
  run-go_on w =
      let f = reader.fetch_message ctx w.reader in
      elim (Option-cases f.0.1) [
        | inr (e, failed) ↦ elim (Bool-cases (is_same e (reader.ctx_err f.1))) [
          | inl same ↦
              run-end reader decoder processor render consume_func ctx rounds w failed same
              ∙ sym (
                  ap go_on
                    (run-end reader decoder processor render consume_func ctx zero w failed same))
          | inr other ↦
              run-hiccup reader decoder processor render consume_func ctx rounds w failed other
              ∙ sym (
                  ap go_on (
                    run-hiccup reader decoder processor render consume_func ctx zero w failed
                      other))
        ]
        | inl fine ↦
            let g : f.0 ≡ (f.0.0, none) = ap (λ o. (f.0.0, o)) fine in
            elim (Outcome-cases (consume_func ctx f.0.0 (record w { reader = f.1 })).0) [
              | inr (text, c) ↦
                  run-panicked reader decoder processor render consume_func ctx rounds w f.0.0 g c
                  ∙ sym (
                      ap go_on (
                        run-panicked reader decoder processor render consume_func ctx zero w f.0.0 g
                          c))
              | inl (some e, c) ↦
                  run-failed reader decoder processor render consume_func ctx rounds w f.0.0 g c
                  ∙ sym (
                      ap go_on (
                        run-failed reader decoder processor render consume_func ctx zero w f.0.0 g
                          c))
              | inl (none, c) ↦
                  run-consumed reader decoder processor render consume_func ctx rounds w f.0.0 g c
                  ∙ sym (
                      ap go_on (
                        run-consumed reader decoder processor render consume_func ctx zero w f.0.0 g
                          c))
            ]
      ]

module _ {R S Data : Type 0} (reader : KafkaReader R) (queue : IsQueue reader)
    (decoder : Decoder Data) (processor : Processor S Data)
    (start_span : Context → String → Context) (telemetry_enabled : Bool)
    (entity_type destination : String) (render : Error → String) (ctx : Context) where
  abbrev consuming : Context → Message → World R S → Outcome (Option Error) × World R S
  consuming =
      consume_func reader queue decoder processor start_span telemetry_enabled entity_type
        destination render ctx

  abbrev looped : ℕ → World R S → Option (Outcome (Option Error)) × World R S
  looped =
      loop reader queue decoder processor start_span telemetry_enabled entity_type destination
        render ctx

  abbrev span : Context
  span =
      inner reader queue decoder processor start_span telemetry_enabled entity_type destination
        render ctx

  abbrev dealt_at : List Event → S → List Message × S
  dealt_at =
      dealt reader queue decoder processor start_span telemetry_enabled entity_type destination
        render ctx

  abbrev LeavesHere : List Event → World R S → Option (Outcome (Option Error)) × World R S → Type 0
  LeavesHere =
      Leaves reader queue decoder processor start_span telemetry_enabled entity_type destination
        render ctx

  -- The loop has panicked with the text, and left what the events make of `w`.
  abbrev pub Dies :
      String → List Event → World R S → Option (Outcome (Option Error)) × World R S → Type 0
  Dies text es w t = (t.0 ≡ some (panicked text)) × LeavesHere es w t

  loop-GoesOn :
      (rounds : ℕ) (w : World R S)
      → (looped 1 w).0 ≡ none
      → looped (suc rounds) w ≡ looped rounds (looped 1 w).1
  loop-GoesOn rounds w goes_on =
      run-go_on reader decoder processor render consuming ctx rounds w
      ∙ ap (λ o. go_on reader decoder processor render consuming ctx rounds (o, (looped 1 w).1))
          goes_on

  -- A round for the first event, and the rest of the loop.
  Dies-step :
      (text : String) (e : Event) (es : List Event) (rounds : ℕ) (w : World R S)
      (now : List Message)
      → (looped 1 w).0 ≡ none
      → dealt_at (e ∷ es) w.store
        ≡ (now ++ (dealt_at es (looped 1 w).1.store).0, (dealt_at es (looped 1 w).1.store).1)
      → queue.committed (looped 1 w).1.reader ≡ queue.committed w.reader ++ now
      → Dies text es (looped 1 w).1 (looped rounds (looped 1 w).1)
      → Dies text (e ∷ es) w (looped (suc rounds) w)
  Dies-step text e es rounds w now goes_on split c (died, rest) =
      subst (Dies text (e ∷ es) w) (sym (loop-GoesOn rounds w goes_on)) (
        died,
        Leaves-step reader queue decoder processor start_span telemetry_enabled entity_type
            destination render ctx es (e ∷ es) w (looped 1 w).1 (looped rounds (looped 1 w).1) now
            split c rest,
      )

  split :
      (d : Message) (es : List Event) (w : World R S)
      → (looped 1 w).1.store ≡ (deal decoder processor span d w.store).1
      → dealt_at (delivered d ∷ es) w.store ≡ (
        keep decoder processor (deal decoder processor span d w.store).0 d []
            ++ (dealt_at es (looped 1 w).1.store).0,
        (dealt_at es (looped 1 w).1.store).1,
      )
  split d es w stored =
      dealt-delivered reader queue decoder processor start_span telemetry_enabled entity_type
        destination render ctx d es w.store refl
      ∙ ap
          (λ s. (
            keep decoder processor (deal decoder processor span d w.store).0 d []
                ++ (dealt_at es s).0,
            (dealt_at es s).1,
          ))
          (sym stored)

  module _ (m : Message) (value : List ℕ) (text : String) (after : List Event)
      (is_value : m.value ≡ some value) (panics : decoder value ≡ panicked text) where
    pub run_panic :
        (before : List Event) (rounds : ℕ) (w : World R S)
        → queue.pending w.reader ≡ before ++ (delivered m ∷ after)
        → NoPanic decoder processor before
        → length before < rounds
        → Dies text before w (looped rounds w)
    unfolding deal_all
    run_panic before zero w waiting calm enough = absurd (omega arith)
    run_panic [] (suc rounds) w waiting calm enough =
        let (f, p, k) = queue.fetch_delivered ctx w.reader m after waiting in
        let there : World R S =
          moved reader queue decoder processor start_span telemetry_enabled entity_type destination
            render ctx w in
        let died : consuming ctx m there ≡ (panicked text, there) =
          cf-consume reader queue decoder processor start_span telemetry_enabled entity_type
            destination render ctx m there
          ∙ consume-panicked reader decoder processor span m there value is_value text panics in
        let ended =
          run-panicked reader decoder processor render consuming ctx rounds w m f
            (ap (λ o. o.0) died)
          ∙ ap (λ (o : Outcome (Option Error) × World R S). (some (panicked text), o.1)) died in
        subst (Dies text [] w) (sym ended)
          (refl, (refl, k ∙ sym (append-nil (queue.committed w.reader))))
    run_panic (hiccup e ∷ before) (suc rounds) w waiting calm enough =
        let (goes_on, stored, pends, commits) =
          round-hiccup reader queue decoder processor start_span telemetry_enabled entity_type
            destination render ctx w e (before ++ (delivered m ∷ after)) waiting in
        Dies-step text (hiccup e) before rounds w [] goes_on
          (ap (λ s. dealt_at before s) (sym stored)) commits
          (run_panic before rounds (looped 1 w).1 pends calm (omega arith))
    run_panic (delivered d ∷ before) (suc rounds) w waiting calm enough =
        let (goes_on, stored, pends, commits) =
          round-delivered reader queue decoder processor start_span telemetry_enabled entity_type
            destination render ctx w d (before ++ (delivered m ∷ after)) waiting calm.0 in
        Dies-step text (delivered d) before rounds w
          (keep decoder processor (deal decoder processor span d w.store).0 d []) goes_on
          (split d before w stored) commits
          (run_panic before rounds (looped 1 w).1 pends calm.1 (omega arith))
