-- ===== src/Consume.antt =====
-- internal/consume/consumer.go: the loop that takes messages from Kafka, has them decoded and
-- processed, and commits them. The Kafka reader is third-party code, behind the interface of the
-- source. `Run` loops for ever: the model takes the number of rounds, and says `none` when they are
-- used up. `ctx.Err()` changes while the loop runs: it is read off the state of the reader's world.
pub mod Cases
pub mod Consumers
pub mod Laws
pub mod Run
use go_api_demo.Prelude.{
  ℕ, zero, suc, String, ◌<>◌, Bool, true, false, Option, none, some, List, [], ◌∷◌, if◌then◌else◌,
  digits,
}
use go_api_demo.Prelude.State.{State}
use go_api_demo.Error.{Error, message, is_same, Outcome, returned, panicked}
use go_api_demo.Context.{Context}
use go_api_demo.Log.{Sink, infof, log_error}

-- The value of a message is its bytes, or nil.
pub record Message : Type 0 where
  pub value : Option (List ℕ)
  pub partition : ℕ
  pub offset : ℕ

pub record KafkaReader (R : Type 0) : Type 0 where
  pub fetch_message : Context → State R (Message × Option Error)
  pub commit_messages : Context → List Message → State R (Option Error)
  pub ctx_err : R → Option Error

-- Decode may panic, as the decoder of internal/schema does on a short message.
abbrev pub Decoder : Type 0 → Type 0
Decoder Data = List ℕ → Outcome (Data × Option Error)

pub record Processor (S Data : Type 0) : Type 0 where
  pub process : Context → Data → State S (Option Error)

-- What a consumer changes: its reader, the store of its processor, and the log.
pub record World (R S : Type 0) : Type 0 where
  pub reader : R
  pub store : S
  pub sink : Sink

module _ {R S Data : Type 0} (reader : KafkaReader R) (decoder : Decoder Data)
    (processor : Processor S Data) where
  unfoldable pub commit : Context → Message → State (World R S) (Outcome (Option Error))
  commit ctx msg w =
      let (err, r) = reader.commit_messages ctx (msg ∷ []) w.reader in
      (returned err, record w { reader = r })

  unfoldable pub process_decoded :
      Context → Message → Data → State (World R S) (Outcome (Option Error))
  process_decoded ctx msg n_msg w =
      let (err, s) = processor.process ctx n_msg w.store in
      elim err [
        | some e ↦ (returned (some e), record w { store = s })
        | none ↦ commit ctx msg (record w { store = s })
      ]

  unfoldable pub consume : Context → Message → State (World R S) (Outcome (Option Error))
  unfolding commit process_decoded
  consume ctx msg w = elim msg.value [
    | none ↦ commit ctx msg w
    | some value ↦ elim (decoder value) [
      | panicked text ↦ (panicked text, w)
      | returned (n_msg, some e) ↦ (returned (some e), w)
      | returned (n_msg, none) ↦ process_decoded ctx msg n_msg w
    ]
  ]

  -- `start_span` is the context that the tracer returns for a span of a name; ending a span changes
  -- nothing that the code reads.
  unfoldable pub cf :
      (Context → String → Context)
      → Bool
      → String
      → String
      → Context
      → Message
      → State (World R S) (Outcome (Option Error))
  unfolding consume
  cf start_span telemetry_enabled entity_type destination ctx msg w =
      if telemetry_enabled
      then consume (start_span ctx ("consume: " <> destination <> ": " <> entity_type)) msg w
      else consume ctx msg w

  module _ (render : Error → String)
      (consume_func : Context → Message → State (World R S) (Outcome (Option Error))) where
    unfoldable pub run : ℕ → Context → State (World R S) (Option (Outcome (Option Error)))
    run zero ctx w = (none, w)
    run (suc rounds) ctx w =
        let ((msg, err), r) = reader.fetch_message ctx w.reader in
        let w' : World R S = record w { reader = r } in
        elim err [
          | some e ↦ elim (is_same e (reader.ctx_err r)) [
            | true ↦ (some (returned none), record w' { sink = infof (message e) w'.sink })
            | false ↦ run rounds ctx (record w' { sink = log_error render e w'.sink })
          ]
          | none ↦
              let (result, w'') = consume_func ctx msg w' in
              elim result [
                | panicked text ↦ (some (panicked text), w'')
                | returned (some e) ↦
                    run rounds ctx (record w'' { sink = log_error render e w''.sink })
                | returned none ↦ run rounds ctx w''
              ]
        ]
