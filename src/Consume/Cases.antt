-- ===== src/Consume/Cases.antt =====
-- `consume` of internal/consume/consumer.go on each of its paths.
use go_api_demo.Prelude.{ℕ, String, ◌≡◌, Option, none, some, List, [], ◌∷◌, arith}
use go_api_demo.Error.{Error, Outcome, returned, panicked}
use go_api_demo.Context.{Context}
use go_api_demo.Consume.{
  Message, KafkaReader, Decoder, Processor, World, process_decoded, commit, consume,
}

module _ {R S Data : Type 0} (reader : KafkaReader R) (decoder : Decoder Data)
    (processor : Processor S Data) (ctx : Context) (msg : Message) (w : World R S) where
  abbrev pub committed : World R S → Outcome (Option Error) × World R S
  committed v = (
    returned (reader.commit_messages ctx (msg ∷ []) v.reader).0,
    record v { reader = (reader.commit_messages ctx (msg ∷ []) v.reader).1 },
  )

  abbrev pub after : Outcome (Option Error) × World R S
  after = consume reader decoder processor ctx msg w

  pub consume-tombstone : msg.value ≡ none → after ≡ committed w
  unfolding consume commit
  consume-tombstone e = ground arith

  module _ (value : List ℕ) (some_value : msg.value ≡ some value) where
    pub consume-panicked :
        (text : String) → decoder value ≡ panicked text → after ≡ (panicked text, w)
    unfolding consume
    consume-panicked text d = rw (some_value, consume) (rw d)

    pub consume-undecodable :
        (n_msg : Data) (e : Error)
        → decoder value ≡ returned (n_msg, some e)
        → after ≡ (returned (some e), w)
    unfolding consume
    consume-undecodable n_msg e d = rw (some_value, consume) (rw d)

    module _ (n_msg : Data) (decoded : decoder value ≡ returned (n_msg, none)) where
      pub consume-failed :
          (e : Error)
          → (processor.process ctx n_msg w.store).0 ≡ some e
          → after
            ≡ (returned (some e), record w { store = (processor.process ctx n_msg w.store).1 })
      unfolding consume process_decoded
      consume-failed e f = rw (some_value, consume) (rw decoded (rw (f, process_decoded)))

      pub consume-processed :
          (processor.process ctx n_msg w.store).0 ≡ none
          → after ≡ committed (record w { store = (processor.process ctx n_msg w.store).1 })
      unfolding consume process_decoded commit
      consume-processed f = ground arith
