-- ===== src/Consume/Laws.antt =====
-- When `consume` of internal/consume/consumer.go commits a message.
use go_api_demo.Prelude.{ℕ, ◌≡◌, ◌≢◌, ◌⊎◌, inl, inr, ap, Option-cases, none, some, List, [], ◌∷◌}
use go_api_demo.Error.{Outcome-cases, returned}
use go_api_demo.Context.{Context}
use go_api_demo.Consume.{Message, KafkaReader, Decoder, Processor, World, consume}
use go_api_demo.Consume.Cases.{
  consume-tombstone, consume-panicked, consume-undecodable, consume-failed, consume-processed,
}

module _ {R S Data : Type 0} (reader : KafkaReader R) (decoder : Decoder Data)
    (processor : Processor S Data) (ctx : Context) (msg : Message) (w : World R S) where
  -- The message holds nothing, or it decodes and is processed without an error.
  abbrev pub DealtWith : Type 0
  DealtWith =
      (msg.value ≡ none)
      ⊎ ((value : List ℕ) × (n_msg : Data) × (msg.value ≡ some value)
          × (decoder value ≡ returned (n_msg, none))
          × ((processor.process ctx n_msg w.store).0 ≡ none))

  abbrev after : World R S
  after = (consume reader decoder processor ctx msg w).1

  -- If consuming a message touches the reader at all, then the message is a tombstone, or it was
  -- decoded and processed without an error; and what touched the reader is the commit of this one
  -- message.
  pub consume_sound :
      after.reader ≢ w.reader
      → DealtWith × (after.reader ≡ (reader.commit_messages ctx (msg ∷ []) w.reader).1)
  consume_sound changed = elim (Option-cases msg.value) [
    | inl e ↦ (inl e, ap (λ a. a.1.reader) (consume-tombstone reader decoder processor ctx msg w e))
    | inr (value, e) ↦ elim (Outcome-cases (decoder value)) [
      | inr (text, d) ↦ absurd (
          changed (
            ap (λ a. a.1.reader)
              (consume-panicked reader decoder processor ctx msg w value e text d)))
      | inl ((n_msg, some err), d) ↦ absurd (
          changed (
            ap (λ a. a.1.reader)
              (consume-undecodable reader decoder processor ctx msg w value e n_msg err d)))
      | inl ((n_msg, none), d) ↦ elim (Option-cases (processor.process ctx n_msg w.store).0) [
        | inr (err, f) ↦ absurd (
            changed (
              ap (λ a. a.1.reader)
                (consume-failed reader decoder processor ctx msg w value e n_msg d err f)))
        | inl f ↦ (
          inr (value, n_msg, e, d, f),
          ap (λ a. a.1.reader)
              (consume-processed reader decoder processor ctx msg w value e n_msg d f),
        )
      ]
    ]
  ]
