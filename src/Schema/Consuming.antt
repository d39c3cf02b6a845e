-- ===== src/Schema/Consuming.antt =====
-- The consumer of internal/consume/consumer.go over the decoder of internal/schema/schema.go.
use go_api_demo.Prelude.{
  ℕ, ◌<◌, ◌≤◌, String, ◌≡◌, ◌≢◌, ◌⊎◌, inl, inr, refl, ap, ◌∙◌, Bool, Option, Option-cases,
  Bool-cases, none, some, List, [], ◌∷◌, ◌++◌, length, arith, ltb, true, false, ◌<>◌, digits,
}
use go_api_demo.Prelude.Lists.{length-append}
use go_api_demo.Error.{Error, Outcome, returned, panicked}
use go_api_demo.Context.{Context}
use go_api_demo.Consume.{Message, KafkaReader, Decoder, Processor, World}
use go_api_demo.Consume.Run.{Event, delivered, hiccup, IsQueue, NoPanic}
use go_api_demo.Consume.Run.Total.{loop, Leaves, run_lem}
use go_api_demo.Consume.Run.Panic.{run_panic}
use go_api_demo.Schema.{Registry, decode}

-- The message is empty or holds the five bytes that Decode drops.
abbrev pub IsLong : Message → Type 0
IsLong m = (value : List ℕ) → m.value ≡ some value → 5 ≤ length value

abbrev pub AllLong : List Event → Type 0
AllLong [] = Unit
AllLong (hiccup e ∷ es) = AllLong es
AllLong (delivered m ∷ es) = IsLong m × AllLong es

-- The first message that is too short.
abbrev pub FirstShort : List Event → List Event → List ℕ → Type 0
FirstShort es before value =
    (m : Message) × (after : List Event) × (es ≡ before ++ (delivered m ∷ after))
    × AllLong before
    × (m.value ≡ some value)
    × (length value < 5)

test_length :
    (m : Message) → IsLong m ⊎ ((value : List ℕ) × (m.value ≡ some value) × (length value < 5))
test_length m = elim (Option-cases m.value) [
  | inl e ↦ inl (λ value is. cc)
  | inr (value, e) ↦ elim (Bool-cases (ltb (length value) 5)) [
    | inl short ↦ inr (value, e, ground arith)
    | inr long ↦ inl (λ v is. (let same : v ≡ value = cc in ground (arith, same)))
  ]
]

first_short :
    (es : List Event)
    → AllLong es ⊎ ((before : List Event) × (value : List ℕ) × FirstShort es before value)
first_short [] = inl tt
first_short (hiccup e ∷ es) = elim (first_short es) [
  | inl all ↦ inl all
  | inr (before, value, (m, after, is, long, is_value, rest)) ↦
      inr (hiccup e ∷ before, value, (m, after, ap (λ l. hiccup e ∷ l) is, long, is_value, rest))
]
first_short (delivered d ∷ es) = elim (test_length d) [
  | inr (value, is, short) ↦ inr ([], value, (d, es, refl, tt, is, short))
  | inl long ↦ elim (first_short es) [
    | inl all ↦ inl (long, all)
    | inr (before, value, (m, after, is, longs, is_value, rest)) ↦ inr (
      delivered d ∷ before,
      value,
      (m, after, ap (λ l. delivered d ∷ l) is, (long, longs), is_value, rest),
    )
  ]
]

shorter :
    (es before : List Event) (m : Message) (after : List Event)
    → es ≡ before ++ (delivered m ∷ after)
    → (rounds : ℕ) → length es < rounds
    → length before < rounds
shorter es before m after is rounds enough =
    omega (arith, ap length is ∙ length-append before (delivered m ∷ after), enough)

module _ {H Codec Data : Type 0} (registry : Registry H Codec Data) (codec : Codec) where
  abbrev pub decoder : Decoder Data
  decoder = decode registry codec

  abbrev pub out_of_range : List ℕ → String
  out_of_range value =
      "runtime error: slice bounds out of range [5:" <> digits (length value) <> "]"

  decode-short : (value : List ℕ) → length value < 5 → decoder value ≡ panicked (out_of_range value)
  unfolding decode
  decode-short value short = let e : ltb (length value) 5 ≡ true = ground arith in rw (e, decode)

  decode-long : (value : List ℕ) (text : String) → 5 ≤ length value → decoder value ≢ panicked text
  unfolding decode
  decode-long value text long =
      let e : ltb (length value) 5 ≡ false = ground arith in rw (e, decode) (λ d. ground arith)

  module _ {R S : Type 0} (reader : KafkaReader R) (queue : IsQueue reader)
      (processor : Processor S Data) (start_span : Context → String → Context)
      (telemetry_enabled : Bool) (entity_type destination : String) (render : Error → String)
      (ctx : Context) where
    AllLong-NoPanic : (es : List Event) → AllLong es → NoPanic decoder processor es
    AllLong-NoPanic [] all = tt
    AllLong-NoPanic (hiccup e ∷ es) all = AllLong-NoPanic es all
    AllLong-NoPanic (delivered m ∷ es) (long, all) =
        (λ value text is. decode-long value text (long value is), AllLong-NoPanic es all)

    abbrev pub looped : ℕ → World R S → Option (Outcome (Option Error)) × World R S
    looped =
        loop reader queue decoder processor start_span telemetry_enabled entity_type destination
          render ctx

    abbrev pub LeavesHere :
        List Event → World R S → Option (Outcome (Option Error)) × World R S → Type 0
    LeavesHere =
        Leaves reader queue decoder processor start_span telemetry_enabled entity_type destination
          render ctx

    -- A consumer with the decoder of the registry, over a reader that holds some messages and errors
    -- and then cancels the context, and with more rounds than there are events: if every message is
    -- empty or has five bytes, the loop returns nil, and has dealt with all of them; otherwise it
    -- panics at the first message that has fewer, and has dealt with those before it and no other.
    pub run_decode_lem :
        (es : List Event) (rounds : ℕ) (w : World R S)
        → queue.pending w.reader ≡ es
        → length es < rounds
        → (AllLong es
            × ((looped rounds w).0 ≡ some (returned none))
            × LeavesHere es w (looped rounds w))
          ⊎ ((before : List Event) × (value : List ℕ) × FirstShort es before value
              × ((looped rounds w).0 ≡ some (panicked (out_of_range value)))
              × LeavesHere before w (looped rounds w))
    run_decode_lem es rounds w waiting enough = elim (first_short es) [
      | inl all ↦
          let (ended, left) =
            run_lem reader queue decoder processor start_span telemetry_enabled entity_type
              destination render ctx es rounds w waiting (AllLong-NoPanic es all) enough in
          inl (all, ended, left)
      | inr (before, value, (m, after, is, longs, is_value, short)) ↦
          let (died, left) =
            run_panic reader queue decoder processor start_span telemetry_enabled entity_type
              destination render ctx m value (out_of_range value) after is_value
              (decode-short value short) before rounds w (waiting ∙ is)
              (AllLong-NoPanic before longs) (shorter es before m after is rounds enough) in
          inr (before, value, (m, after, is, longs, is_value, short), died, left)
    ]
