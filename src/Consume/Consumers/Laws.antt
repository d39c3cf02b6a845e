-- ===== src/Consume/Consumers/Laws.antt =====
-- On `NewConsumers` of internal/consume/consumer.go.
use mathlib.Core.List.{append_assoc, append-nil}
use go_api_demo.Prelude.{
  ℕ, zero, suc, length, String, ◌≡◌, refl, ap, sym, ◌∙◌, Bool, Bool-cases, true, Option,
  Option-cases, none, some, List, [], ◌∷◌, ◌++◌, ◌⊎◌, inl, inr,
}
use go_api_demo.Error.{Error, Outcome, returned}
use go_api_demo.Effect.{Effect, go_on, Succeeds}
use go_api_demo.Effect.Fallible.{Fallible}
use go_api_demo.Int.{pos_part}
use go_api_demo.Config.{ReaderConfig, KafkaConsumer}
use go_api_demo.Metrics.{ConsumerMetricsLabels, ConsumerMetricsCollector, Meter, register_metrics}
use go_api_demo.Consume.Consumers.{Consumer, consumer, on_registered, consumers_from, new_consumers}

module _ {W I R P D : Type 0} (meter : Meter W I R) (new_reader : ReaderConfig → Effect W R)
    (conf : KafkaConsumer) (telemetry_enabled : Bool) (labels : ConsumerMetricsLabels)
    (collector : ConsumerMetricsCollector I) (processor : P) (decoder : D) where
  abbrev one : R → ℕ → Consumer R P D
  one = consumer meter new_reader conf telemetry_enabled labels collector processor decoder

  -- One consumer for each of the readers, numbered from `i` on.
  abbrev pub numbered : List R → ℕ → List (Consumer R P D)
  numbered [] i = []
  numbered (r ∷ rs) i = one r i ∷ numbered rs (suc i)

  abbrev Result : Type 0
  Result = Outcome ((List (Consumer R P D) × List R) ⊎ Error) × W

  -- Each reader is what a call of NewReader of its own returned, after which its metrics were
  -- registered under its own id; then comes the call for the next one.
  abbrev pub Opened : List R → ℕ → W → W → Type 0
  Opened [] i w v = w ≡ v
  Opened (r ∷ rs) i w v =
      (w1 : W) × (w2 : W) × (new_reader conf.reader_config w ≡ (returned r, w1))
      × (register_metrics meter collector telemetry_enabled r (one r i).group_id w1 ≡ (none, w2))
      × Opened rs (suc i) w2 v

  -- What the loop yields from here on: a consumer for each of `n` new readers.
  abbrev More : ℕ → ℕ → List (Consumer R P D) → List R → W → Result → Type 0
  More n i cs rs w result =
      (new : List R) × (v : W) × (length new ≡ n)
      × Opened new i w v
      × (result ≡ (returned (inl (cs ++ numbered new i, rs ++ new)), v))

  -- The error of registering a callback for a reader.
  abbrev pub Unregistered : Result → Type 0
  Unregistered result =
      (telemetry_enabled ≡ true)
      × ((e : Error) × (v : W) × (result ≡ (returned (inr e), v))
          × ((r : R) × (id : String) × (w : W) × (register_metrics meter collector true r id w
                ≡ (some e, v))))

  abbrev on_registered' : Fallible W (List (Consumer R P D) × List R) → Option Error × W → Result
  on_registered' =
      on_registered meter new_reader conf telemetry_enabled labels collector processor decoder

  abbrev pub made : W → Result
  made = new_consumers meter new_reader conf telemetry_enabled labels collector processor decoder

  abbrev loop : ℕ → ℕ → List (Consumer R P D) → List R → W → Result
  loop = consumers_from meter new_reader conf telemetry_enabled labels collector processor decoder

  loop-next :
      (n i : ℕ) (cs : List (Consumer R P D)) (rs : List R) (w w1 w2 : W) (r : R)
      → new_reader conf.reader_config w ≡ (returned r, w1)
      → register_metrics meter collector telemetry_enabled r (one r i).group_id w1 ≡ (none, w2)
      → loop (suc n) i cs rs w ≡ loop n (suc i) (cs ++ one r i ∷ []) (rs ++ r ∷ []) w2
  unfolding consumers_from
  loop-next n i cs rs w w1 w2 r opened registered =
      ap
        (go_on (λ reader u.
          on_registered' (loop n (suc i) (cs ++ one reader i ∷ []) (rs ++ reader ∷ []))
            (register_metrics meter collector telemetry_enabled reader (one reader i).group_id u)))
        opened
      ∙ ap (on_registered' (loop n (suc i) (cs ++ one r i ∷ []) (rs ++ r ∷ []))) registered

  loop-fail :
      (n i : ℕ) (cs : List (Consumer R P D)) (rs : List R) (w w1 w2 : W) (r : R) (e : Error)
      → new_reader conf.reader_config w ≡ (returned r, w1)
      → register_metrics meter collector telemetry_enabled r (one r i).group_id w1 ≡ (some e, w2)
      → loop (suc n) i cs rs w ≡ (returned (inr e), w2)
  unfolding consumers_from
  loop-fail n i cs rs w w1 w2 r e opened registered =
      ap
        (go_on (λ reader u.
          on_registered' (loop n (suc i) (cs ++ one reader i ∷ []) (rs ++ reader ∷ []))
            (register_metrics meter collector telemetry_enabled reader (one reader i).group_id u)))
        opened
      ∙ ap (on_registered' (loop n (suc i) (cs ++ one r i ∷ []) (rs ++ r ∷ []))) registered

  first_of :
      (n i : ℕ) (cs : List (Consumer R P D)) (rs : List R) (r : R) (w w1 w2 : W)
      → new_reader conf.reader_config w ≡ (returned r, w1)
      → register_metrics meter collector telemetry_enabled r (one r i).group_id w1 ≡ (none, w2)
      → loop (suc n) i cs rs w ≡ loop n (suc i) (cs ++ one r i ∷ []) (rs ++ r ∷ []) w2
      → More n
          (suc i)
          (cs ++ one r i ∷ [])
          (rs ++ r ∷ [])
          w2
          (loop n (suc i) (cs ++ one r i ∷ []) (rs ++ r ∷ []) w2)
      → More (suc n) i cs rs w (loop (suc n) i cs rs w)
  first_of n i cs rs r w w1 w2 opened registered step (new, v, many, calls, e) = (
    r ∷ new,
    v,
    ap suc many,
    (w1, w2, opened, registered, calls),
    step
        ∙ e
        ∙ ap (λ l. (returned (inl (l, (rs ++ r ∷ []) ++ new)), v))
            (append_assoc cs (one r i ∷ []) (numbered new (suc i)))
        ∙ ap (λ l. (returned (inl (cs ++ one r i ∷ numbered new (suc i), l)), v))
            (append_assoc rs (r ∷ []) new),
  )

  when_enabled :
      (r : R) (id : String) (w v : W) (e : Error)
      → register_metrics meter collector telemetry_enabled r id w ≡ (some e, v)
      → (telemetry_enabled ≡ true) × (register_metrics meter collector true r id w ≡ (some e, v))
  unfolding register_metrics
  when_enabled r id w v e failed = elim (Bool-cases telemetry_enabled) [
    | inl on ↦ (on, rw on at failed)
    | inr off ↦ (let d = rw off at failed in absurd (cc))
  ]

  loop_lem :
      Succeeds (new_reader conf.reader_config) (λ r. Unit {0})
      → (n i : ℕ) (cs : List (Consumer R P D)) (rs : List R) (w : W)
      → More n i cs rs w (loop n i cs rs w) ⊎ Unregistered (loop n i cs rs w)
  unfolding consumers_from
  loop_lem can zero i cs rs w = inl (
    [],
    w,
    refl,
    refl,
    ap (λ l. (returned (inl (l, rs)), w)) (sym (append-nil cs))
        ∙ ap (λ l. (returned (inl (cs ++ [], l)), w)) (sym (append-nil rs)),
  )
  loop_lem can (suc n) i cs rs w =
      let (r, w1, opened, _) = can w in
      let answer = register_metrics meter collector telemetry_enabled r (one r i).group_id w1 in
      let w2 : W = answer.1 in
      elim (Option-cases answer.0) [
        | inr (e, failed) ↦
            let d : answer ≡ (some e, w2) = ap (λ (o : Option Error). (o, w2)) failed in
            let (on, same) = when_enabled r (one r i).group_id w1 w2 e d in
            inr (
              on,
              (e, w2, loop-fail n i cs rs w w1 w2 r e opened d, (r, (one r i).group_id, w1, same)),
            )
        | inl fine ↦
            let d : answer ≡ (none, w2) = ap (λ (o : Option Error). (o, w2)) fine in
            let step = loop-next n i cs rs w w1 w2 r opened d in
            elim (loop_lem can n (suc i) (cs ++ one r i ∷ []) (rs ++ r ∷ []) w2) [
              | inl more ↦ inl (first_of n i cs rs r w w1 w2 opened d step more)
              | inr (on, (e, v, f, where_from)) ↦ inr (on, (e, v, step ∙ f, where_from))
            ]
      ]

  pub new_consumers_lem :
      Succeeds (new_reader conf.reader_config) (λ r. Unit {0})
      → (w : W)
      → ((readers : List R) × (v : W) × (length readers ≡ pos_part conf.num)
          × Opened readers 0 w v
          × (made w ≡ (returned (inl (numbered readers 0, readers)), v)))
        ⊎ Unregistered (made w)
  unfolding new_consumers
  new_consumers_lem can w = loop_lem can (pos_part conf.num) 0 [] [] w
