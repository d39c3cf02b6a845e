-- ===== src/Metrics/Laws.antt =====
-- On the callback of internal/metrics/metrics.go, over any rounds of collection.
use go_api_demo.Prelude.{
  ℕ, ◌+◌, ◌%◌, ◌^◌, ◌<◌, ◌≤◌, ◌≡◌, refl, ap, ◌∙◌, String, Option, List, [], ◌∷◌, ◌⊎◌, inl, inr, map,
  arith,
}
use go_api_demo.Int.{pos, signed}
use go_api_demo.Metrics.{ConsumerMetrics, Observation, ReaderStats, observe}

-- The messages since the start, after each round.
abbrev pub sums : ℕ → List ReaderStats → List ℕ
sums n [] = []
sums n (s ∷ ss) = (n + s.messages) ∷ sums (n + s.messages) ss

abbrev pub total : ℕ → List ReaderStats → ℕ
total n [] = n
total n (s ∷ ss) = total (n + s.messages) ss

abbrev pub wrap : ℕ → ℕ
wrap n = n % 2 ^ 64

wrap-add : (n k : ℕ) → wrap (wrap n + k) ≡ wrap (n + k)
wrap-add n k = omega arith

wrap_same :
    (m n : ℕ) (ss : List ReaderStats)
    → wrap m ≡ wrap n
    → map wrap (sums m ss) ≡ map wrap (sums n ss)
wrap_same m n [] e = refl
wrap_same m n (s ∷ ss) e =
    let d : wrap (m + s.messages) ≡ wrap (n + s.messages) = omega (arith, e) in
    ap (λ a. a ∷ map wrap (sums (m + s.messages) ss)) d
    ∙ ap (λ l. wrap (n + s.messages) ∷ l) (wrap_same (m + s.messages) (n + s.messages) ss d)

le-total : (n : ℕ) (ss : List ReaderStats) → n ≤ total n ss
le-total n [] = omega arith
le-total n (s ∷ ss) = omega (arith, le-total (n + s.messages) ss)

signed-wrap : (n : ℕ) → n < 2 ^ 63 → signed (wrap n) ≡ pos n
signed-wrap n small = let e : wrap n ≡ n = omega arith in ap signed e ∙ ground arith

signed-sums :
    (n : ℕ) (ss : List ReaderStats)
    → total n ss < 2 ^ 63
    → map signed (map wrap (sums n ss)) ≡ map pos (sums n ss)
signed-sums n [] small = refl
signed-sums n (s ∷ ss) small =
    ap (λ a. a ∷ map signed (map wrap (sums (n + s.messages) ss)))
      (signed-wrap (n + s.messages) (omega (arith, le-total (n + s.messages) ss)))
    ∙ ap (λ l. pos (n + s.messages) ∷ l) (signed-sums (n + s.messages) ss small)

module _ {I : Type 0} (attributes : List (String × String)) where
  -- The value of the first observation of a round, which is that of the message counter.
  abbrev pub first_value : List (Observation I) → ℕ
  first_value [] = 0
  first_value (o ∷ os) = o.value

  -- The counts that are observed, round by round.
  abbrev pub counts : List ReaderStats → ConsumerMetrics I → List ℕ
  counts [] m = []
  counts (s ∷ ss) m = first_value (observe attributes s m).0 ∷ counts ss (observe attributes s m).1

  counts-wrap :
      (ss : List ReaderStats) (m : ConsumerMetrics I)
      → counts ss m ≡ map wrap (sums m.total_msg_count ss)
  unfolding observe
  counts-wrap [] m = refl
  counts-wrap (s ∷ ss) m =
      ap (λ l. wrap (m.total_msg_count + s.messages) ∷ l)
        (counts-wrap ss (observe attributes s m).1
          ∙ wrap_same (wrap (m.total_msg_count + s.messages)) (m.total_msg_count + s.messages) ss
              (omega arith))

  -- What the instruments are given in the rounds, from a count on: the message counter the messages
  -- since the start, and each gauge its own number of the round.
  abbrev pub expected : ConsumerMetrics I → ℕ → List ReaderStats → List (List (Option I × ℕ))
  expected m n [] = []
  expected m n (s ∷ ss) =
      ((m.msg_counter, wrap (n + s.messages))
        ∷ (m.queue_length_gauge, s.queue_length)
        ∷ (m.queue_capacity_gauge, s.queue_capacity)
        ∷ (m.lag_gauge, s.lag)
        ∷ [])
      ∷ expected m (n + s.messages) ss

  -- The instruments of the observations, with the values.
  abbrev pub given_by : List (Observation I) → List (Option I × ℕ)
  given_by os = map (λ (o : Observation I). (o.instrument, o.value)) os

  abbrev pub given : List ReaderStats → ConsumerMetrics I → List (List (Option I × ℕ))
  given [] m = []
  given (s ∷ ss) m = given_by (observe attributes s m).0 ∷ given ss (observe attributes s m).1

  expected_same :
      (m : ConsumerMetrics I) (a b : ℕ) (ss : List ReaderStats)
      → wrap a ≡ wrap b
      → expected m a ss ≡ expected m b ss
  expected_same m a b [] e = refl
  expected_same m a b (s ∷ ss) e =
      let d : wrap (a + s.messages) ≡ wrap (b + s.messages) = omega (arith, e) in
      let others =
        (m.queue_length_gauge, s.queue_length)
        ∷ (m.queue_capacity_gauge, s.queue_capacity)
        ∷ (m.lag_gauge, s.lag)
        ∷ [] in
      ap (λ n. ((m.msg_counter, n) ∷ others) ∷ expected m (a + s.messages) ss) d
      ∙ ap (λ l. ((m.msg_counter, wrap (b + s.messages)) ∷ others) ∷ l)
          (expected_same m (a + s.messages) (b + s.messages) ss d)

  given-expected :
      (ss : List ReaderStats) (m : ConsumerMetrics I) → given ss m ≡ expected m m.total_msg_count ss
  unfolding observe
  given-expected [] m = refl
  given-expected (s ∷ ss) m =
      ap (λ l. given_by (observe attributes s m).0 ∷ l)
        (given-expected ss (observe attributes s m).1
          ∙ expected_same m (wrap (m.total_msg_count + s.messages)) (m.total_msg_count + s.messages)
              ss (omega arith))

  -- In each round the four instruments are given one value each: the gauges the length and the
  -- capacity of the queue and the lag, and the message counter a count.
  -- The n-th count that the message counter is given is the number of messages of the first n
  -- rounds, modulo 2^64; and as long as all messages are fewer than 2^63, the int64s that are
  -- observed are these numbers themselves.
  pub counts_lem :
      (ss : List ReaderStats) (m : ConsumerMetrics I)
      → (given ss m ≡ expected m m.total_msg_count ss)
        × (counts ss m ≡ map wrap (sums m.total_msg_count ss))
        × ((2 ^ 63 ≤ total m.total_msg_count ss)
            ⊎ (map signed (counts ss m) ≡ map pos (sums m.total_msg_count ss)))
  counts_lem ss m =
      let small_or_not : (2 ^ 63 ≤ total m.total_msg_count ss)
          ⊎ (total m.total_msg_count ss < 2 ^ 63) =
        omega arith in
      (
        given-expected ss m,
        counts-wrap ss m,
        elim small_or_not [
          | inl large ↦ inl large
          | inr small ↦
              inr (ap (map signed) (counts-wrap ss m) ∙ signed-sums m.total_msg_count ss small)
        ],
      )
