-- ===== src/Topic/Laws.antt =====
-- On `CreateTopics` of internal/consume/topic.go.
use mathlib.Core.Path.{subst}
use go_api_demo.Prelude.{
  String, ◌≡◌, ◌≢◌, refl, ap, sym, ◌∙◌, Option, Option-cases, none, some, List, [], ◌∷◌, inl, inr,
}
use go_api_demo.Error.{Error, Outcome, returned}
use go_api_demo.Config.{TopicConfig}
use go_api_demo.Topic.{
  Kafka, dial_brokers, join_host_port, on_controller, on_broker, dialled, create_topics,
}

module _ {N Conn : Type 0} (kafka : Kafka N Conn) where
  -- A dial yields a connection or an error.
  abbrev pub Dials : Type 0
  Dials = (address : String) (n : N) → (kafka.dial address n).0 ≢ (none, none)

  both : {r : Option Conn × Option Error} → r.0 ≡ none → r.1 ≡ none → r ≡ (none, none)
  both {r} e f = ap (λ c. (c, r.1)) e ∙ ap (λ c. (none, c)) f

  pub dial-first :
      Dials
      → (broker : String) (others : List String) (n : N)
      → dial_brokers kafka (broker ∷ others) n ≡ kafka.dial broker n
  unfolding dial_brokers
  dial-first dials broker others n = elim (Option-cases (kafka.dial broker n).0.1) [
    | inr (e, failed) ↦ rw (failed, dial_brokers) refl
    | inl fine ↦ elim (Option-cases (kafka.dial broker n).0.0) [
      | inr (c, conn) ↦ rw (fine, dial_brokers) (rw conn refl)
      | inl gone ↦ absurd (dials broker n (both gone fine))
    ]
  ]

  -- The call returns, and does not panic.
  abbrev pub Returns : Outcome (Option Error) × N → Type 0
  Returns r = (e : Option Error) × (r.0 ≡ returned e)

  on_broker-Returns :
      Dials → (c : Conn) (conf : List TopicConfig) (n : N) → Returns (on_broker kafka c conf n)
  unfolding on_broker on_controller
  on_broker-Returns dials c conf n =
      let r = kafka.controller c n in
      elim (Option-cases r.0.1) [
        | inr (e, failed) ↦ rw (failed, on_broker) (some e, refl)
        | inl fine ↦
            let d = kafka.dial (join_host_port r.0.0.0 r.0.0.1) r.1 in
            elim (Option-cases d.0.1) [
              | inr (e, failed) ↦ rw (fine, on_broker) (rw failed (some e, refl))
              | inl dialled ↦ elim (Option-cases d.0.0) [
                | inl gone ↦ absurd (dials _ r.1 (both gone dialled))
                | inr (controller_conn, got) ↦
                    rw (fine, on_broker) (rw dialled (rw (got, on_controller) (_, refl)))
              ]
            ]
      ]

  dialled-Returns :
      Dials
      → (conf : List TopicConfig) (r : (Option Conn × Option Error) × N) → r.0 ≢ (none, none)
      → Returns (dialled kafka conf r)
  unfolding dialled
  dialled-Returns dials conf ((conn, some e), n) ne = (some e, refl)
  dialled-Returns dials conf ((none, none), n) ne = absurd (ne refl)
  dialled-Returns dials conf ((some conn, none), n) ne = on_broker-Returns dials conn conf n

  -- Where a dial yields a connection or an error, creating the topics with at least one broker does
  -- not panic, and does what it does with the first broker alone: the others are never tried.
  pub create_topics_lem :
      Dials
      → (broker : String) (others : List String) (conf : List TopicConfig) (n : N)
      → Returns (create_topics kafka (record { brokers = broker ∷ others; conf = conf }) n)
        × (create_topics kafka (record { brokers = broker ∷ others; conf = conf }) n
            ≡ create_topics kafka (record { brokers = broker ∷ []; conf = conf }) n)
  unfolding create_topics
  create_topics_lem dials broker others conf n =
      let first = dial-first dials broker in
      (
        subst (λ r. Returns (dialled kafka conf r)) (sym (first others n))
            (dialled-Returns dials conf (kafka.dial broker n) (dials broker n)),
        ap (dialled kafka conf) (first others n ∙ sym (first [] n)),
      )
