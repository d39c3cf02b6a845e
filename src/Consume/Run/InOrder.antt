-- ===== src/Consume/Run/InOrder.antt =====
-- The order of the messages that a Kafka reader delivers, and the last commit of a partition.
use go_api_demo.Prelude.{
  ◌<◌, ◌≤◌, ◌≡◌, ◌≢◌, refl, ap, ◌⊎◌, inl, inr, Bool-cases, List, [], ◌∷◌, ◌++◌, All, nat_eq, arith,
}
use go_api_demo.Consume.{Message}
use go_api_demo.Consume.Run.{Event, delivered, hiccup}

abbrev pub AllDelivered : (Message → Type 0) → List Event → Type 0
AllDelivered P [] = Unit
AllDelivered P (hiccup e ∷ es) = AllDelivered P es
AllDelivered P (delivered m ∷ es) = P m × AllDelivered P es

-- The messages of a partition come in the order of their offsets, each once.
abbrev pub InOrder : List Event → Type 0
InOrder [] = Unit
InOrder (hiccup e ∷ es) = InOrder es
InOrder (delivered m ∷ es) =
    AllDelivered (λ d. d.partition ≡ m.partition → m.offset < d.offset) es × InOrder es

pub AllDelivered-append :
    (P : Message → Type 0) (es fs : List Event)
    → AllDelivered P (es ++ fs)
    → AllDelivered P es × AllDelivered P fs
AllDelivered-append P [] fs h = (tt, h)
AllDelivered-append P (hiccup e ∷ es) fs h = AllDelivered-append P es fs h
AllDelivered-append P (delivered m ∷ es) fs h =
    let (l, r) = AllDelivered-append P es fs h.1 in ((h.0, l), r)

-- What comes before a message and what comes after it.
pub InOrder-append :
    (es : List Event) (m : Message) (fs : List Event)
    → InOrder (es ++ (delivered m ∷ fs))
    → AllDelivered (λ d. m.partition ≡ d.partition → d.offset < m.offset) es
      × InOrder (delivered m ∷ fs)
InOrder-append [] m fs h = (tt, h)
InOrder-append (hiccup e ∷ es) m fs h = InOrder-append es m fs h
InOrder-append (delivered d ∷ es) m fs h =
    let (l, r) = InOrder-append es m fs h.1 in
    let (_, late) =
      AllDelivered-append (λ b. b.partition ≡ d.partition → d.offset < b.offset) es
        (delivered m ∷ fs) h.0 in
    ((late.0, l), r)

pub All-map :
    {P Q : Message → Type 0}
    → ((m : Message) → P m → Q m)
    → (ms : List Message) → All P ms
    → All Q ms
All-map f [] h = tt
All-map f (m ∷ ms) h = (f m h.0, All-map f ms h.1)

-- The last commit of a partition in a list, if there is one.
pub last_of :
    (m : Message) (ms : List Message)
    → All (λ d. d.partition ≡ m.partition → m.offset ≤ d.offset) ms
    → ((earlier : List Message) × (c : Message) × (later : List Message) × (ms
          ≡ earlier ++ (c ∷ later))
        × (c.partition ≡ m.partition)
        × (m.offset ≤ c.offset)
        × All (λ d. d.partition ≢ m.partition) later)
      ⊎ All (λ d. d.partition ≢ m.partition) ms
last_of m [] h = inr tt
last_of m (d ∷ ms) h = elim (last_of m ms h.1) [
  | inl (earlier, c, later, e, same, late, others) ↦
      inl (d ∷ earlier, c, later, ap (λ l. d ∷ l) e, same, late, others)
  | inr others ↦ elim (Bool-cases (nat_eq d.partition m.partition)) [
    | inl b ↦
        let same : d.partition ≡ m.partition = ground arith in
        inl ([], d, ms, refl, same, h.0 same, others)
    | inr b ↦ inr ((λ same. ground arith), others)
  ]
]
