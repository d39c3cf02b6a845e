-- ===== src/Consume/Run/Lost.antt =====
-- `Run` of internal/consume/consumer.go and a message whose processing fails. The loop logs the error
-- and goes on; a commit in Kafka is an offset of the partition, which covers all messages before it.
use mathlib.Core.List.{Mem, append_assoc}
use go_api_demo.Prelude.{
  ℕ, ◌<◌, ◌≤◌, String, ◌≡◌, ◌≢◌, ap, sym, ◌∙◌, inl, inr, Bool, Option, List, ◌∷◌, ◌++◌, All, arith,
}
use go_api_demo.Error.{Error, Outcome}
use go_api_demo.Context.{Context}
use go_api_demo.Consume.{Message, KafkaReader, Decoder, Processor, World}
use go_api_demo.Consume.Run.{Event, delivered, IsQueue, deal, deal_all}
use go_api_demo.Consume.Run.InOrder.{InOrder, All-map, last_of}
use go_api_demo.Consume.Run.Total.{inner, loop}

-- What is documented of a group's offsets: what counts for a partition is its last commit, and a
-- reader that is started again does not deliver a message that is at the offset of that commit or
-- before it.
pub record Resumes {R : Type 0} {reader : KafkaReader R} (queue : IsQueue reader) (restart : R → R)
    : Type 0 where
  pub covered :
      (r : R) (earlier : List Message) (c : Message) (later : List Message) (m : Message)
      → queue.committed r ≡ earlier ++ (c ∷ later)
      → All (λ d. d.partition ≢ c.partition) later
      → c.partition ≡ m.partition
      → m.offset ≤ c.offset
      → ¬ Mem (delivered m) (queue.pending (restart r))

module _ {S Data : Type 0} (decoder : Decoder Data) (processor : Processor S Data)
    (ctx : Context) where
  abbrev dealt : List Event → S → List Message × S
  dealt = deal_all decoder processor ctx

module _ {R S Data : Type 0} (reader : KafkaReader R) (queue : IsQueue reader) (restart : R → R)
    (resumes : Resumes queue restart) (decoder : Decoder Data) (processor : Processor S Data)
    (start_span : Context → String → Context) (telemetry_enabled : Bool)
    (entity_type destination : String) (render : Error → String) (ctx : Context) where
  abbrev looped : ℕ → World R S → Option (Outcome (Option Error)) × World R S
  looped =
      loop reader queue decoder processor start_span telemetry_enabled entity_type destination
        render ctx

  abbrev pub span : Context
  span =
      inner reader queue decoder processor start_span telemetry_enabled entity_type destination
        render ctx

  module _ (before : List Event) (m : Message) (between : List Event) (next : Message)
      (after : List Event) (w : World R S) where
    abbrev dealt_here : List Event → S → List Message × S
    dealt_here = deal_all decoder processor span

    -- The events, and the store when `m` and when `next` is consumed.
    abbrev pub held : List Event
    held = before ++ (delivered m ∷ (between ++ (delivered next ∷ after)))

    abbrev pub store_before : S
    store_before = (dealt_here before w.store).1

    abbrev pub store_between : S
    store_between = (deal decoder processor span m store_before).1

    abbrev pub store_next : S
    store_next = (dealt_here between store_between).1

    abbrev pub store_after : S
    store_after = (deal decoder processor span next store_next).1

    -- What the loop commits: of the messages before the one that fails, of those between, the later
    -- one, and of those after it.
    abbrev pub kept : List Message
    kept =
        (dealt_here before w.store).0
        ++ ((dealt_here between store_between).0 ++ (next ∷ (dealt_here after store_after).0))

    abbrev Later : Message → Type 0
    Later d = d.partition ≡ m.partition → m.offset < d.offset

    -- The last commit of the partition is at the offset of the one that failed or after it.
    uncovered :
        (r : R) (start : List Message)
        → queue.committed r ≡ start ++ (next ∷ (dealt_here after store_after).0)
        → next.partition ≡ m.partition
        → Later next
        → All Later (dealt_here after store_after).0
        → ¬ Mem (delivered m) (queue.pending (restart r))
    uncovered r start is same late lates =
        let c = dealt_here after store_after in
        elim (last_of m (next ∷ c.0) (
          (λ p. omega (arith, late p)),
          All-map {Q = λ d. d.partition ≡ m.partition → m.offset ≤ d.offset}
              (λ d (h : Later d) p. omega (arith, h p)) c.0 lates,
        )) [
          | inr others ↦ absurd (others.0 same)
          | inl (earlier, d, later, e, at, far, others) ↦
              resumes.covered r (start ++ earlier) d later m
                (is ∙ ap (λ l. start ++ l) e ∙ sym (append_assoc start earlier (d ∷ later)))
                (All-map {Q = λ x. x.partition ≢ d.partition}
                  (λ x (h : x.partition ≢ m.partition) p. h (p ∙ at)) later others)
                at far
        ]
