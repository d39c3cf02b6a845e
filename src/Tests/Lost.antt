-- ===== src/Tests/Lost.antt =====
-- A message that fails, before one that does not, with a reader that starts again from a log.
use mathlib.Core.Logic.Or
use go_api_demo.Prelude.{
  ℕ, ◌≡◌, refl, last_match, Bool, true, false, Option, none, some, List, [], ◌∷◌, if◌then◌else◌,
  nat_eq, leb,
}
use go_api_demo.Error.{Error, made, Outcome}
use go_api_demo.Consume.{Message, World}
use go_api_demo.Consume.Run.{Event, delivered, hiccup, deal}
use go_api_demo.Consume.Run.Total.{loop}
use go_api_demo.Tests.Fixtures.{ctx, sink, render}
use go_api_demo.Tests.Kafka.{Queue, reader, reader-IsQueue, start_span, decoder, processor, byte}

-- The last commit of the partition is of the message or of a later one.
is_covered : Message → List Message → Bool
is_covered m done = elim (last_match (λ (c : Message). nat_eq c.partition m.partition) done) [
  | none ↦ false
  | some c ↦ leb m.offset c.offset
]

uncovered : List Message → List Event → List Event
unfolding is_covered
uncovered done [] = []
uncovered done (hiccup e ∷ es) = uncovered done es
uncovered done (delivered m ∷ es) =
    if is_covered m done then uncovered done es else delivered m ∷ uncovered done es

abbrev log : List Event
log = delivered (byte 0) ∷ hiccup (made "timeout") ∷ delivered (byte 7) ∷ []

-- The reader is started again on the whole log, without what is covered by a commit.
abbrev restart : Queue → Queue
restart q = record q { waiting = uncovered q.done log }

abbrev world : World Queue (List ℕ)
world = record {
  reader = record { waiting = log; done = []; cancelled = false };
  store = [];
  sink = sink;
}

waiting : reader-IsQueue.pending world.reader ≡ log
unfolding reader-IsQueue
waiting = refl

kept : (deal decoder processor ctx (byte 7) []).0 ≡ true
unfolding deal
kept = refl

abbrev final : Option (Outcome (Option Error)) × World Queue (List ℕ)
final =
    loop reader reader-IsQueue decoder processor start_span false "user" "cache" render ctx 4 world
