-- ===== src/Tests/Capture.antt =====
-- The consumer of the cache in Redis.
use go_api_demo.Prelude.{
  ℕ, zero, suc, ◌≡◌, refl, String, Option, none, some, true, false, List, [], ◌∷◌, ◌++◌, map, All,
  arith,
}
use go_api_demo.Prelude.Dict.{Dict}
use go_api_demo.Error.{Error, made, Outcome, returned}
use go_api_demo.Int.{pos}
use go_api_demo.Json.{Json}
use go_api_demo.Consume.{Message, Decoder, World}
use go_api_demo.Consume.Run.{Event, delivered, hiccup}
use go_api_demo.Format.{msec_to_time}
use go_api_demo.Processor.{Usr, BeforeAfter}
use go_api_demo.Processor.Laws.{no_row, user_of}
use go_api_demo.Storage.Redis
use go_api_demo.Storage.Redis.Laws.{KeepsTime}
use go_api_demo.Storage.Memory.Laws.{stored}
use go_api_demo.Capture.{IsUserStore, Reports, messages}
use go_api_demo.Capture.Stores.{redis-IsUserStore}
use go_api_demo.Capture.Laws.{consuming, capture_lem}
use go_api_demo.Tests.Fixtures.{ctx, sink, render}
use go_api_demo.Tests.Kafka.{Queue, reader, reader-IsQueue, start_span}
use go_api_demo.Tests.Redis.{cache, cache-IsStore, times}

-- Row 0 and row 1; a message is the number of its row.
abbrev pub row : ℕ → Usr
row zero = record {
  id = "a1";
  first_name = "Anne";
  last_name = "Bolt";
  created_at = pos 1700000000500;
}
row (suc n) = record {
  id = "b2";
  first_name = "Bobby";
  last_name = "Crane";
  created_at = pos 1700000000500;
}

abbrev pub decoder : Decoder ℕ
decoder [] = returned (0, some (made "empty"))
decoder (b ∷ bs) = returned (b, none)

abbrev pub decode : ℕ → BeforeAfter × Option Error
decode n = (record { before = record { value = no_row }; after = record { value = row n } }, none)

abbrev pub message : ℕ → Message
message n = record { value = some (n ∷ []); partition = 0; offset = n }

abbrev pub events : List Event
events = delivered (message 0) ∷ hiccup (made "timeout") ∷ delivered (message 1) ∷ []

abbrev pub rows : List Usr
rows = row 0 ∷ row 1 ∷ []

abbrev pub world : World Queue (Dict Json)
world = record {
  reader = record { waiting = events; done = []; cancelled = false };
  store = [];
  sink = sink;
}

pub waiting : reader-IsQueue.pending world.reader ≡ events
unfolding reader-IsQueue
waiting = refl

pub reports : Reports decode decoder (Redis.creator times cache) events rows
reports = (
  (0 ∷ [], 0, _, refl, refl, refl, (refl, refl, refl, refl), refl, λ e. ground arith),
  ((1 ∷ [], 1, _, refl, refl, refl, (refl, refl, refl, refl), refl, λ e. ground arith), tt),
)

pub rows-KeepsTime : All (λ r. KeepsTime times (user_of r)) rows
unfolding msec_to_time
rows-KeepsTime = ((refl, refl), ((refl, refl), tt))

abbrev pub store : IsUserStore (Redis.creator times cache) (KeepsTime times)
store = redis-IsUserStore times cache cache-IsStore

abbrev pub final : Option (Outcome (Option Error)) × World Queue (Dict Json)
final =
    consuming reader reader-IsQueue decode decoder (Redis.creator times cache) (KeepsTime times)
      store start_span true "user" "cache" render ctx 4 world

capture_lem_example :
    (final.0 ≡ some (returned none))
    × (reader-IsQueue.committed final.1.reader
        ≡ reader-IsQueue.committed world.reader ++ messages events)
    × ((id : String)
        → store.view final.1.store id ≡ stored (map user_of rows) (store.view world.store) id)
capture_lem_example =
    capture_lem reader reader-IsQueue decode decoder (Redis.creator times cache) (KeepsTime times)
      store start_span true "user" "cache" render ctx events rows 4 world waiting reports
      rows-KeepsTime (omega arith)
