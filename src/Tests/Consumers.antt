-- ===== src/Tests/Consumers.antt =====
-- The consumers over several runs, and several consumers of one group.
use go_api_demo.Prelude.{
  ℕ, ◌+◌, String, ◌≡◌, ◌==◌, ◌⊎◌, refl, true, false, Option, none, some, List, [], ◌∷◌, map, All,
  arith, if◌then◌else◌,
}
use go_api_demo.Prelude.Dict.{Dict}
use go_api_demo.Error.{Error, Outcome, made, returned, panicked}
use go_api_demo.Json.{Json}
use go_api_demo.Consume.{Message, World}
use go_api_demo.Consume.Run.{Event, delivered, hiccup}
use go_api_demo.Processor.{Usr}
use go_api_demo.Processor.Laws.{user_of}
use go_api_demo.Storage.Memory.{UserStorage}
use go_api_demo.Storage.Memory
use go_api_demo.Storage.Memory.Laws.{stored}
use go_api_demo.Storage.Redis
use go_api_demo.Storage.Redis.Laws.{KeepsTime}
use go_api_demo.Capture.{Reports}
use go_api_demo.Capture.Stores.{memory-IsUserStore}
use go_api_demo.Capture.Laws.{consuming}
use go_api_demo.Capture.Again.{Reached, fresh, ran, redelivered, Reached-stored}
use go_api_demo.Capture.Partitions.{Worker, Group, Step, Steps, step, here, next}
use go_api_demo.Capture.Partitions.Keyed.{users_of}
use go_api_demo.Capture.Partitions.Laws.{Waits, budget, partitions_lem}
use go_api_demo.Schema.Consuming.{
  AllLong, FirstShort, out_of_range, looped, LeavesHere, run_decode_lem,
}
use go_api_demo.Tests.Fixtures.{ctx, sink, render}
use go_api_demo.Tests.Kafka.{Queue, reader, reader-IsQueue, start_span, registry, processor}
use go_api_demo.Tests.Redis.{cache, times}
use go_api_demo.Tests.Capture.{
  row, rows, decoder, decode, message, events, world, waiting, reports, rows-KeepsTime, store,
  final,
}

-- Row 1 is delivered again after the first run.
abbrev again : List Event
again = delivered (message 1) ∷ []

abbrev resumed : World Queue (Dict Json)
resumed = record {
  reader = record { waiting = again; done = []; cancelled = false };
  store = final.1.store;
  sink = sink;
}

waiting_again : reader-IsQueue.pending resumed.reader ≡ again
unfolding reader-IsQueue
waiting_again = refl

abbrev ReachedHere : List Usr → Dict Json → Type 0
ReachedHere =
    Reached reader reader-IsQueue decode decoder (Redis.creator times cache) (KeepsTime times) store
      start_span true "user" "cache" render ctx rows []

abbrev second : Option (Outcome (Option Error)) × World Queue (Dict Json)
second =
    consuming reader reader-IsQueue decode decoder (Redis.creator times cache) (KeepsTime times)
      store start_span true "user" "cache" render ctx 2 resumed

reached : ReachedHere [] second.1.store
reached =
    ran (row 1 ∷ []) [] resumed again 2
      (redelivered (row 0 ∷ []) (row 1 ∷ []) []
        (ran rows [] world events 4 fresh waiting reports rows-KeepsTime (omega arith)) refl)
      waiting_again (reports.1.0, tt) (rows-KeepsTime.1.0, tt) (omega arith)

Reached-stored_example :
    store.view second.1.store "b2" ≡ stored (map user_of rows) (store.view []) "b2"
Reached-stored_example =
    Reached-stored reader reader-IsQueue decode decoder (Redis.creator times cache)
      (KeepsTime times) store start_span true "user" "cache" render ctx rows [] second.1.store
      reached "b2"

abbrev partition : String → ℕ
partition id = if id == "a1" then 0 else 1

abbrev worker : ℕ → Worker Queue
worker n = record {
  reader = record { waiting = delivered (message n) ∷ []; done = []; cancelled = false };
  result = none;
}

abbrev start : Group Queue UserStorage
start = record { workers = worker 0 ∷ worker 1 ∷ []; store = record { users = [] }; sink = sink }

abbrev StepsHere : ℕ → Group Queue UserStorage → Type 0
StepsHere =
    Steps reader decode decoder Memory.creator start_span true "user" "cache" render ctx start

-- The second worker goes first.
two_rounds : (g : Group Queue UserStorage) × StepsHere 2 g
two_rounds = (
  _,
  next (next here (step (worker 0 ∷ []) (worker 1) [] refl refl)) (step [] (worker 0) _ refl refl),
)

abbrev ReportedHere : (n : ℕ) → Type 0
ReportedHere n = Reports decode decoder Memory.creator (delivered (message n) ∷ []) (row n ∷ [])

first_row : ReportedHere 0
first_row =
    ((0 ∷ [], 0, _, refl, refl, refl, (refl, refl, refl, refl), refl, λ e. ground arith), tt)

second_row : ReportedHere 1
second_row =
    ((1 ∷ [], 1, _, refl, refl, refl, (refl, refl, refl, refl), refl, λ e. ground arith), tt)

abbrev lists : List (List Usr)
lists = (row 0 ∷ []) ∷ (row 1 ∷ []) ∷ []

abbrev WaitsHere : List (Worker Queue) → List (List Usr) → Type 0
WaitsHere =
    Waits reader reader-IsQueue decode decoder Memory.creator (λ u. Unit {0}) memory-IsUserStore
      start_span true "user" "cache" render ctx partition

waits : WaitsHere start.workers lists
unfolding reader-IsQueue
waits = (
  (delivered (message 0) ∷ [], refl, first_row, (tt, tt)),
  ((delivered (message 1) ∷ [], refl, second_row, (tt, tt)), tt),
)

abbrev budget_here : List (Worker Queue) → ℕ
budget_here =
    budget reader reader-IsQueue decode decoder Memory.creator (λ u. Unit {0}) memory-IsUserStore
      start_span true "user" "cache" render ctx partition

partitions_lem_example :
    (2 + budget_here two_rounds.0.workers ≡ budget_here start.workers)
    × (((h : Group Queue UserStorage) × Step reader decode decoder Memory.creator start_span true
            "user" "cache" render ctx two_rounds.0 h)
        ⊎ (All (λ (w : Worker Queue). w.result ≡ some (returned none)) two_rounds.0.workers
            × (2 ≡ budget_here start.workers)
            × ((id : String)
                → memory-IsUserStore.view two_rounds.0.store id
                  ≡ stored (users_of lists) (memory-IsUserStore.view start.store) id)))
partitions_lem_example =
    partitions_lem reader reader-IsQueue decode decoder Memory.creator (λ u. Unit {0})
      memory-IsUserStore start_span true "user" "cache" render ctx partition lists start waits
      ((refl, tt), ((refl, tt), tt)) 2 two_rounds.0 two_rounds.1

-- The registry of Tests.Kafka; the second message has two bytes.
abbrev long : Message
long = record { value = some (0 ∷ 0 ∷ 0 ∷ 0 ∷ 1 ∷ 9 ∷ []); partition = 0; offset = 0 }

abbrev short : Message
short = record { value = some (0 ∷ 1 ∷ []); partition = 0; offset = 1 }

abbrev encoded : List Event
encoded = delivered long ∷ hiccup (made "timeout") ∷ delivered short ∷ delivered long ∷ []

abbrev raw : World Queue (List ℕ)
raw = record {
  reader = record { waiting = encoded; done = []; cancelled = false };
  store = [];
  sink = sink;
}

encoded_waiting : reader-IsQueue.pending raw.reader ≡ encoded
unfolding reader-IsQueue
encoded_waiting = refl

abbrev raw_loop : Option (Outcome (Option Error)) × World Queue (List ℕ)
raw_loop =
    looped registry "users" reader reader-IsQueue processor start_span false "user" "cache" render
      ctx 5 raw

abbrev LeavesRaw : List Event → Type 0
LeavesRaw es =
    LeavesHere registry "users" reader reader-IsQueue processor start_span false "user" "cache"
      render ctx es raw raw_loop

run_decode_lem_example :
    (AllLong encoded × (raw_loop.0 ≡ some (returned none)) × LeavesRaw encoded)
    ⊎ ((before : List Event) × (value : List ℕ) × FirstShort encoded before value
        × (raw_loop.0 ≡ some (panicked (out_of_range registry "users" value)))
        × LeavesRaw before)
run_decode_lem_example =
    run_decode_lem registry "users" reader reader-IsQueue processor start_span false "user" "cache"
      render ctx encoded 5 raw encoded_waiting (omega arith)
