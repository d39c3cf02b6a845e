-- ===== src/Tests/Index.antt =====
-- The consumer for the search, over an Elasticsearch that refuses.
use go_api_demo.Prelude.{ℕ, ◌≡◌, refl, true, false, Option, none, some, [], ◌++◌, inl, All, arith}
use go_api_demo.Error.{Error, Outcome, returned}
use go_api_demo.Json.{obj, end, document}
use go_api_demo.Consume.{World}
use go_api_demo.Processor.Laws.{user_of}
use go_api_demo.Storage.Elastic.{Client}
use go_api_demo.Capture.{messages}
use go_api_demo.Capture.Index.{Refuses, HasText, looped, refused_lem}
use go_api_demo.Tests.Fixtures.{ctx, sink, render}
use go_api_demo.Tests.Kafka.{Queue, reader, reader-IsQueue, start_span}
use go_api_demo.Tests.Redis.{times}
use go_api_demo.Tests.Capture.{rows, decoder, decode, events, reports}

-- A client whose state is the number of its documents, and which takes none.
abbrev read_only : Client ℕ
read_only = record {
  index =
      λ c q n. (inl (record { status_code = 403; is_error = true; body = document (obj end) }), n);
  search =
      λ c q n. (inl (record { status_code = 200; is_error = true; body = document (obj end) }), n);
}

read_only-Refuses : Refuses read_only
read_only-Refuses = record { refuses = λ c q s. (_, refl, refl) }

abbrev world : World Queue ℕ
world = record {
  reader = record { waiting = events; done = []; cancelled = false };
  store = 7;
  sink = sink;
}

waiting : reader-IsQueue.pending world.reader ≡ events
unfolding reader-IsQueue
waiting = refl

rows-HasText : All (λ row. HasText times read_only (user_of row)) rows
rows-HasText = (refl, (refl, tt))

abbrev final : Option (Outcome (Option Error)) × World Queue ℕ
final =
    looped times read_only read_only-Refuses reader reader-IsQueue decode decoder start_span true
      "user" "search" render ctx 4 world

refused_lem_example :
    (final.0 ≡ some (returned none))
    × (reader-IsQueue.committed final.1.reader
        ≡ reader-IsQueue.committed world.reader ++ messages events)
    × (final.1.store ≡ 7)
refused_lem_example =
    refused_lem times read_only read_only-Refuses reader reader-IsQueue decode decoder start_span
      true "user" "search" render ctx events rows 4 world waiting reports rows-HasText (omega arith)
