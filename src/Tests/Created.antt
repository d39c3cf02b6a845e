-- ===== src/Tests/Created.antt =====
-- A user is created, captured and listed.
use mathlib.Core.List.{Mem}
use go_api_demo.Prelude.{◌≡◌, refl, some, true, List, [], ◌∷◌, last_match, ◌==◌, arith}
use go_api_demo.Json.{Json, arr, items}
use go_api_demo.Capture.Created.{created_lem, RowOf}
use go_api_demo.Create.{user_of}
use go_api_demo.Processor.{Usr}
use go_api_demo.Time.{unix, local}
use go_api_demo.Storage.Memory.{creator}
use go_api_demo.Tests.Engine.{engine, engine-IsLawful}
use go_api_demo.Tests.Fixtures.{ctx, render, zone, draw, body, input, host, now}
use go_api_demo.Tests.Http.{made, made-status, decoded}
use go_api_demo.Tests.Kafka.{reader, reader-IsQueue, start_span}
use go_api_demo.Tests.Redis.{times}
use go_api_demo.Tests.Capture.{
  row, rows, decoder, decode, events, world, waiting, reports, rows-KeepsTime,
}
use go_api_demo.Tests.Listing.{
  scanning, scanning-IsStore, scanning-Scans, asked, answered, none_there,
}

local_now : now.loc ≡ local
unfolding unix
local_now = refl

anne : RowOf (user_of draw input) (row 0)
unfolding unix
anne = (refl, refl, refl, (1700000000500, refl, omega arith, refl))

anne-last : last_match (λ (r : Usr). r.id == draw.id) rows ≡ some (row 0)
anne-last = refl

created_lem_example :
    (answered.writer.status ≡ some 200)
    × ((answer : Json) × ((shown_users : List Json) × (made.1.writer.body ≡ answer ∷ [])
          × (answered.writer.body ≡ arr (items shown_users) ∷ [])
          × Mem answer shown_users))
created_lem_example =
    created_lem reader reader-IsQueue decode decoder times scanning scanning-IsStore scanning-Scans
      start_span true "user" "cache" zone render ctx engine engine-IsLawful creator draw body input
      host (row 0) events rows 4 world asked decoded made-status local_now anne anne-last waiting
      reports rows-KeepsTime (omega arith) none_there refl
