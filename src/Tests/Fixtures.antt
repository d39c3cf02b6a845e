-- ===== src/Tests/Fixtures.antt =====
-- The inputs of the runs.
use go_api_demo.Prelude.{String, false, none, []}
use go_api_demo.Error.{Error, message}
use go_api_demo.Context.{Context}
use go_api_demo.Json.{str, obj, end, member, Document, document}
use go_api_demo.Log.{Sink}
use go_api_demo.Server.{Host}
use go_api_demo.Time.{Time, unix}
use go_api_demo.Time.Rfc3339.{Zone}
use go_api_demo.User.{User}
use go_api_demo.Create.{Draw, InputData}
use go_api_demo.Storage.Memory.{UserStorage, new_user_storage}

abbrev pub ctx : Context
ctx = record { err = none; span = none }

abbrev pub sink : Sink
sink = record { lines = []; attributes = [] }

abbrev pub zone : Zone
zone sec = (false, 3600)

abbrev pub render : Error → String
render e = message e

abbrev pub now : Time
now = unix 1700000000 500000000

abbrev pub ann : User
ann = record { created_at = now; id = "a1"; first_name = "Anne"; last_name = "Bolt" }

abbrev pub bob : User
bob = record { created_at = now; id = "b2"; first_name = "Bobby"; last_name = "Crane" }

abbrev pub bobs_twin : User
bobs_twin = record { created_at = now; id = "b2"; first_name = "Robert"; last_name = "Crane" }

abbrev pub draw : Draw
draw = record { id = "a1"; now = now }

abbrev pub input : InputData
input = record { first_name = "Anne"; last_name = "Bolt" }

abbrev pub body : Document
body = document (obj (member "first_name" (str "Anne") (member "LAST_NAME" (str "Bolt") end)))

abbrev pub host : Host UserStorage
host = record { store = new_user_storage; sink = sink }
