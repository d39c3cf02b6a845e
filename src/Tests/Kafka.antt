-- ===== src/Tests/Kafka.antt =====
-- The consumer, the schema registry, the creation of topics and the settings.
use mathlib.Core.Path.{subst}
use go_api_demo.Prelude.{
  ℕ, zero, suc, String, ◌≡◌, ◌≢◌, ◌↔◌, refl, ◌⊎◌, inl, inr, Bool, true, false, Option, none, some,
  List, [], ◌∷◌, ◌++◌, if◌then◌else◌, ◌==◌, length, arith,
}
use go_api_demo.Prelude.Dict.{lookup}
use go_api_demo.Error.{Error, canceled, made, is_same, returned, panicked}
use go_api_demo.Context.{Context}
use go_api_demo.Config.{Config, TopicConfig, TopicConfigs, new, users_topic}
use go_api_demo.Config.Lookup.{Env, Strconv, parse_bool}
use go_api_demo.Config.Laws.{ReturnsWith, Parses, Agree}
use go_api_demo.Config.Converse.{new-Parses_iff}
use go_api_demo.Consume.{Message, KafkaReader, Decoder, Processor, World}
use go_api_demo.Consume.Run.{Event, delivered, hiccup, IsQueue, NoPanic}
use go_api_demo.Consume.Run.Total.{Ended, loop, run_lem}
use go_api_demo.Int.Atoi.{atoi}
use go_api_demo.Int.{ℤ, pos}
use go_api_demo.Json.{str, obj, end, member, document}
use go_api_demo.Schema.{Registry, Client, get_schema_codec}
use go_api_demo.Schema.Laws.{get_schema_codec_lem}
use go_api_demo.Topic.{Kafka, create_topics}
use go_api_demo.Topic.Laws.{Returns, create_topics_lem}
use go_api_demo.Tests.Fixtures.{ctx, sink, render}

-- A reader that holds its events, and whose context is cancelled when they are used up.
pub record Queue : Type 0 where
  pub waiting : List Event
  pub done : List Message
  pub cancelled : Bool

abbrev nothing : Message
nothing = record { value = none; partition = 0; offset = 0 }

abbrev fetch_from : List Event → Queue → (Message × Option Error) × Queue
fetch_from [] q = ((nothing, some canceled), record q { cancelled = true })
fetch_from (delivered m ∷ es) q = ((m, none), record q { waiting = es })
fetch_from (hiccup e ∷ es) q = ((nothing, some e), record q { waiting = es; cancelled = false })

abbrev pub reader : KafkaReader Queue
reader = record {
  fetch_message = λ c q. fetch_from q.waiting q;
  commit_messages = λ c ms q. (none, record q { done = q.done ++ ms });
  ctx_err = λ q. if q.cancelled then some canceled else none;
}

pub no_context_error : (e : Error) → is_same e none ≡ false
unfolding is_same
no_context_error e = ground arith

unfoldable pub reader-IsQueue : IsQueue reader
reader-IsQueue = record {
  pending = λ q. q.waiting;
  committed = λ q. q.done;
  fetch_delivered = λ c q m es e. rw e (refl, refl, refl);
  fetch_hiccup = λ c q err es e. rw e (refl, no_context_error err, refl, refl);
  fetch_end = λ c q e. rw e (refl, refl, refl);
  commit_ok = λ c q m. (refl, refl, refl);
}

-- A message of one byte is its own data, a message of none does not decode, and one of more makes
-- the decoder panic.
abbrev pub decoder : Decoder ℕ
decoder [] = returned (0, some (made "empty"))
decoder (b ∷ []) = returned (b, none)
decoder (b ∷ c ∷ bs) = panicked "too long"

-- Data are added to the store, and 0 is refused.
abbrev keep_positive : ℕ → List ℕ → Option Error × List ℕ
keep_positive zero s = (some (made "zero"), s)
keep_positive (suc n) s = (none, s ++ suc n ∷ [])

abbrev pub processor : Processor (List ℕ) ℕ
processor = record { process = λ c n s. keep_positive n s }

abbrev pub byte : ℕ → Message
byte n = record { value = some (n ∷ []); partition = 0; offset = n }

abbrev events : List Event
events = delivered (byte 7) ∷ hiccup (made "timeout") ∷ delivered (byte 0) ∷ delivered nothing ∷ []

abbrev world : World Queue (List ℕ)
world = record {
  reader = record { waiting = events; done = []; cancelled = false };
  store = [];
  sink = sink;
}

abbrev pub start_span : Context → String → Context
start_span c name = c

pub calm_byte :
    (n : ℕ) (value : List ℕ) (text : String)
    → ◌≡◌ {A = Option (List ℕ)} (some (n ∷ [])) (some value)
    → decoder value ≢ panicked text
calm_byte n value text e = ground arith

calm : NoPanic decoder processor events
calm = (calm_byte 7, (calm_byte 0, ((λ value text e. cc), tt)))

run_lem_example :
    Ended reader reader-IsQueue decoder processor start_span true "users" "redis" render ctx events
      world
      (loop reader reader-IsQueue decoder processor start_span true "users" "redis" render ctx 5
        world)
unfolding reader-IsQueue
run_lem_example =
    run_lem reader reader-IsQueue decoder processor start_span true "users" "redis" render ctx
      events 5 world refl calm (omega arith)

-- A registry whose state counts the requests; a codec is the text of its schema.
abbrev pub registry : Registry ℕ String ℕ
registry = record {
  new_request = λ endpoint. none;
  fetch = λ endpoint n. ((document (obj (member "schema" (str "{}") end)), none), suc n);
  new_codec = λ s. inl s;
  native_from_binary = λ codec bytes. (length bytes, none);
  no_data = 0;
  show_value = λ v. "";
}

abbrev client : Client ℕ String
client = record { http = 0; codecs = [] }

abbrev fetched : (String ⊎ Error) × Client ℕ String
fetched = get_schema_codec registry "users" client

fetched-http : fetched.1.http ≡ 1
unfolding get_schema_codec lookup
fetched-http = refl

get_schema_codec_lem_example :
    ((codec : String) × (fetched.0 ≡ inl codec)
      × (lookup "users" fetched.1.codecs
          ≡ (if "users" == "users" then some codec else lookup "users" client.codecs))
      × (get_schema_codec registry "users" fetched.1 ≡ (inl codec, fetched.1)))
    ⊎ ((e : Error) × (fetched.0 ≡ inr e) × (fetched.1.codecs ≡ client.codecs))
get_schema_codec_lem_example = get_schema_codec_lem registry "users" client "users"

-- A network whose state is the topics that there are, with one controller.
abbrev kafka : Kafka (List TopicConfig) String
kafka = record {
  dial = λ address n. ((some address, none), n);
  controller = λ conn n. ((("kafka", 9092), none), n);
  create_topics = λ conn conf n. (none, n ++ conf);
  close = λ conn n. n;
}

kafka-dials : (address : String) (n : List TopicConfig) → (kafka.dial address n).0 ≢ (none, none)
kafka-dials address n e = cc

abbrev brokers : List String → TopicConfigs
brokers bs = record { brokers = bs; conf = users_topic ∷ [] }

create_topics_lem_example :
    Returns kafka (create_topics kafka (brokers ("a:9092" ∷ "b:9092" ∷ [])) [])
    × (create_topics kafka (brokers ("a:9092" ∷ "b:9092" ∷ [])) []
        ≡ create_topics kafka (brokers ("a:9092" ∷ [])) [])
create_topics_lem_example =
    create_topics_lem kafka kafka-dials "a:9092" ("b:9092" ∷ []) (users_topic ∷ []) []

abbrev conv : Strconv
conv = record { quote = λ s. s; parse_duration = λ s. (pos 1000000000, none) }

abbrev env : Env
env key =
    if key == "HTTP_PORT"
    then some "8080"
    else if key == "TELEMETRY_ENABLED"
    then some "false"
    else if key == "KAFKA_BROKERS"
    then some "a:9092,b:9092"
    else none

unset : (P : String → Type 0) (val : String) → ◌≡◌ {A = Option String} none (some val) → P val
unset P val e = cc

set :
    (P : String → Type 0) (s : String)
    → P s
    → (val : String) → ◌≡◌ {A = Option String} (some s) (some val)
    → P val
set P s p val e = let same : s ≡ val = cc in subst P same p

port_8080 : (n : ℤ) × (atoi "8080" ≡ inl n)
unfolding atoi
port_8080 = (pos 8080, refl)

false_is_bool : (b : Bool) × (parse_bool "false" ≡ some b)
unfolding parse_bool
false_is_bool = (false, refl)

env-Parses : Parses conv env
env-Parses = (
  unset _,
  unset _,
  unset _,
  set (λ v. (b : Bool) × (parse_bool v ≡ some b)) "false" false_is_bool,
  unset _,
  (unset _, unset _, unset _, unset _, unset _),
  (unset _, unset _, unset _, unset _, unset _),
  unset _,
  set (λ v. (n : ℤ) × (atoi v ≡ inl n)) "8080" port_8080,
  unset _,
  unset _,
  unset _,
)

new-Parses_iff_example :
    (Parses conv env ↔ ReturnsWith (Agree conv env) (new conv env))
    × (((c : Config) × (new conv env ≡ returned c))
        ⊎ ((text : String) × (new conv env ≡ panicked text)))
new-Parses_iff_example = new-Parses_iff conv env
