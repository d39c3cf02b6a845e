-- ===== src/Topic.antt =====
-- internal/consume/topic.go: the creation of the topics. The connections to Kafka are third-party
-- code: `Kafka` is what the code calls of them.
pub mod Laws
use Prim.Native.Char.{code}
use Prim.Native.String
use go_api_demo.Prelude.{
  ℕ, String, ◌<>◌, Bool, false, ◌||◌, Option, none, some, List, [], ◌∷◌, digits, nat_eq,
  if◌then◌else◌,
}
use go_api_demo.Prelude.State.{State}
use go_api_demo.Error.{Error, nil_dereference, Outcome, returned, panicked}
use go_api_demo.Config.{TopicConfig, TopicConfigs}

-- `kafka.Dial("tcp", address)` and the methods of a connection, on the state `N` of the network. A
-- connection of `none` is nil.
pub record Kafka (N Conn : Type 0) : Type 0 where
  pub dial : String → State N (Option Conn × Option Error)
  pub controller : Conn → State N ((String × ℕ) × Option Error)
  pub create_topics : Conn → List TopicConfig → State N (Option Error)
  pub close : Conn → N → N

has_colon : String → Bool
has_colon String.[] = false
has_colon (String.◌∷◌ c s) = nat_eq (code c) b':' || nat_eq (code c) b'%' || has_colon s

-- net.JoinHostPort(host, strconv.Itoa(port)); the library puts brackets around a host with a colon
-- or a percent sign.
unfoldable pub join_host_port : String → ℕ → String
unfolding has_colon
join_host_port host port =
    if has_colon host then "[" <> host <> "]:" <> digits port else host <> ":" <> digits port

module _ {N Conn : Type 0} (kafka : Kafka N Conn) where
  -- The loop over the brokers.
  unfoldable pub dial_brokers : List String → State N (Option Conn × Option Error)
  dial_brokers [] n = ((none, none), n)
  dial_brokers (v ∷ brokers) n =
      let ((conn, err), n') = kafka.dial v n in
      let rest = dial_brokers brokers n' in
      elim err [
        | some e ↦ ((conn, some e), n')
        | none ↦ elim conn [ some c ↦ ((some c, none), n') | none ↦ rest ]
      ]

  -- From the connection to the controller on; both connections are closed at the end.
  unfoldable pub on_controller :
      Conn → Option Conn → List TopicConfig → State N (Outcome (Option Error))
  on_controller conn none conf n = (panicked nil_dereference, kafka.close conn n)
  on_controller conn (some controller_conn) conf n =
      let (err, n') = kafka.create_topics controller_conn conf n in
      (returned err, kafka.close conn (kafka.close controller_conn n'))

  unfoldable pub on_broker : Conn → List TopicConfig → State N (Outcome (Option Error))
  unfolding on_controller
  on_broker conn conf n =
      let (((host, port), err), n1) = kafka.controller conn n in
      elim err [
        | some e ↦ (returned (some e), kafka.close conn n1)
        | none ↦
            let ((controller_conn, err'), n2) = kafka.dial (join_host_port host port) n1 in
            elim err' [
              | some e ↦ (returned (some e), kafka.close conn n2)
              | none ↦ on_controller conn controller_conn conf n2
            ]
      ]

  -- From the end of the loop on.
  unfoldable pub dialled :
      List TopicConfig → (Option Conn × Option Error) × N → Outcome (Option Error) × N
  unfolding on_broker
  dialled conf ((conn, some e), n) = (returned (some e), n)
  dialled conf ((none, none), n) = (panicked nil_dereference, n)
  dialled conf ((some conn, none), n) = on_broker conn conf n

  unfoldable pub create_topics : TopicConfigs → State N (Outcome (Option Error))
  unfolding dial_brokers dialled
  create_topics topic_configs n = dialled topic_configs.conf (dial_brokers topic_configs.brokers n)
