-- ===== src/Bootstrap/Laws/Readers.antt =====
-- The readers of the components that `New` of internal/bootstrap/bootstrap.go makes.
use go_api_demo.Prelude.{ℕ, suc, ◌≡◌, refl, ap, Bool, List, [], ◌∷◌, ◌++◌, map}
use go_api_demo.Config.{KafkaConsumer}
use go_api_demo.Consume.Consumers.Laws.{numbered}
use go_api_demo.Metrics.{ConsumerMetricsLabels, ConsumerMetricsCollector}
use go_api_demo.Bootstrap.Parts.{
  Kit, UserCache, UserSearch, Component, telemetry, http, grpc, consumer_cache, consumer_search,
}

abbrev pub readers_of : {D R Codec : Type 0} → List (Component D R Codec) → List R
readers_of [] = []
readers_of (telemetry t ∷ cs) = readers_of cs
readers_of (http h ∷ cs) = readers_of cs
readers_of (grpc g ∷ cs) = readers_of cs
readers_of (consumer_cache c ∷ cs) = c.reader ∷ readers_of cs
readers_of (consumer_search c ∷ cs) = c.reader ∷ readers_of cs

module _ {W D R I Conn Codec Data : Type 0} (kit : Kit W D R I Conn Codec Data)
    (settings : KafkaConsumer) (telemetry_enabled : Bool) (labels : ConsumerMetricsLabels)
    (collector : ConsumerMetricsCollector I) (decoder : Codec) where
  pub readers_of-cache :
      (processor : UserCache) (rs : List R) (i : ℕ) (cs : List (Component D R Codec))
      → readers_of (
          map consumer_cache (
            numbered kit.meter kit.new_reader settings telemetry_enabled labels collector processor
              decoder rs i)
          ++ cs)
        ≡ rs ++ readers_of cs
  readers_of-cache processor [] i cs = refl
  readers_of-cache processor (r ∷ rs) i cs =
      ap (λ l. r ∷ l) (readers_of-cache processor rs (suc i) cs)

  pub readers_of-search :
      (processor : UserSearch) (rs : List R) (i : ℕ)
      → readers_of {D = D} (
          map consumer_search (
            numbered kit.meter kit.new_reader settings telemetry_enabled labels collector processor
              decoder rs i))
        ≡ rs
  readers_of-search processor [] i = refl
  readers_of-search processor (r ∷ rs) i = ap (λ l. r ∷ l) (readers_of-search processor rs (suc i))
