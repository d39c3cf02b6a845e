-- ===== src/Tests/Redis.antt =====
-- The storage in Redis.
use go_api_demo.Prelude.{String, ◌≡◌, refl, none, some, List, [], ◌∷◌, ◌++◌, inl, map, arith}
use go_api_demo.Prelude.Dict.{Dict, lookup}
use go_api_demo.Json.{Json}
use go_api_demo.Time.JsonText.{TimeText}
use go_api_demo.User.{User}
use go_api_demo.Trace.{to_upper}
use go_api_demo.Storage.Redis.{Cache, user_key, create, read_keys}
use go_api_demo.Storage.Redis.Laws.{found, IsStore, KeepsTime, read_keys-create}
use go_api_demo.Prelude.{All}
use go_api_demo.Tests.Fixtures.{ctx, now, ann, bob, bobs_twin}

-- A client whose state is what it has stored.
abbrev pub cache : Cache (Dict Json)
cache = record {
  mset = λ c m d. (none, m ++ d);
  scan = λ c pattern d. (([], none), d);
  mget = λ c keys d. ((map (λ k. found k d) keys, none), d);
}

pub lookup-append :
    (k : String) (m d : Dict Json)
    → lookup k (m ++ d) ≡ (elim (lookup k m) [ none ↦ lookup k d | some v ↦ some v ])
unfolding lookup
lookup-append k [] d = refl
lookup-append k ((j, v) ∷ m) d = ground (arith, lookup-append k m d)

pub cache-IsStore : IsStore cache
cache-IsStore = record {
  entries = λ d. d;
  mset_ok = λ c m d. refl;
  mset_sets = λ c m d k. lookup-append k m d;
  mget_gets = λ c keys d. refl;
}

-- Every time has the text and the value of one time.
abbrev pub times : TimeText
times = record { to_text = λ t. inl "2023-11-14T22:13:20.5Z"; of_text = λ s. (now, none) }

abbrev three : List User
three = ann ∷ bob ∷ bobs_twin ∷ []

three-KeepsTime : All (KeepsTime times) three
three-KeepsTime = ((refl, refl), ((refl, refl), ((refl, refl), tt)))

read_keys-create_example :
    ((create times cache ctx three []).0 ≡ none)
    × ((read_keys times cache ctx
          (map user_key ("b2" ∷ "a1" ∷ []))
          (create times cache ctx three []).1).0
        ≡ (bobs_twin ∷ ann ∷ [], none))
read_keys-create_example =
    read_keys-create times cache cache-IsStore ctx three [] three-KeepsTime ("b2" ∷ "a1" ∷ [])
      (bobs_twin ∷ ann ∷ []) refl

to_upper-mget : to_upper "mget" ≡ "MGET"
unfolding to_upper
to_upper-mget = refl
