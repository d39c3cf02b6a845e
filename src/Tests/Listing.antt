-- ===== src/Tests/Listing.antt =====
-- GET /user over a cache that scans, after two rows.
use text.Mathlib.TextLemmas.{nil-append, cons-append}
use mathlib.Core.List.{Mem, mem-cons, mem-cons_self, mem-cons_of_mem, not-mem-nil}
use mathlib.Core.HLevel.{⊥_prop}
use mathlib.Core.Logic.Or
use mathlib.Core.Path.{subst}
use go_api_demo.Prelude.{
  ℕ, zero, suc, String, ◌<>◌, ◌≡◌, ◌≢◌, ◌↔◌, ◌==◌, eq_iff, refl, ap, sym, ◌∙◌, Bool-cases, true,
  inl, inr, none, some, List, [], ◌∷◌, ◌++◌, map, if◌then◌else◌, arith, rune_count,
}
use go_api_demo.Prelude.Dict.{Dict, lookup}
use go_api_demo.Json.{Json, arr, items}
use go_api_demo.Storage.Redis.{Cache, user_key}
use go_api_demo.Storage.Redis.Laws.{found, IsStore}
use go_api_demo.Storage.Memory.Laws.{stored}
use go_api_demo.Capture.Scan.{Scans}
use go_api_demo.Capture.Listing.{consumed, listed, listing_lem}
use go_api_demo.Consume.{World}
use go_api_demo.Processor.Laws.{user_of}
use go_api_demo.Read.Http.{user_json}
use go_api_demo.Read.Laws.{shown}
use go_api_demo.Server.{Host, Exchange}
use go_api_demo.User.{User}
use go_api_demo.Tests.Fixtures.{ctx, sink, render, zone}
use go_api_demo.Tests.Kafka.{Queue, reader, reader-IsQueue, start_span}
use go_api_demo.Tests.Redis.{times, lookup-append}
use go_api_demo.Tests.Capture.{
  rows, decoder, decode, events, world, waiting, reports, rows-KeepsTime,
}

-- A text without its first characters.
rest : ℕ → String → String
rest zero s = s
rest (suc n) String.[] = ""
rest (suc n) (String.◌∷◌ c s) = rest n s

rest-append : (s t : String) → rest (rune_count s) (s <> t) ≡ t
unfolding rest rune_count
rest-append String.[] t = nil-append t
rest-append (String.◌∷◌ c s) t =
    ap (rest (suc (rune_count s))) (cons-append c s t) ∙ rest-append s t

rest-user_key : (id : String) → rest 5 (user_key id) ≡ id
unfolding rune_count
rest-user_key id = rest-append "user:" id

-- The ids of the keys that are those of users.
pub ids : Dict Json → List String
unfolding rest
ids [] = []
ids ((k, v) ∷ d) = if user_key (rest 5 k) == k then rest 5 k ∷ ids d else ids d

ids-mem : (d : Dict Json) (id : String) → Mem id (ids d) → lookup (user_key id) d ≢ none
unfolding ids lookup
ids-mem [] id m e = not-mem-nil m
ids-mem ((k, v) ∷ d) id m e = elim (Bool-cases (user_key (rest 5 k) == k)) [
  | inr other ↦ ids-mem d id (rw (other, ids) at m) (ground arith)
  | inl same ↦
      Or.elim ⊥_prop (mem-cons.0 (rw (same, ids) at m))
        (λ p.
          (let is : k ≡ user_key id =
              sym ((eq_iff (user_key (rest 5 k)) k).0 same) ∙ ap user_key (sym p) in
            absurd (ground (arith, e, eq_iff k (user_key id), is))))
        (λ r. ids-mem d id r (ground arith))
]

mem-ids : (d : Dict Json) (id : String) → lookup (user_key id) d ≢ none → Mem id (ids d)
unfolding ids lookup
mem-ids [] id there = absurd (there refl)
mem-ids ((k, v) ∷ d) id there = elim (Bool-cases (k == user_key id)) [
  | inl same ↦
      let is : k ≡ user_key id = (eq_iff k (user_key id)).0 same in
      let r : rest 5 k ≡ id = ap (rest 5) is ∙ rest-user_key id in
      let hit : (user_key (rest 5 k) == k) ≡ true =
        (eq_iff (user_key (rest 5 k)) k).1 (ap user_key r ∙ sym is) in
      rw (hit, ids) (subst (λ x. Mem x (rest 5 k ∷ ids d)) r mem-cons_self)
  | inr other ↦
      let others : Mem id (ids d) = mem-ids d id (λ gone. there (ground arith)) in
      elim (Bool-cases (user_key (rest 5 k) == k)) [
        | inl b ↦ rw (b, ids) (mem-cons_of_mem (rest 5 k) others)
        | inr b ↦ rw (b, ids) others
      ]
]

-- A client whose state is what it has stored, and which scans.
abbrev pub scanning : Cache (Dict Json)
scanning = record {
  mset = λ c m d. (none, m ++ d);
  scan = λ c pattern d. ((map user_key (ids d), none), d);
  mget = λ c keys d. ((map (λ k. found k d) keys, none), d);
}

pub scanning-IsStore : IsStore scanning
scanning-IsStore = record {
  entries = λ d. d;
  mset_ok = λ c m d. refl;
  mset_sets = λ c m d k. lookup-append k m d;
  mget_gets = λ c keys d. refl;
}

pub scanning-Scans : Scans scanning scanning-IsStore
unfolding scanning-IsStore
scanning-Scans = record { scan_all = λ c d. (ids d, refl, λ id. (ids-mem d id, mem-ids d id)) }

abbrev pub final : World Queue (Dict Json)
final =
    (consumed reader reader-IsQueue decode decoder times scanning scanning-IsStore scanning-Scans
      start_span true "user" "cache" zone render ctx 4 world).1

abbrev pub asked : Host (Dict Json)
asked = record { store = final.store; sink = sink }

abbrev pub answered : Exchange (Dict Json)
answered =
    listed reader reader-IsQueue decode decoder times scanning scanning-IsStore scanning-Scans
      start_span true "user" "cache" zone render ctx asked

pub none_there : (id : String) → lookup (user_key id) (scanning-IsStore.entries world.store) ≡ none
unfolding lookup scanning-IsStore
none_there id = refl

listing_lem_example :
    (answered.writer.status ≡ some 200)
    × (answered.host ≡ asked)
    × ((us : List User) × (answered.writer.body
          ≡ arr (items (map (λ u. user_json (shown zone u)) us)) ∷ [])
        × ((u : User) → Mem u us ↔ (stored (map user_of rows) (λ id. none) u.id ≡ some u)))
listing_lem_example =
    listing_lem reader reader-IsQueue decode decoder times scanning scanning-IsStore scanning-Scans
      start_span true "user" "cache" zone render ctx events rows 4 world asked waiting reports
      rows-KeepsTime (omega arith) none_there refl
