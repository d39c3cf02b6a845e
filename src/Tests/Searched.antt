-- ===== src/Tests/Searched.antt =====
-- GET /user/search over an index that finds, after two rows.
use mathlib.Core.List.{Mem, mem-cons_self, mem-cons_of_mem}
use mathlib.Core.Path.{subst}
use go_api_demo.Prelude.{
  ℕ, zero, suc, ◌≤◌, ◌<◌, String, ◌≡◌, ◌≢◌, ◌==◌, eq_iff, refl, ap, sym, ◌∙◌, Bool, Bool-cases,
  Option-cases, true, false, not, inl, inr, none, some, List, [], ◌∷◌, map, All, length, take,
  arith,
}
use go_api_demo.Prelude.Dict.{Dict, lookup, insert, lookup-insert}
use go_api_demo.Json.{Json, str, arr, items, obj, end, document}
use go_api_demo.Consume.{World}
use go_api_demo.Processor.Laws.{user_of}
use go_api_demo.Storage.Elastic.{Client}
use go_api_demo.Search.Http.{user_json, param}
use go_api_demo.Search.Laws.Http.{shown}
use go_api_demo.Sanitise.Laws.{clean_count}
use go_api_demo.Server.{Host, Exchange}
use go_api_demo.User.{User}
use go_api_demo.Format.{msec_to_time}
use go_api_demo.Capture.Index.{IsIndex}
use go_api_demo.Capture.Hits.{response, hit_of, Finds, Indexed}
use go_api_demo.Capture.Searched.{consumed, searched, Matches, searched_lem}
use go_api_demo.Tests.Fixtures.{ctx, sink, render, zone}
use go_api_demo.Tests.Http.{params}
use go_api_demo.Tests.Kafka.{Queue, reader, reader-IsQueue, start_span}
use go_api_demo.Tests.Redis.{times}
use go_api_demo.Tests.Capture.{rows, decoder, decode, events, reports}

-- One query matches nothing, any other everything.
abbrev fits : String → Json → Bool
fits q d = not (q == "*Nobody*")

kept : Bool → String × Json → List (String × Json) → List (String × Json)
kept true p l = p ∷ l
kept false p l = l

hits : String → Dict Json → Dict Json → List (String × Json)
unfolding kept
hits q all [] = []
hits q all ((k, v) ∷ d) =
    let rest = hits q all d in
    elim (lookup k all) [ none ↦ rest | some w ↦ kept (fits q w) (k, w) rest ]

abbrev engine : Client (Dict Json)
engine = record {
  index = λ c q s. (
    inl (record { status_code = 200; is_error = false; body = document (obj end) }),
    insert q.document_id q.body s,
  );
  search = λ c q s.
      (inl (response (str "took") (str "count") (map hit_of (take 10 (hits q.query s s)))), s);
}

engine-IsIndex : IsIndex engine
engine-IsIndex = record {
  documents = λ s id. lookup id s;
  answers = λ c q s. (_, refl);
  puts = λ c q s id. lookup-insert q.document_id id q.body s;
}

abbrev IsHit : String → Dict Json → String × Json → Type 0
IsHit q all p = (lookup p.0 all ≡ some p.1) × (fits q p.1 ≡ true)

hits-IsHit : (q : String) (all d : Dict Json) → All (IsHit q all) (hits q all d)
unfolding hits kept
hits-IsHit q all [] = tt
hits-IsHit q all ((k, v) ∷ d) = elim (Option-cases (lookup k all)) [
  | inl gone ↦ rw (gone, hits) (hits-IsHit q all d)
  | inr (w, there) ↦ elim (Bool-cases (fits q w)) [
    | inl fit ↦ rw (there, hits) (rw (fit, kept) ((there, fit), hits-IsHit q all d))
    | inr bad ↦ rw (there, hits) (rw (bad, kept) (hits-IsHit q all d))
  ]
]

All-take : {A : Type 0} (P : A → Type 0) (n : ℕ) (l : List A) → All P l → All P (take n l)
All-take P zero l h = tt
All-take P (suc n) [] h = tt
All-take P (suc n) (x ∷ l) h = (h.0, All-take P n l h.1)

length-take : {A : Type 0} (n : ℕ) (l : List A) → length (take n l) ≤ n
length-take zero l = omega arith
length-take (suc n) [] = omega arith
length-take (suc n) (x ∷ l) = omega (arith, length-take n l)

take-all : {A : Type 0} (n : ℕ) (l : List A) → length (take n l) < n → take n l ≡ l
take-all zero l h = absurd (omega arith)
take-all (suc n) [] h = refl
take-all (suc n) (x ∷ l) h = ap (λ r. x ∷ r) (take-all n l (omega (arith, h)))

lookup-mem-hits :
    (q : String) (all d : Dict Json) (id : String) (v w : Json)
    → lookup id d ≡ some w
    → lookup id all ≡ some v
    → fits q v ≡ true
    → Mem (id, v) (hits q all d)
unfolding hits kept lookup
lookup-mem-hits q all [] id v w e there fit = absurd cc
lookup-mem-hits q all ((k, x) ∷ d) id v w e there fit = elim (Bool-cases (k == id)) [
  | inl same ↦
      let is : k ≡ id = (eq_iff k id).0 same in
      let at_k : lookup k all ≡ some v = ap (λ j. lookup j all) is ∙ there in
      rw (at_k, hits)
        (rw (fit, kept) (subst (λ j. Mem (j, v) ((k, v) ∷ hits q all d)) is mem-cons_self))
  | inr other ↦
      let m = lookup-mem-hits q all d id v w (ground arith) there fit in
      elim (Option-cases (lookup k all)) [
        | inl gone ↦ rw (gone, hits) m
        | inr (y, at_k) ↦ elim (Bool-cases (fits q y)) [
          | inl f ↦ rw (at_k, hits) (rw (f, kept) (mem-cons_of_mem (k, y) m))
          | inr f ↦ rw (at_k, hits) (rw (f, kept) m)
        ]
      ]
]

engine-Finds : Finds engine engine-IsIndex
unfolding engine-IsIndex
engine-Finds = record {
  matches = fits;
  refresh = λ s. s;
  finds = λ c q s one doc there. (
    str "took",
    str "count",
    take 10 (hits q.query s s),
    refl,
    All-take (IsHit q.query s) 10 (hits q.query s s) (hits-IsHit q.query s s),
    length-take 10 (hits q.query s s),
    λ few id d there fit.
        subst (λ l. Mem (id, d) l) (sym (take-all 10 (hits q.query s s) few))
          (lookup-mem-hits q.query s s id d d there there fit),
  );
}

abbrev world : World Queue (Dict Json)
world = record {
  reader = record { waiting = events; done = []; cancelled = false };
  store = [];
  sink = sink;
}

waiting : reader-IsQueue.pending world.reader ≡ events
unfolding reader-IsQueue
waiting = refl

rows-Indexed : All (λ row. Indexed times engine engine-IsIndex (user_of row)) rows
unfolding msec_to_time
rows-Indexed = ((refl, refl), ((refl, refl), tt))

no_documents : (id : String) → engine-IsIndex.documents world.store id ≡ none
unfolding lookup engine-IsIndex
no_documents id = refl

abbrev filled : Dict Json
filled =
    (consumed times engine engine-IsIndex engine-Finds reader reader-IsQueue decode decoder
      start_span true "user" "search" zone render ctx 4 world).1.store

abbrev asked : Host (Dict Json)
asked = record { store = engine-Finds.refresh filled; sink = sink }

abbrev answer : Exchange (Dict Json)
answer =
    searched times engine engine-IsIndex engine-Finds reader reader-IsQueue decode decoder
      start_span true "user" "search" zone render ctx asked params

abbrev Fits : User → Type 0
Fits u =
    Matches times engine engine-IsIndex engine-Finds reader reader-IsQueue decode decoder start_span
      true "user" "search" zone render ctx rows params u

some_row : rows ≢ []
some_row e = cc

long : 3 ≤ clean_count (param "searchTerm" params)
unfolding lookup go_api_demo.Sanitise.is_alpha_or_hyphen
long = omega arith

searched_lem_example :
    (answer.writer.status ≡ some 200)
    × (answer.host.store ≡ asked.store)
    × ((us : List User) × (answer.writer.body
          ≡ arr (items (map (λ u. user_json (shown zone u)) us)) ∷ [])
        × All Fits us
        × (length us ≤ 10)
        × (length us < 10 → (u : User) → Fits u → Mem u us))
searched_lem_example =
    searched_lem times engine engine-IsIndex engine-Finds reader reader-IsQueue decode decoder
      start_span true "user" "search" zone render ctx events rows 4 world asked params waiting
      reports rows-Indexed (omega arith) no_documents some_row refl long
