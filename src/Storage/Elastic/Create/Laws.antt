-- ===== src/Storage/Elastic/Create/Laws.antt =====
-- On `Create` of internal/storage/elastic/user.go, whatever the order of its goroutines.
use mathlib.Core.List.{append-nil}
use mathlib.Core.Path.{subst}
use go_api_demo.Prelude.{
  ℕ, suc, ◌+◌, ◌*◌, ◌<◌, ◌≡◌, ◌≢◌, ◌↔◌, refl, sym, ap, ◌∙◌, Option-cases, none, some, List, [], ◌∷◌,
  ◌++◌, ◌⊎◌, inl, inr, arith, length, All,
}
use go_api_demo.Prelude.Lists.{length-append, length-middle}
use go_api_demo.Error.{Error}
use go_api_demo.Context.{Context}
use go_api_demo.Json.{Json}
use go_api_demo.Time.JsonText.{TimeText}
use go_api_demo.User.{User}
use go_api_demo.Storage.Elastic.{IndexRequest, Response, Client, elastic_user, marshal}
use go_api_demo.Storage.Elastic.Create.{
  Result, result_of, start, collect, Flight, Step, perform, receive, Steps, here, next, launched,
  IsDone,
}

either : (r : Json ⊎ Error) → ((j : Json) × (r ≡ inl j)) ⊎ ((e : Error) × (r ≡ inr e))
either (inl j) = inl (j, refl)
either (inr e) = inr (e, refl)

marshal-cases :
    (times : TimeText) (u : User)
    → ((j : Json) × (marshal times (elastic_user u) ≡ inl j))
      ⊎ ((e : Error) × (marshal times (elastic_user u) ≡ inr e))
marshal-cases times u = either (marshal times (elastic_user u))

-- The request was sent without a transport error; its status can be any.
abbrev pub IsSent : Result → Type 0
IsSent r = r.err ≡ none

collect-some : (rs : List Result) (e : Error) → collect rs (some e) ≢ none
unfolding collect
collect-some [] e h = cc
collect-some (r ∷ rs) e h = elim (Option-cases r.err) [
  | inl sent ↦ collect-some rs e (ground arith)
  | inr (d, failed) ↦ collect-some rs _ (rw (failed, collect) at h)
]

-- The result of `Create` is nil exactly if no request failed in transport.
collect-none_iff : (rs : List Result) → (collect rs none ≡ none) ↔ All IsSent rs
unfolding collect
collect-none_iff [] = ground arith
collect-none_iff (r ∷ rs) = elim (Option-cases r.err) [
  | inl sent ↦ rw (sent, collect) (ground (arith, collect-none_iff rs))
  | inr (d, failed) ↦ rw (failed, collect) ((λ h. absurd (collect-some rs d h)), λ h. absurd (cc))
]

all-middle :
    {A : Type 0} (P : A → Type 0) (xs : List A) (a : A) (ys : List A)
    → All P (xs ++ a ∷ ys) ↔ (P a × All P (xs ++ ys))
all-middle P [] a ys = (λ h. h, λ h. h)
all-middle P (x ∷ xs) a ys =
    let (out, back) = all-middle P xs a ys in
    (λ h. ((out h.1).0, (h.0, (out h.1).1)), λ h. (h.1.0, back (h.0, h.1.1)))

-- The answer is a response and not a transport error.
abbrev pub IsResponse : Response ⊎ Error → Type 0
IsResponse a = (resp : Response) × (a ≡ inl resp)

IsSent-iff : (a : Response ⊎ Error) → IsSent (result_of a) ↔ IsResponse a
IsSent-iff (inl resp) = (λ h. (resp, refl), λ h. refl)
IsSent-iff (inr e) = (λ h. absurd (cc), λ h. absurd (let no = h.1 in cc))

start-length :
    (times : TimeText) (users : List User) (requests : List IndexRequest)
    → start times users ≡ (requests, none)
    → length requests ≡ length users
unfolding start
start-length times [] requests e = ap (λ r. length r.0) (sym e)
start-length times (u ∷ users) requests e =
    let rest = start times users in
    elim (marshal-cases times u) [
      | inr (d, failed) ↦ absurd (let no = ap (λ r. r.1) (sym (rw (failed, start) at e)) in cc)
      | inl (j, good) ↦
          let now = rw (good, start) at e in
          let none_left : rest.1 ≡ none = ap (λ r. r.1) now in
          sym (ap (λ r. length r.0) now)
          ∙ ap suc (start-length times users rest.0 (ap (λ o. (rest.0, o)) none_left))
    ]

all-last :
    {A : Type 0} (P : A → Type 0) (xs : List A) (a : A) → All P (xs ++ a ∷ []) ↔ (P a × All P xs)
all-last P xs a =
    let (out, back) = all-middle P xs a [] in
    (
      λ h. ((out h).0, subst (All P) (append-nil xs) (out h).1),
      λ h. back (h.0, subst (All P) (sym (append-nil xs)) h.1),
    )

abbrev steps_left : {E : Type 0} → Flight E → ℕ
steps_left f = 2 * length f.todo + length f.sending

-- Every request and every result is accounted for.
abbrev total : {E : Type 0} → Flight E → ℕ
total f = length f.todo + length f.sending + length f.received

module _ {E : Type 0} (client : Client E) (ctx : Context) where
  Step-steps_left :
      {f g : Flight E}
      → Step client ctx f g
      → (steps_left f ≡ suc (steps_left g)) × (total g ≡ total f)
  Step-steps_left {f} (perform xs q ys e) =
      let l = ap length e ∙ length-middle xs q ys in (omega (arith, l), omega (arith, l))
  Step-steps_left {f} (receive xs r ys e) =
      let l = ap length e ∙ length-middle xs r ys in
      (omega (arith, l), omega (arith, l, length-append f.received (r ∷ [])))

  Steps-steps_left :
      {f : Flight E} {n : ℕ} {g : Flight E}
      → Steps client ctx f n g
      → (steps_left f ≡ n + steps_left g) × (total g ≡ total f)
  Steps-steps_left here = (omega arith, refl)
  Steps-steps_left (next steps step) =
      let (left, all) = Steps-steps_left steps in
      let (left', all') = Step-steps_left step in (omega arith, omega arith)

  progress_of :
      (todo : List IndexRequest) (sending : List Result) (f : Flight E)
      → f.todo ≡ todo
      → f.sending ≡ sending
      → IsDone f ⊎ ((g : Flight E) × Step client ctx f g)
  progress_of (q ∷ todo) sending f e d = inr (_, perform [] q todo e)
  progress_of [] (r ∷ sending) f e d = inr (_, receive [] r sending d)
  progress_of [] [] f e d = inl (e, d)

  -- The client's answers to the requests that were done, the last first.
  abbrev pub answers :
      {f : Flight E} {n : ℕ} {g : Flight E} → Steps client ctx f n g → List (Response ⊎ Error)
  answers here = []
  answers (next {g = g} steps (perform xs q ys e)) = (client.index ctx q g.state).0 ∷ answers steps
  answers (next steps (receive xs r ys e)) = answers steps

  answers-length :
      {requests : List IndexRequest} {s : E} {n : ℕ} {f : Flight E}
      (steps : Steps client ctx (launched requests s) n f)
      → length (answers steps) + length f.todo ≡ length requests
  answers-length here = omega arith
  answers-length (next {g = g} steps (perform xs q ys e)) =
      omega (arith, answers-length steps, ap length e ∙ length-middle xs q ys)
  answers-length (next steps (receive xs r ys e)) = answers-length steps

  -- The results that are sent or received are those of the answers.
  abbrev AllSent : Flight E → Type 0
  AllSent f = All IsSent f.sending × All IsSent f.received

  Steps-answers :
      {requests : List IndexRequest} {s : E} {n : ℕ} {f : Flight E}
      (steps : Steps client ctx (launched requests s) n f)
      → AllSent f ↔ All IsResponse (answers steps)
  Steps-answers here = (λ h. tt, λ h. (tt, tt))
  Steps-answers (next {g = g} steps (perform xs q ys e)) =
      let (out, back) = Steps-answers steps in
      let (good, is) = IsSent-iff (client.index ctx q g.state).0 in
      (λ h. (good h.0.0, out (h.0.1, h.1)), λ h. ((is h.0, (back h.1).0), (back h.1).1))
  Steps-answers (next {g = g} steps (receive xs r ys e)) =
      let (out, back) = Steps-answers steps in
      let (apart, together) = all-middle IsSent xs r ys in
      let (last, put) = all-last IsSent g.received r in
      (
        λ h. out (subst (All IsSent) (sym e) (together ((last h.1).0, h.0)), (last h.1).1),
        λ h.
            let all = back h in
            let parts = apart (subst (All IsSent) e all.0) in (parts.1, put (parts.0, all.1)),
      )

  -- Where every user marshals, so that `Create` starts a goroutine for each: whatever the order in
  -- which they do their requests and send their results, `Create` ends. A run that is not done has a
  -- next step and has made fewer than two steps for each user, and a run that is done has made two
  -- and has received one result for each. What it then returns is nil exactly if the client answered
  -- each request with a response and none with a transport error, whatever the statuses are.
  pub Steps-collect :
      (times : TimeText) (users : List User) (requests : List IndexRequest) (s : E) (n : ℕ)
      (f : Flight E)
      → start times users ≡ (requests, none)
      → (steps : Steps client ctx (launched requests s) n f)
      → (IsDone f
          × (n ≡ 2 * length users)
          × (length f.received ≡ length users)
          × (length (answers steps) ≡ length users)
          × ((collect f.received none ≡ none) ↔ All IsResponse (answers steps)))
        ⊎ ((n < 2 * length users) × ((g : Flight E) × Step client ctx f g))
  Steps-collect times users requests s n f started steps =
      let (left, all) = Steps-steps_left steps in
      let many = start-length times users requests started in
      let (out, back) = Steps-answers steps in
      let (sent, nil) = collect-none_iff f.received in
      elim (progress_of f.todo f.sending f refl refl) [
        | inl done ↦ inl (
          done,
          omega (arith, many, ap length done.0, ap length done.1),
          omega (arith, many, ap length done.0, ap length done.1),
          omega (arith, many, answers-length steps, ap length done.0),
          (λ e. out (subst (All IsSent) (sym done.1) tt, sent e), λ h. nil (back h).1),
        )
        | inr (g, step) ↦ inr (omega (arith, many, (Step-steps_left step).0), (g, step))
      ]
