-- ===== src/Storage/Elastic/Create/One.antt =====
-- `Create` of internal/storage/elastic/user.go for one user, as the processor calls it: whatever the
-- order of its goroutines, it does the same.
use go_api_demo.Prelude.{
  ℕ, ◌≡◌, refl, ap, sym, ◌∙◌, ◌⊎◌, inl, inr, Option, none, some, List, [], ◌∷◌, ◌++◌,
}
use go_api_demo.Prelude.State.{State}
use go_api_demo.Error.{Error}
use go_api_demo.Context.{Context}
use go_api_demo.Time.JsonText.{TimeText}
use go_api_demo.User.{User, Creator}
use go_api_demo.Storage.Elastic.{IndexRequest, Client}
use go_api_demo.Storage.Elastic.Create.{
  Result, result_of, start, collect, Flight, Step, perform, receive, Steps, here, next, launched,
  IsDone,
}

module _ {E : Type 0} (client : Client E) where
  -- The requests done and received one after the other, which is one of the orders.
  unfoldable pub in_order : Context → List IndexRequest → State E (List Result)
  in_order ctx [] s = ([], s)
  in_order ctx (q ∷ qs) s =
      let (r, t) = client.index ctx q s in let (rs, u) = in_order ctx qs t in (result_of r ∷ rs, u)

  -- What `Create` returns: the error of the user at which it stopped, or that of the responses.
  abbrev pub returns : Option Error → List Result → Option Error
  returns (some e) rs = some e
  returns none rs = collect rs none

  unfoldable pub create : TimeText → Context → List User → State E (Option Error)
  unfolding start collect in_order
  create times ctx users s =
      let (requests, err) = start times users in
      let (rs, t) = in_order ctx requests s in (returns err rs, t)

  abbrev pub creator : TimeText → Creator E
  creator times = record { create = create times }

  module _ (ctx : Context) (q : IndexRequest) (s : E) where
    abbrev result : Result
    result = result_of (client.index ctx q s).0

    abbrev performed : Flight E
    performed = record {
      state = (client.index ctx q s).1;
      todo = [];
      sending = result ∷ [];
      received = [];
    }

    abbrev finished : Flight E
    finished = record {
      state = (client.index ctx q s).1;
      todo = [];
      sending = [];
      received = result ∷ [];
    }

    abbrev Where : Flight E → Type 0
    Where f = (f ≡ launched (q ∷ []) s) ⊎ (f ≡ performed) ⊎ (f ≡ finished)

    only :
        {A : Type 0} (a : A) (xs : List A) (b : A) (ys : List A)
        → a ∷ [] ≡ xs ++ b ∷ ys
        → (xs ≡ []) × (b ≡ a) × (ys ≡ [])
    only a [] b ys e = (refl, cc, cc)
    only a (x ∷ []) b ys e = absurd cc
    only a (x ∷ y ∷ xs) b ys e = absurd cc

    none_of : {A : Type 0} (xs : List A) (b : A) (ys : List A) → ¬ ([] ≡ xs ++ b ∷ ys)
    none_of [] b ys e = cc
    none_of (x ∷ xs) b ys e = cc

    abbrev did : IndexRequest → List IndexRequest → Flight E → Flight E
    did p l h = record h {
      state = (client.index ctx p h.state).1;
      todo = l;
      sending = result_of (client.index ctx p h.state).0 ∷ h.sending;
    }

    abbrev got : Result → List Result → Flight E → Flight E
    got r l h = record h { sending = l; received = h.received ++ r ∷ [] }

    Step-Where : {f g : Flight E} → Step client ctx f g → Where f → Where g
    Step-Where {f} (perform xs p ys e) (inl at) =
        let (no_xs, is_q, no_ys) = only q xs p ys (sym (ap (λ h. h.todo) at) ∙ e) in
        inr (
          inl (
            ap (λ x. did x (xs ++ ys) f) is_q
            ∙ ap (λ l. did q (l ++ ys) f) no_xs
            ∙ ap (λ l. did q l f) no_ys
            ∙ ap (did q []) at))
    Step-Where {f} (receive xs r ys e) (inl at) =
        absurd (none_of xs r ys (sym (ap (λ h. h.sending) at) ∙ e))
    Step-Where {f} (perform xs p ys e) (inr (inl at)) =
        absurd (none_of xs p ys (sym (ap (λ h. h.todo) at) ∙ e))
    Step-Where {f} (receive xs r ys e) (inr (inl at)) =
        let (no_xs, is_r, no_ys) = only result xs r ys (sym (ap (λ h. h.sending) at) ∙ e) in
        inr (
          inr (
            ap (λ x. got x (xs ++ ys) f) is_r
            ∙ ap (λ l. got result (l ++ ys) f) no_xs
            ∙ ap (λ l. got result l f) no_ys
            ∙ ap (got result []) at))
    Step-Where {f} (perform xs p ys e) (inr (inr at)) =
        absurd (none_of xs p ys (sym (ap (λ h. h.todo) at) ∙ e))
    Step-Where {f} (receive xs r ys e) (inr (inr at)) =
        absurd (none_of xs r ys (sym (ap (λ h. h.sending) at) ∙ e))

    Steps-Where : {n : ℕ} {f : Flight E} → Steps client ctx (launched (q ∷ []) s) n f → Where f
    Steps-Where here = inl refl
    Steps-Where (next steps last) = Step-Where last (Steps-Where steps)

    -- A run of one request that is done has received its result, and has done it once.
    pub Steps-one :
        (n : ℕ) (f : Flight E)
        → Steps client ctx (launched (q ∷ []) s) n f
        → IsDone f
        → (f.received ≡ (in_order ctx (q ∷ []) s).0) × (f.state ≡ (in_order ctx (q ∷ []) s).1)
    unfolding in_order
    Steps-one n f steps (no_todo, none_sending) = elim (Steps-Where steps) [
      | inl at ↦ absurd (let e = sym (ap (λ h. h.todo) at) ∙ no_todo in cc)
      | inr (inl at) ↦ absurd (let e = sym (ap (λ h. h.sending) at) ∙ none_sending in cc)
      | inr (inr at) ↦ (ap (λ h. h.received) at, ap (λ h. h.state) at)
    ]
