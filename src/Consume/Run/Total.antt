-- ===== src/Consume/Run/Total.antt =====
-- `Run` of internal/consume/consumer.go as a whole, over all that a reader holds.
use mathlib.Core.Path.{subst}
use mathlib.Core.List.{append_assoc, append-nil}
use go_api_demo.Prelude.{
  ℕ, zero, suc, ◌<◌, String, ◌<>◌, ◌≡◌, inl, inr, refl, ap, sym, ◌∙◌, Bool, true, false, Option,
  none, some, List, [], ◌∷◌, ◌++◌, arith, Bool-cases, length, if◌then◌else◌,
}
use go_api_demo.Error.{Error, is_same, Outcome, returned}
use go_api_demo.Context.{Context}
use go_api_demo.Log.{log_error}
use go_api_demo.Consume.{Message, KafkaReader, Decoder, Processor, World, consume, cf, run}
use go_api_demo.Consume.Run.{Event, delivered, hiccup, IsQueue, deal, deal_all, keep, NoPanic}
use go_api_demo.Consume.Run.Rounds.{
  Agrees, consume-deal, run-end, run-hiccup, run-consumed, run-failed,
}

-- The context that a message is consumed in.
abbrev pub span_context : (Context → String → Context) → Bool → String → String → Context → Context
span_context start_span telemetry_enabled entity_type destination ctx =
    if telemetry_enabled
    then start_span ctx ("consume: " <> destination <> ": " <> entity_type)
    else ctx

module _ {R S Data : Type 0} (reader : KafkaReader R) (queue : IsQueue reader)
    (decoder : Decoder Data) (processor : Processor S Data)
    (start_span : Context → String → Context) (telemetry_enabled : Bool)
    (entity_type destination : String) (render : Error → String) (ctx : Context) where
  abbrev pub inner : Context
  inner = span_context start_span telemetry_enabled entity_type destination ctx

  abbrev pub consume_func : Context → Message → World R S → Outcome (Option Error) × World R S
  consume_func = cf reader decoder processor start_span telemetry_enabled entity_type destination

  pub cf-consume :
      (m : Message) (w : World R S)
      → consume_func ctx m w ≡ consume reader decoder processor inner m w
  unfolding cf
  cf-consume m w = elim (Bool-cases telemetry_enabled) [ inl e ↦ rw (e, cf) | inr e ↦ rw (e, cf) ]

  abbrev pub loop : ℕ → World R S → Option (Outcome (Option Error)) × World R S
  loop = λ n w. run reader decoder processor render consume_func n ctx w

  abbrev pub dealt : List Event → S → List Message × S
  dealt = deal_all decoder processor inner

  -- What dealing with the events `es` from `w` on leaves.
  abbrev pub Leaves : List Event → World R S → Option (Outcome (Option Error)) × World R S → Type 0
  Leaves es w t =
      (t.1.store ≡ (dealt es w.store).1)
      × (queue.committed t.1.reader ≡ queue.committed w.reader ++ (dealt es w.store).0)

  -- The loop has ended, and left that.
  abbrev pub Ended : List Event → World R S → Option (Outcome (Option Error)) × World R S → Type 0
  Ended es w t = (t.0 ≡ some (returned none)) × Leaves es w t

  pub keep-append :
      (b : Bool) (m : Message) (ms : List Message)
      → keep decoder processor b m [] ++ ms ≡ keep decoder processor b m ms
  keep-append true m ms = refl
  keep-append false m ms = refl

  -- After a round that leaves `v`, what is left to show is the rest of the loop.
  pub Leaves-step :
      (es fs : List Event) (w v : World R S) (t : Option (Outcome (Option Error)) × World R S)
      (now : List Message)
      → ((dealt fs w.store) ≡ (now ++ (dealt es v.store).0, (dealt es v.store).1))
      → queue.committed v.reader ≡ queue.committed w.reader ++ now
      → Leaves es v t
      → Leaves fs w t
  Leaves-step es fs w v t now d c (store, commits) = (
    store ∙ sym (ap (λ r. r.1) d),
    commits
        ∙ ap (λ l. l ++ (dealt es v.store).0) c
        ∙ append_assoc (queue.committed w.reader) now (dealt es v.store).0
        ∙ sym (ap (λ r. queue.committed w.reader ++ r.0) d),
  )

  Ended-step :
      (es fs : List Event) (w v : World R S) (t : Option (Outcome (Option Error)) × World R S)
      (now : List Message)
      → ((dealt fs w.store) ≡ (now ++ (dealt es v.store).0, (dealt es v.store).1))
      → queue.committed v.reader ≡ queue.committed w.reader ++ now
      → Ended es v t
      → Ended fs w t
  Ended-step es fs w v t now d c (done, rest) = (done, Leaves-step es fs w v t now d c rest)

  pub dealt-delivered :
      (m : Message) (es : List Event) (s : S) {t : S} {good : Bool}
      → deal decoder processor inner m s ≡ (good, t)
      → dealt (delivered m ∷ es) s
        ≡ (keep decoder processor good m [] ++ (dealt es t).0, (dealt es t).1)
  unfolding deal_all
  dealt-delivered m es s {t} {good} e =
      ap (λ d. (keep decoder processor d.0 m (dealt es d.1).0, (dealt es d.1).1)) e
      ∙ ap (λ l. (l, (dealt es t).1)) (sym (keep-append good m (dealt es t).0))

  abbrev fetched_from : World R S → (Message × Option Error) × R
  fetched_from w = reader.fetch_message ctx w.reader

  abbrev pub moved : World R S → World R S
  moved w = record w { reader = (fetched_from w).1 }

  abbrev pub noted : Error → World R S → World R S
  noted e w = record w { sink = log_error render e w.sink }

  run-delivered :
      (rounds : ℕ) (m : Message) (es : List Event) (w : World R S) (d : Bool × S)
      → deal decoder processor inner m w.store ≡ d
      → (fetched_from w).0 ≡ (m, none)
      → queue.committed (fetched_from w).1 ≡ queue.committed w.reader
      → Agrees reader queue decoder processor inner m (moved w) (consume_func ctx m (moved w)) d
      → ((v : World R S)
          → queue.pending v.reader ≡ queue.pending (moved w).reader
          → Ended es v (loop rounds v))
      → Ended (delivered m ∷ es) w (loop (suc rounds) w)
  run-delivered rounds m es w (good, s) dealt_with f k (stored, _, pends, inl (g, r, c)) rest =
      let v : World R S = (consume_func ctx m (moved w)).1 in
      let step = run-consumed reader decoder processor render consume_func ctx rounds w m f r in
      let split = dealt-delivered m es w.store dealt_with in
      subst (Ended (delivered m ∷ es) w) (sym step) (
        Ended-step es (delivered m ∷ es) w v (loop rounds v) (m ∷ [])
          (split
            ∙ ap (λ b. (keep decoder processor b m [] ++ (dealt es s).0, (dealt es s).1)) g
            ∙ sym (
                ap (λ u. (keep decoder processor true m [] ++ (dealt es u).0, (dealt es u).1))
                  stored))
          (c ∙ ap (λ l. l ++ m ∷ []) k) (rest v pends))
  run-delivered rounds m es w (good, s) dealt_with f k (stored, _, pends, inr (g, (e, r), c)) rest =
      let v : World R S = noted e (consume_func ctx m (moved w)).1 in
      let split = dealt-delivered m es w.store dealt_with in
      let step = run-failed reader decoder processor render consume_func ctx rounds w m f r in
      subst (Ended (delivered m ∷ es) w) (sym step) (
        Ended-step es (delivered m ∷ es) w v (loop rounds v) []
          (split
            ∙ ap (λ b. (keep decoder processor b m [] ++ (dealt es s).0, (dealt es s).1)) g
            ∙ sym (
                ap (λ u. (keep decoder processor false m [] ++ (dealt es u).0, (dealt es u).1))
                  stored))
          (c ∙ k ∙ sym (append-nil (queue.committed w.reader))) (rest v pends))

  -- Over a reader that holds the messages and the errors of `es` and then cancels the context, where
  -- no message makes the decoder panic and with more rounds than `es` has events, the loop returns
  -- nil; the store is then what the messages make of it one after the other, and the messages it has
  -- committed are those that were empty or were processed without an error, in order.
  pub run_lem :
      (es : List Event) (rounds : ℕ) (w : World R S)
      → queue.pending w.reader ≡ es
      → NoPanic decoder processor es
      → length es < rounds
      → Ended es w (loop rounds w)
  unfolding deal_all is_same
  run_lem es zero w waiting calm enough = absurd (omega arith)
  run_lem [] (suc rounds) w waiting calm enough =
      let (f, c, k) = queue.fetch_end ctx w.reader waiting in
      let e = run-end reader decoder processor render consume_func ctx rounds w f (rw c) in
      subst (Ended [] w) (sym e) (refl, (refl, k ∙ sym (append-nil (queue.committed w.reader))))
  run_lem (hiccup e ∷ es) (suc rounds) w waiting calm enough =
      let (f, c, p, k) = queue.fetch_hiccup ctx w.reader e es waiting in
      let step = run-hiccup reader decoder processor render consume_func ctx rounds w f c in
      subst (Ended (hiccup e ∷ es) w) (sym step) (
        Ended-step es (hiccup e ∷ es) w (noted e (moved w)) (loop rounds (noted e (moved w))) []
          refl (k ∙ sym (append-nil (queue.committed w.reader)))
          (run_lem es rounds (noted e (moved w)) p calm (omega arith)))
  run_lem (delivered m ∷ es) (suc rounds) w waiting calm enough =
      let (f, p, k) = queue.fetch_delivered ctx w.reader m es waiting in
      let taken = consume-deal reader queue decoder processor inner m (moved w) calm.0 in
      let agrees =
        subst
          (λ t.
            Agrees reader queue decoder processor inner m (moved w) t
              (deal decoder processor inner m w.store))
          (sym (cf-consume m (moved w))) taken in
      run-delivered rounds m es w (deal decoder processor inner m w.store) refl f k agrees
        (λ v q. run_lem es rounds v (q ∙ p) calm.1 (omega arith))
