-- ===== src/Consume/Run.antt =====
-- `Run` of internal/consume/consumer.go: what is relied on of a reader, and a description of the
-- dealing with messages that has no reader, no rounds and no log.
pub mod Rounds
pub mod Total
pub mod Next
pub mod Panic
pub mod InOrder
pub mod Lost
use go_api_demo.Prelude.{
  ℕ, String, ◌≡◌, ◌≢◌, Bool, true, false, Option, none, some, List, [], ◌∷◌, ◌++◌, if◌then◌else◌,
  ◌<>◌,
}
use go_api_demo.Error.{Error, canceled, is_same, Outcome, returned, panicked}
use go_api_demo.Context.{Context}
use go_api_demo.Consume.{Message, KafkaReader, Decoder, Processor}

-- What a fetch finds: a message, or an error of the reader's that is not the context's.
pub data Event : Type 0 where
  delivered : Message → Event
  hiccup : Error → Event

-- What the loop relies on of the reader. It fetches what is pending, in order, and then waits until
-- the context is cancelled; a commit of a message succeeds and changes nothing else.
pub record IsQueue {R : Type 0} (reader : KafkaReader R) : Type 0 where
  pub pending : R → List Event
  pub committed : R → List Message
  pub fetch_delivered :
      (ctx : Context) (r : R) (m : Message) (es : List Event)
      → pending r ≡ delivered m ∷ es
      → ((reader.fetch_message ctx r).0 ≡ (m, none))
        × (pending (reader.fetch_message ctx r).1 ≡ es)
        × (committed (reader.fetch_message ctx r).1 ≡ committed r)
  pub fetch_hiccup :
      (ctx : Context) (r : R) (e : Error) (es : List Event)
      → pending r ≡ hiccup e ∷ es
      → ((reader.fetch_message ctx r).0.1 ≡ some e)
        × (is_same e (reader.ctx_err (reader.fetch_message ctx r).1) ≡ false)
        × (pending (reader.fetch_message ctx r).1 ≡ es)
        × (committed (reader.fetch_message ctx r).1 ≡ committed r)
  pub fetch_end :
      (ctx : Context) (r : R)
      → pending r ≡ []
      → ((reader.fetch_message ctx r).0.1 ≡ some canceled)
        × (reader.ctx_err (reader.fetch_message ctx r).1 ≡ some canceled)
        × (committed (reader.fetch_message ctx r).1 ≡ committed r)
  pub commit_ok :
      (ctx : Context) (r : R) (m : Message)
      → ((reader.commit_messages ctx (m ∷ []) r).0 ≡ none)
        × (pending (reader.commit_messages ctx (m ∷ []) r).1 ≡ pending r)
        × (committed (reader.commit_messages ctx (m ∷ []) r).1 ≡ committed r ++ m ∷ [])

module _ {S Data : Type 0} (decoder : Decoder Data) (processor : Processor S Data) where
  abbrev pub finish : Option Error × S → Bool × S
  finish (none, s) = (true, s)
  finish (some _, s) = (false, s)

  abbrev pub deal_decoded : Context → Outcome (Data × Option Error) → S → Bool × S
  deal_decoded ctx (panicked text) s = (false, s)
  deal_decoded ctx (returned (n_msg, some e)) s = (false, s)
  deal_decoded ctx (returned (n_msg, none)) s = finish (processor.process ctx n_msg s)

  abbrev pub deal_value : Context → Option (List ℕ) → S → Bool × S
  deal_value ctx none s = (true, s)
  deal_value ctx (some value) s = deal_decoded ctx (decoder value) s

  -- Whether a message is dealt with, and the store after it: no reader and no log.
  unfoldable pub deal : Context → Message → S → Bool × S
  deal ctx m s = deal_value ctx m.value s

  abbrev pub keep : Bool → Message → List Message → List Message
  keep true m ms = m ∷ ms
  keep false m ms = ms

  -- The messages that are dealt with, and the store after all of them.
  unfoldable pub deal_all : Context → List Event → S → List Message × S
  deal_all ctx [] s = ([], s)
  deal_all ctx (hiccup e ∷ es) s = deal_all ctx es s
  deal_all ctx (delivered m ∷ es) s =
      let (good, s') = deal ctx m s in let (ms, s'') = deal_all ctx es s' in (keep good m ms, s'')

  -- No message makes the decoder panic.
  abbrev pub NoPanic : List Event → Type 0
  NoPanic [] = Unit
  NoPanic (hiccup e ∷ es) = NoPanic es
  NoPanic (delivered m ∷ es) =
      ((value : List ℕ) (text : String) → m.value ≡ some value → decoder value ≢ panicked text)
      × NoPanic es
