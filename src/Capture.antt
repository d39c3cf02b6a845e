-- ===== src/Capture.antt =====
-- Change data capture: internal/consume/consumer.go with the processor of
-- internal/user/consume/processor.go over a storage. A storage is an interface here, which the storage
-- in memory and the cache in Redis fill.
pub mod Stores
pub mod Laws
pub mod Again
pub mod Partitions
pub mod Scan
pub mod Listing
pub mod Created
pub mod Index
pub mod Hits
pub mod Searched
use go_api_demo.Prelude.{String, ◌≡◌, ◌==◌, Option, none, some, List, [], ◌∷◌, map, if◌then◌else◌}
use go_api_demo.Error.{Error, returned}
use go_api_demo.Context.{Context}
use go_api_demo.User.{User, Creator}
use go_api_demo.Consume.{Message, Decoder, Processor}
use go_api_demo.Consume.Run.{Event, delivered, hiccup}
use go_api_demo.Processor.{Usr, BeforeAfter, process}
use go_api_demo.Processor.Laws.{SameRow, no_row}

-- What a storage is to its readers: the user that each id has. Storing a user succeeds, gives its id
-- the user, and leaves the other ids as they are.
pub record IsUserStore {S : Type 0} (creator : Creator S) (Storable : User → Type 0) : Type 0 where
  pub view : S → String → Option User
  pub create_ok :
      (ctx : Context) (u : User) (s : S) → Storable u → (creator.create ctx (u ∷ []) s).0 ≡ none
  pub create_view :
      (ctx : Context) (u : User) (s : S) (id : String)
      → Storable u
      → view (creator.create ctx (u ∷ []) s).1 id ≡ (if u.id == id then some u else view s id)

module _ {S Data : Type 0} (decode : Data → BeforeAfter × Option Error) (decoder : Decoder Data)
    (creator : Creator S) where
  -- NewProcessor
  abbrev pub processor : Processor S Data
  processor = record { process = process decode creator }

  -- The message reports that the row was added to the table.
  abbrev pub Added : Message → Usr → Type 0
  Added m row =
      (value : List _) × (n_msg : Data) × (bf : BeforeAfter) × (m.value ≡ some value)
      × (decoder value ≡ returned (n_msg, none))
      × (decode n_msg ≡ (bf, none))
      × SameRow bf.before.value no_row
      × (bf.after.value ≡ row)
      × (¬ SameRow row no_row)

  -- The messages among the events report that the rows were added, in order.
  abbrev pub Reports : List Event → List Usr → Type 0
  Reports [] [] = Unit
  Reports [] (row ∷ rows) = ⊥
  Reports (hiccup e ∷ es) rows = Reports es rows
  Reports (delivered m ∷ es) [] = ⊥
  Reports (delivered m ∷ es) (row ∷ rows) = Added m row × Reports es rows

-- The messages among the events.
abbrev pub messages : List Event → List Message
messages [] = []
messages (hiccup e ∷ es) = messages es
messages (delivered m ∷ es) = m ∷ messages es
