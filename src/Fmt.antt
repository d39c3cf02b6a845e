-- ===== src/Fmt.antt =====
-- package fmt: how `%v` prints a map of texts, with its keys in order.
use Prim.Native.Nat.{Ordering}
use Prim.Native.String
use go_api_demo.Prelude.{String, ◌<>◌, Bool, true, false, [], ◌∷◌, if◌then◌else◌}
use go_api_demo.Prelude.Dict.{Dict}

abbrev before : String → String → Bool
before a b = elim (String.compare a b) [ Ordering.gt ↦ false | _ ↦ true ]

place : String → String → Dict String → Dict String
place k v [] = (k, v) ∷ []
place k v ((j, w) ∷ d) = if before k j then (k, v) ∷ (j, w) ∷ d else (j, w) ∷ place k v d

sorted : Dict String → Dict String
sorted [] = []
sorted ((k, v) ∷ d) = place k v (sorted d)

entries : Dict String → String
entries [] = ""
entries ((k, v) ∷ []) = k <> ":" <> v
entries ((k, v) ∷ e ∷ d) = k <> ":" <> v <> " " <> entries (e ∷ d)

-- fmt.Sprintf("%v", m)
unfoldable pub show_map : Dict String → String
unfolding place sorted entries
show_map d = "map[" <> entries (sorted d) <> "]"
