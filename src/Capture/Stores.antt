-- ===== src/Capture/Stores.antt =====
-- The storage in memory and the cache in Redis as user stores.
use go_api_demo.Prelude.{
  String, ◌≡◌, ◌==◌, refl, ap, ◌∙◌, Bool, true, false, Option, none, some, [], ◌∷◌, if◌then◌else◌,
}
use go_api_demo.Error.{Error}
use go_api_demo.User.{User}
use go_api_demo.Prelude.Dict.{lookup}
use go_api_demo.Json.{Json, document}
use go_api_demo.Time.JsonText.{TimeText}
use go_api_demo.Storage.Memory
use go_api_demo.Storage.Memory.Laws.{view, view-create}
use go_api_demo.Storage.Redis.{Cache, user_key, unmarshal}
use go_api_demo.Storage.Redis
use go_api_demo.Storage.Redis.Laws.{IsStore, KeepsTime, json, create-ok, unmarshal-json}
use go_api_demo.Capture.{IsUserStore}

over_if :
    (b : Bool) (u : User) (o : Option User)
    → (elim (if b then some u else none) [ none ↦ o | some v ↦ some v ]) ≡ (if b then some u else o)
over_if true u o = refl
over_if false u o = refl

pub memory-IsUserStore : IsUserStore Memory.creator (λ u. Unit {0})
unfolding Memory.create
memory-IsUserStore = record {
  view = view;
  create_ok = λ ctx u s t. refl;
  create_view = λ ctx u s id t. view-create ctx (u ∷ []) s id ∙ over_if (u.id == id) u (view s id);
}

module _ (times : TimeText) {C : Type 0} (cache : Cache C) (store : IsStore cache) where
  abbrev pub decoded : Option Json → Option User
  decoded o = elim o [
    | none ↦ none
    | some v ↦ elim (unmarshal times (document v)).1 [
      | none ↦ some (unmarshal times (document v)).0
      | some e ↦ none
    ]
  ]

  abbrev pub cached : C → String → Option User
  cached c id = decoded (lookup (user_key id) (store.entries c))

  decoded-json : (u : User) → KeepsTime times u → decoded (some (json times u)) ≡ some u
  decoded-json u keeps =
      ap (λ (r : User × Option Error). elim r.1 [ none ↦ some r.0 | some e ↦ none ])
        (unmarshal-json times u keeps)

  pub decoded_if :
      (u : User)
      → KeepsTime times u
      → (b : Bool) (o : Option Json)
      → decoded (elim (if b then some u else none) [ none ↦ o | some v ↦ some (json times v) ])
        ≡ (if b then some u else decoded o)
  decoded_if u keeps true o = decoded-json u keeps
  decoded_if u keeps false o = refl

  unfoldable pub redis-IsUserStore : IsUserStore (Redis.creator times cache) (KeepsTime times)
  redis-IsUserStore = record {
    view = cached;
    create_ok = λ ctx u c keeps. (create-ok times cache store ctx (u ∷ []) c (keeps, tt)).0;
    create_view = λ ctx u c id keeps.
        ap decoded ((create-ok times cache store ctx (u ∷ []) c (keeps, tt)).1 id)
        ∙ decoded_if u keeps (u.id == id) (lookup (user_key id) (store.entries c));
  }
