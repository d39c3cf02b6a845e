-- ===== src/Capture/Scan.antt =====
-- `Read` of internal/storage/redis/user.go on all keys of users, which a SCAN finds.
use mathlib.Core.List.{
  Mem, Mem-prop, mem-map_of_mem, exists_of_mem-map, mem-cons_self, mem-cons_of_mem,
}
use mathlib.Core.Logic.{∥∥₁_elim}
use mathlib.Core.Option
use mathlib.Core.Path.{subst}
use go_api_demo.Prelude.{
  String, ◌≡◌, ◌≢◌, ◌↔◌, ◌==◌, eq_iff, refl, ap, sym, ◌∙◌, Bool, true, false, Option, Option-cases,
  none, some, List, [], ◌∷◌, map, All, inl, inr, if◌then◌else◌, arith, last_match,
}
use go_api_demo.Prelude.Dict.{lookup}
use go_api_demo.Error.{Error}
use go_api_demo.Context.{Context}
use go_api_demo.Json.{Json, Document, document}
use go_api_demo.Time.JsonText.{TimeText}
use go_api_demo.User.{User, User-set}
use go_api_demo.Storage.Redis.{Cache, user_key, unmarshal, read_values, read_keys, read}
use go_api_demo.Storage.Redis
use go_api_demo.Storage.Redis.Laws.{IsStore, KeepsTime, found, json, create-ok, unmarshal-json}
use go_api_demo.Storage.Memory.Laws.{stored}
use go_api_demo.Capture.{IsUserStore}
use go_api_demo.Capture.Stores.{cached, decoded}

-- What is documented of a whole SCAN that nothing disturbs: the keys of the pattern, each at least
-- once.
pub record Scans {C : Type 0} (cache : Cache C) (store : IsStore cache) : Type 0 where
  pub scan_all :
      (ctx : Context) (c : C)
      → (ids : List String) × (cache.scan ctx "user:*" c ≡ ((map user_key ids, none), c))
        × ((id : String) → Mem id ids ↔ (lookup (user_key id) (store.entries c) ≢ none))

-- Each id has its user.
abbrev pub Aligned : (String → Option User) → List String → List User → Type 0
Aligned f ids us = map f ids ≡ map some us

pub Aligned-mem :
    (f : String → Option User) (ids : List String) (us : List User)
    → Aligned f ids us
    → (id : String) (u : User) → Mem id ids
    → f id ≡ some u
    → Mem u us
Aligned-mem f ids us a id u m e =
    let h : Mem (some u) (map some us) =
      subst (λ l. Mem (some u) l) a (subst (λ o. Mem o (map f ids)) e (mem-map_of_mem f m)) in
    ∥∥₁_elim (exists_of_mem-map h) Mem-prop
      (λ t. (let same : t.0 ≡ u = cc in subst (λ v. Mem v us) same t.1))

mem-Aligned :
    (f : String → Option User)
    → ((id : String) (u : User) → f id ≡ some u → u.id ≡ id)
    → (ids : List String) (us : List User) → Aligned f ids us
    → (u : User) → Mem u us
    → f u.id ≡ some u
mem-Aligned f keyed ids us a u m =
    let h : Mem (some u) (map f ids) =
      subst (λ l. Mem (some u) l) (sym a) (mem-map_of_mem some m) in
    ∥∥₁_elim (exists_of_mem-map h) (Option.is_set User-set _ _) (λ t. ap f (keyed t.0 u t.2) ∙ t.2)

-- A user that is stored has the id that it is stored under.
pub last-keyed :
    (us : List User) (id : String) (u : User)
    → last_match (λ (v : User). v.id == id) us ≡ some u
    → u.id ≡ id
last-keyed [] id u e = absurd cc
last-keyed (v ∷ us) id u e = elim (Option-cases (last_match (λ (v : User). v.id == id) us)) [
  | inr (w, f) ↦ last-keyed us id u (ground arith)
  | inl f ↦ ground (arith, eq_iff v.id id)
]

abbrev pub empty : String → Option User
empty id = none

pub stored-keyed :
    (us : List User) (id : String) (u : User) → stored us empty id ≡ some u → u.id ≡ id
stored-keyed us id u e = elim (Option-cases (last_match (λ (v : User). v.id == id) us)) [
  | inr (w, f) ↦ last-keyed us id u (ground arith)
  | inl f ↦ absurd (ground arith)
]

module _ (times : TimeText) {C : Type 0} (cache : Cache C) (store : IsStore cache) where
  -- What a key's value decodes to, error or not.
  abbrev pub raw : Option Json → Option User
  raw o = Option.map (λ v. (unmarshal times (document v)).0) o

  -- A value that is there decodes to the user, without an error.
  decoded-raw :
      (o : Option Json) (u : User)
      → decoded times cache store o ≡ some u
      → (v : Json) × (o ≡ some v) × (unmarshal times (document v) ≡ (u, none))
  decoded-raw none u e = absurd cc
  decoded-raw (some v) u e = elim (Option-cases (unmarshal times (document v)).1) [
    | inl fine ↦ (v, refl, ground arith)
    | inr (err, bad) ↦ absurd (ground arith)
  ]

  abbrev pub value_of : C → String → Option Json
  value_of c id = lookup (user_key id) (store.entries c)

  pub raw_if :
      (u : User)
      → KeepsTime times u
      → (b : Bool) (o : Option Json)
      → raw (elim (if b then some u else none) [ none ↦ o | some v ↦ some (json times v) ])
        ≡ (if b then some u else raw o)
  raw_if u keeps true o = ap (λ (r : User × Option Error). some r.0) (unmarshal-json times u keeps)
  raw_if u keeps false o = refl

  -- The cache as a store whose view also has what does not decode: nothing that is there is hidden.
  unfoldable pub raw-IsUserStore : IsUserStore (Redis.creator times cache) (KeepsTime times)
  raw-IsUserStore = record {
    view = λ c id. raw (value_of c id);
    create_ok = λ ctx u c keeps. (create-ok times cache store ctx (u ∷ []) c (keeps, tt)).0;
    create_view = λ ctx u c id keeps.
        ap raw ((create-ok times cache store ctx (u ∷ []) c (keeps, tt)).1 id)
        ∙ raw_if u keeps (u.id == id) (value_of c id);
  }

  read_values-some :
      (v : Json) (w : User) (vs : List (Option Document))
      → unmarshal times (document v) ≡ (w, none)
      → read_values times (some (document v) ∷ vs)
        ≡ (w ∷ (read_values times vs).0, (read_values times vs).1)
  unfolding read_values
  read_values-some v w vs good =
      rw (ap (λ r. r.1) good, read_values)
        (ap
          (λ (r : User × Option Error). (r.0 ∷ (read_values times vs).0, (read_values times vs).1))
          good)

  module _ (c : C) (f : String → Option User)
      (views : (id : String) → cached times cache store c id ≡ f id)
      (raws : (id : String) → raw (value_of c id) ≡ f id) where
    -- What is read of a value that is there.
    value-decodes :
        (id : String)
        → value_of c id ≢ none
        → (v : Json) × (w : User) × (value_of c id ≡ some v)
          × (unmarshal times (document v) ≡ (w, none))
          × (f id ≡ some w)
    value-decodes id there = elim (Option-cases (value_of c id)) [
      | inl gone ↦ absurd (there gone)
      | inr (v, e) ↦
          let w = (unmarshal times (document v)).0 in
          let is_w : f id ≡ some w = sym (raws id) ∙ ap raw e in
          let (v', e', good) = decoded-raw (value_of c id) w (views id ∙ is_w) in
          (v', w, e', good, is_w)
    ]

    abbrev values_of : List String → List (Option Document)
    values_of ids = map (λ k. found k (store.entries c)) (map user_key ids)

    read_values-Aligned :
        (ids : List String)
        → All (λ id. value_of c id ≢ none) ids
        → (us : List User) × Aligned f ids us × (read_values times (values_of ids) ≡ (us, none))
    unfolding read_values
    read_values-Aligned [] all = ([], refl, refl)
    read_values-Aligned (id ∷ ids) (there, all) =
        let (v, w, e, good, is_w) = value-decodes id there in
        let (us, aligned, reads) = read_values-Aligned ids all in
        (
          w ∷ us,
          ap (λ o. o ∷ map f ids) is_w ∙ ap (λ l. some w ∷ l) aligned,
          ap
                (λ o.
                  read_values times
                    ((elim o [ none ↦ none | some x ↦ some (document x) ]) ∷ values_of ids))
                e
              ∙ read_values-some v w (values_of ids) good
              ∙ ap (λ (r : List User × Option Error). (w ∷ r.0, r.1)) reads,
        )

    read-keys :
        (ctx : Context) (ids : List String)
        → read_keys times cache ctx (map user_key ids) c ≡ (read_values times (values_of ids), c)
    unfolding read_keys read_values
    read-keys ctx [] = refl
    read-keys ctx (id ∷ ids) =
        ap (λ r. (read_values times r.0.0, r.1)) (store.mget_gets ctx (map user_key (id ∷ ids)) c)

    module _ (scans : Scans cache store) where
      every_value :
          (ids : List String)
          → ((id : String) → Mem id ids → value_of c id ≢ none)
          → All (λ id. value_of c id ≢ none) ids
      every_value [] there = tt
      every_value (id ∷ ids) there =
          (there id mem-cons_self, every_value ids (λ j m. there j (mem-cons_of_mem id m)))

      -- `Read` returns no error, changes nothing, and returns exactly the users that the ids have.
      pub read-mem :
          ((id : String) (u : User) → f id ≡ some u → u.id ≡ id)
          → (ctx : Context)
          → (us : List User) × (read times cache ctx c ≡ ((us, none), c))
            × ((u : User) → Mem u us ↔ (f u.id ≡ some u))
      unfolding read
      read-mem keyed ctx =
          let (ids, scanned, is_there) = scans.scan_all ctx c in
          let (us, aligned, reads) =
            read_values-Aligned ids (every_value ids (λ id m. (is_there id).0 m)) in
          (
            us,
            rw (ap (λ r. r.0.1) scanned, read)
                (ap (λ r. read_keys times cache ctx r.0.0 r.1) scanned
                  ∙ read-keys ctx ids
                  ∙ ap (λ r. (r, c)) reads),
            λ u. (
              λ m. mem-Aligned f keyed ids us aligned u m,
              λ e.
                  Aligned-mem f ids us aligned u.id u
                    ((is_there u.id).1
                      (λ gone. (let no = sym e ∙ sym (raws u.id) ∙ ap raw gone in cc)))
                    e,
            ),
          )
