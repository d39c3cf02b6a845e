-- ===== src/Capture/Partitions/Keyed.antt =====
-- Rows in partitions: what is stored with the rows that are left, before and after a round.
use mathlib.Core.Path.{subst}
use go_api_demo.Prelude.{
  ℕ, suc, ◌≤◌, String, ◌≡◌, ◌≢◌, ◌==◌, inl, inr, refl, ap, sym, ◌∙◌, Bool-cases, Option, none, some,
  List, [], ◌∷◌, ◌++◌, map, All, eq_iff, if◌then◌else◌, arith, last_match,
}
use go_api_demo.User.{User}
use go_api_demo.Processor.{Usr}
use go_api_demo.Processor.Laws.{user_of}
use go_api_demo.Storage.Memory.Laws.{stored}
use go_api_demo.Capture.Laws.{over_last, stored-cons}
use go_api_demo.Capture.Partitions.Round.{put, Takes}

-- The users of the rows that are left in all partitions.
abbrev pub users_of : List (List Usr) → List User
users_of [] = []
users_of (rows ∷ more) = map user_of rows ++ users_of more

module _ (partition : String → ℕ) where
  -- The rows of the i-th list, from `i` on, are those of the i-th partition.
  abbrev pub Keyed : ℕ → List (List Usr) → Type 0
  Keyed i [] = Unit
  Keyed i (rows ∷ more) = All (λ (row : Usr). partition row.id ≡ i) rows × Keyed (suc i) more

  -- Only users of partitions from `i` on.
  abbrev pub From : ℕ → Option User → Type 0
  From i none = Unit
  From i (some u) = i ≤ partition u.id

  none_elsewhere :
      (i : ℕ) (id : String)
      → suc i ≤ partition id
      → (rows : List Usr) → All (λ (row : Usr). partition row.id ≡ i) rows
      → last_match (λ (v : User). v.id == id) (map user_of rows) ≡ none
  none_elsewhere i id above [] h = refl
  none_elsewhere i id above (row ∷ rows) h =
      let differ : row.id ≢ id = λ e. omega (arith, h.0, ap partition e) in
      ground (arith, none_elsewhere i id above rows h.1, eq_iff row.id id)

  stored-none :
      (us : List User) (v : String → Option User) (id : String)
      → last_match (λ (v : User). v.id == id) us ≡ none
      → stored us v id ≡ v id
  stored-none us v id e = ap (λ o. elim o [ none ↦ v id | some w ↦ some w ]) e

  -- Storing a user of another partition can be done first.
  pub put-stored :
      (i : ℕ) (o : Option User)
      → From (suc i) o
      → (rows : List Usr) → All (λ (row : Usr). partition row.id ≡ i) rows
      → (v : String → Option User) (id : String)
      → stored (map user_of rows) (put o v) id ≡ put o (stored (map user_of rows) v) id
  put-stored i none above rows h v id = refl
  put-stored i (some u) above rows h v id = elim (Bool-cases (u.id == id)) [
    | inl e ↦
        let same : u.id ≡ id = (eq_iff u.id id).0 e in
        let gone = none_elsewhere i id (omega (arith, above, ap partition same)) rows h in
        stored-none (map user_of rows) (put (some u) v) id gone
        ∙ ap (λ b. if b then some u else v id) e
        ∙ sym (ap (λ b. if b then some u else stored (map user_of rows) v id) e)
    | inr e ↦
        ap (over_last id (map user_of rows)) (ap (λ b. if b then some u else v id) e)
        ∙ sym (ap (λ b. if b then some u else stored (map user_of rows) v id) e)
  ]

  pub From-weaken : (i : ℕ) (o : Option User) → From (suc i) o → From i o
  From-weaken i none h = tt
  From-weaken i (some u) h = omega (arith, h)

  -- Before and after a round, what is stored with the rows that are left is the same.
  pub Takes-stored :
      (i : ℕ) (o : Option User) (rows left : List Usr)
      → Takes o rows left
      → All (λ (row : Usr). partition row.id ≡ i) rows
      → All (λ (row : Usr). partition row.id ≡ i) left
        × From i o
        × ((more : List User) (v : String → Option User) (id : String)
            → stored (map user_of left ++ more) (put o v) id
              ≡ stored (map user_of rows ++ more) v id)
  Takes-stored i none rows left same keyed = (
    subst (λ l. All (λ (row : Usr). partition row.id ≡ i) l) same keyed,
    tt,
    λ more v id. ap (λ l. stored (map user_of l ++ more) v id) (sym same),
  )
  Takes-stored i (some u) rows left (row, is_rows, is_u) keyed =
      let all = subst (λ l. All (λ (row : Usr). partition row.id ≡ i) l) is_rows keyed in
      (
        all.1,
        omega (arith, all.0, ap (λ (v : User). partition v.id) is_u),
        λ more v id.
            stored-cons u (map user_of left ++ more) v id
            ∙ ap (λ w. stored (w ∷ map user_of left ++ more) v id) is_u
            ∙ ap (λ l. stored (map user_of l ++ more) v id) (sym is_rows),
      )
