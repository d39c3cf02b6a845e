-- ===== src/Processor/Laws.antt =====
-- On `Process` of internal/user/consume/processor.go, in terms of the rows of the table.
use mathlib.Core.Bool.{false≢true}
use go_api_demo.Prelude.{
  Bool-cases, Option-cases, ap, sym, ◌∙◌, ◌⊎◌, inl, inr, ◌≡◌, ◌≢◌, ◌↔◌, refl, true, Option, none,
  some, [], ◌∷◌, arith,
}
use go_api_demo.Error.{Error}
use go_api_demo.Context.{Context}
use go_api_demo.Int.{pos, pos_part}
use go_api_demo.User.{User, empty_user, user_eq, user_eq_iff, Creator}
use go_api_demo.Format.{msec_to_time}
use go_api_demo.Format.Laws.{msec_to_time-eq_iff}
use go_api_demo.Processor.{Usr, BeforeAfter, not_implemented, process}

-- The two rows agree; timestamps that are not positive count as one.
abbrev pub SameRow : Usr → Usr → Type 0
SameRow a b =
    (a.id ≡ b.id)
    × (a.first_name ≡ b.first_name)
    × (a.last_name ≡ b.last_name)
    × (pos_part a.created_at ≡ pos_part b.created_at)

-- The row of an event that has none: all its fields are unset, or set to what counts as unset.
abbrev pub no_row : Usr
no_row = record { id = ""; first_name = ""; last_name = ""; created_at = pos 0 }

abbrev pub user_of : Usr → User
user_of r = record {
  created_at = msec_to_time r.created_at;
  id = r.id;
  first_name = r.first_name;
  last_name = r.last_name;
}

user_of-eq_iff : (a b : Usr) → (user_of a ≡ user_of b) ↔ SameRow a b
user_of-eq_iff a b = ground (arith, msec_to_time-eq_iff a.created_at b.created_at)

user_of-no_row : user_of no_row ≡ empty_user
unfolding msec_to_time
user_of-no_row = refl

same_iff : (a b : Usr) → (user_eq (user_of a) (user_of b) ≡ true) ↔ SameRow a b
same_iff a b = ground (arith, user_eq_iff (user_of a) (user_of b), user_of-eq_iff a b)

absent_iff : (a : Usr) → (user_eq (user_of a) empty_user ≡ true) ↔ SameRow a no_row
absent_iff a = rw (← user_of-no_row) (same_iff a no_row)

module _ {S Data : Type 0} (decode : Data → BeforeAfter × Option Error) (creator : Creator S)
    (ctx : Context) (event : Data) (s : S) {bf : BeforeAfter}
    (decoded : decode event ≡ (bf, none)) where
  pub process-create :
      SameRow bf.before.value no_row
      → ¬ SameRow bf.after.value no_row
      → process decode creator ctx event s ≡ creator.create ctx (user_of bf.after.value ∷ []) s
  unfolding process
  process-create absent present =
      rw (decoded, process)
        (ground (arith, same_iff bf.before.value bf.after.value, absent_iff bf.before.value))

  pub process-unchanged :
      SameRow bf.before.value bf.after.value → process decode creator ctx event s ≡ (none, s)
  unfolding process
  process-unchanged same =
      rw (decoded, process) (ground (arith, same_iff bf.before.value bf.after.value))

  pub process-other :
      ¬ SameRow bf.before.value bf.after.value
      → ¬ SameRow bf.before.value no_row
      → process decode creator ctx event s ≡ (some not_implemented, s)
  unfolding process
  process-other differ present =
      rw (decoded, process)
        (ground (arith, same_iff bf.before.value bf.after.value, absent_iff bf.before.value))

module _ {S Data : Type 0} (decode : Data → BeforeAfter × Option Error) (creator : Creator S)
    (ctx : Context) (event : Data) (s : S) where
  same_row : (a b : Usr) → SameRow a b ⊎ (¬ SameRow a b)
  same_row a b = elim (Bool-cases (user_eq (user_of a) (user_of b))) [
    | inl e ↦ inl ((same_iff a b).0 e)
    | inr e ↦ inr (λ same. false≢true (sym e ∙ (same_iff a b).1 same))
  ]

  process-error :
      {bf : BeforeAfter} {e : Error}
      → decode event ≡ (bf, some e)
      → process decode creator ctx event s ≡ (some e, s)
  unfolding process
  process-error failed = rw (failed, process)

  -- What an event does: the four cases exclude one another.
  abbrev pub Effects : Type 0
  Effects =
      ((e : Error) × ((decode event).1 ≡ some e)
        × (process decode creator ctx event s ≡ (some e, s)))
      ⊎ ((bf : BeforeAfter) × (decode event ≡ (bf, none))
          × ((SameRow bf.before.value bf.after.value
                × (process decode creator ctx event s ≡ (none, s)))
              ⊎ ((¬ SameRow bf.before.value bf.after.value)
                  × ((SameRow bf.before.value no_row
                        × (process decode creator ctx event s
                            ≡ creator.create ctx (user_of bf.after.value ∷ []) s))
                      ⊎ ((¬ SameRow bf.before.value no_row)
                          × (process decode creator ctx event s ≡ (some not_implemented, s)))))))

  -- An event that does not decode changes nothing and returns the error. One that decodes changes
  -- nothing and returns nil if its two rows agree, makes one call of the store, with the user of the
  -- new row, if there was no row before, and otherwise, for an update or a deletion, changes nothing
  -- and returns the error "not implemented".
  pub process_lem : Effects
  process_lem = elim (Option-cases (decode event).1) [
    | inr (e, failed) ↦
        inl (e, failed, process-error (ap (λ (o : Option Error). ((decode event).0, o)) failed))
    | inl fine ↦
        let bf = (decode event).0 in
        let decoded : decode event ≡ (bf, none) = ap (λ (o : Option Error). (bf, o)) fine in
        inr (
          bf,
          decoded,
          elim (same_row bf.before.value bf.after.value) [
            | inl same ↦ inl (same, process-unchanged decode creator ctx event s decoded same)
            | inr differ ↦ elim (same_row bf.before.value no_row) [
              | inr present ↦ inr (
                differ,
                inr (present, process-other decode creator ctx event s decoded differ present),
              )
              | inl absent ↦
                  let present : ¬ SameRow bf.after.value no_row = λ gone. differ (ground arith) in
                  inr (
                    differ,
                    inl (absent, process-create decode creator ctx event s decoded absent present),
                  )
            ]
          ],
        )
  ]

  -- The store changes only by an event that decodes and adds a row, and only by the one call.
  pub process_sound :
      (process decode creator ctx event s).1 ≢ s
      → (bf : BeforeAfter) × (decode event ≡ (bf, none))
        × SameRow bf.before.value no_row
        × (¬ SameRow bf.after.value no_row)
        × (process decode creator ctx event s ≡ creator.create ctx (user_of bf.after.value ∷ []) s)
  process_sound changed = elim (Option-cases (decode event).1) [
    | inr (e, failed) ↦ absurd (
        changed (
          ap (λ (r : Option Error × S). r.1)
            (process-error (ap (λ (o : Option Error). ((decode event).0, o)) failed))))
    | inl fine ↦
        let bf = (decode event).0 in
        let decoded : decode event ≡ (bf, none) = ap (λ (o : Option Error). (bf, o)) fine in
        elim (same_row bf.before.value bf.after.value) [
          | inl same ↦ absurd (
              changed (
                ap (λ (r : Option Error × S). r.1)
                  (process-unchanged decode creator ctx event s decoded same)))
          | inr differ ↦ elim (same_row bf.before.value no_row) [
            | inr present ↦ absurd (
                changed (
                  ap (λ (r : Option Error × S). r.1)
                    (process-other decode creator ctx event s decoded differ present)))
            | inl absent ↦
                let present : ¬ SameRow bf.after.value no_row = λ gone. differ (ground arith) in
                (
                  bf,
                  decoded,
                  absent,
                  present,
                  process-create decode creator ctx event s decoded absent present,
                )
          ]
        ]
  ]
