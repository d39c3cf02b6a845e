-- ===== src/Effect/Fallible.antt =====
-- Functions that return a value or an error, and may panic: `if err != nil { return nil, err }` is
-- their bind.
use go_api_demo.Prelude.{◌≡◌, refl, ap, ◌∙◌, Option, none, some, ◌⊎◌, inl, inr}
use go_api_demo.Error.{Error, Outcome, returned}
use go_api_demo.Effect.{Effect, go_on, Succeeds}

abbrev pub Fallible : Type 0 → Type 0 → Type 0
Fallible W A = Effect W (A ⊎ Error)

abbrev pub unless {ℓ} :
    {W : Type ℓ} {A B : Type 0}
    → (A → W → Outcome (B ⊎ Error) × W)
    → A ⊎ Error
    → W
    → Outcome (B ⊎ Error) × W
unless f (inl a) w = f a w
unless f (inr e) w = (returned (inr e), w)

infixl 5 ◌>>=◌
abbrev pub ◌>>=◌ : {W A B : Type 0} → Fallible W A → (A → Fallible W B) → Fallible W B
◌>>=◌ m f w = go_on (unless f) (m w)

abbrev pub pure : {W A : Type 0} → A → Fallible W A
pure a w = (returned (inl a), w)

abbrev pub fail : {W A : Type 0} → Error → Fallible W A
fail e w = (returned (inr e), w)

abbrev pub unit_or : Option Error → Unit {0} ⊎ Error
unit_or none = inl tt
unit_or (some e) = inr e

-- The code returns no error, and a value that satisfies the predicate.
abbrev pub Yields : {W A : Type 0} → Fallible W A → (A → Type 0) → Type 0
Yields {A} m P = Succeeds m (λ r. (a : A) × (r ≡ inl a) × P a)

pub Yields-pure : {W A : Type 0} (a : A) (P : A → Type 0) → P a → Yields {W = W} (pure a) P
Yields-pure a P p w = (inl a, w, refl, (a, refl, p))

module _ {W A B : Type 0} where
  pub Yields-bind :
      (m : Fallible W A) (P : A → Type 0)
      → Yields m P
      → (f : A → Fallible W B) (Q : B → Type 0) → ((a : A) → P a → Yields (f a) Q)
      → Yields (m >>= f) Q
  Yields-bind m P fine f Q next w =
      let (r, v, e, (a, is_a, p)) = fine w in
      let (b, u, d, q) = next a p v in
      (b, u, ap (go_on (unless f)) e ∙ ap (λ s. unless f s v) is_a ∙ d, q)
