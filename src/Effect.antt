-- ===== src/Effect.antt =====
-- Code that changes a state and may panic, and what it means that it does not panic. The definitions
-- of Consume.Consumers and Bootstrap are written in it.
pub mod Fallible
use go_api_demo.Prelude.{◌≡◌, refl, ap, ◌∙◌, Option, none, some}
use go_api_demo.Error.{Outcome, returned, panicked}

abbrev pub Effect {ℓ} : Type ℓ → Type ℓ → Type ℓ
Effect W A = W → Outcome A × W

abbrev pub go_on {ℓ} : {W A B : Type ℓ} → (A → Effect W B) → Outcome A × W → Outcome B × W
go_on f (returned a, w) = f a w
go_on f (panicked text, w) = (panicked text, w)

infixl 5 ◌>>=◌
abbrev pub ◌>>=◌ {ℓ} : {W A B : Type ℓ} → Effect W A → (A → Effect W B) → Effect W B
◌>>=◌ m f w = go_on f (m w)

abbrev pub pure {ℓ} : {W A : Type ℓ} → A → Effect W A
pure a w = (returned a, w)

-- From every state, the code returns, and what it returns satisfies the predicate.
abbrev pub Succeeds {ℓ} : {W A : Type ℓ} → Effect W A → (A → Type ℓ) → Type ℓ
Succeeds {W} {A} m P = (w : W) → (a : A) × (v : W) × (m w ≡ (returned a, v)) × P a

pub Succeeds-pure {ℓ} : {W A : Type ℓ} (a : A) (P : A → Type ℓ) → P a → Succeeds {W = W} (pure a) P
Succeeds-pure a P p w = (a, w, refl, p)

module _ {ℓ} {W A B : Type ℓ} where
  pub Succeeds-bind :
      (m : Effect W A) (P : A → Type ℓ)
      → Succeeds m P
      → (f : A → Effect W B) (Q : B → Type ℓ) → ((a : A) → P a → Succeeds (f a) Q)
      → Succeeds (m >>= f) Q
  Succeeds-bind m P fine f Q next w =
      let (a, v, e, p) = fine w in let (b, u, d, q) = next a p v in (b, u, ap (go_on f) e ∙ d, q)
