-- ===== src/Prelude/State.antt =====
-- Code that changes a state: from the state before it to its result and the state after it.
abbrev pub State {ℓ} : Type ℓ → Type ℓ → Type ℓ
State S A = S → A × S

infixl 5 ◌>>=◌ ◌>>◌
abbrev pub ◌>>=◌ {ℓ} : {S A B : Type ℓ} → State S A → (A → State S B) → State S B
◌>>=◌ m f s = let (a, t) = m s in f a t

abbrev pub ◌>>◌ {ℓ} : {S A B : Type ℓ} → State S A → State S B → State S B
m >> n = m >>= λ _. n

abbrev pub pure {ℓ} : {S A : Type ℓ} → A → State S A
pure a s = (a, s)
