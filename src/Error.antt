-- ===== src/Error.antt =====
-- Go's `error` values: the sentinels that the code compares with, errors made from a text, and the
-- ways in which the code wraps one error in another. A `nil` error is `none` of `Option Error`.
use go_api_demo.Prelude.{
  String, ◌<>◌, Bool, true, false, ◌||◌, Option, none, some, ◌≡◌, refl, ◌⊎◌, inl, inr,
}

pub data Error : Type 0 where
  -- context.Canceled, context.DeadlineExceeded and http.ErrServerClosed
  canceled deadline_exceeded server_closed : Error
  -- made outside the repository: its text, and whether its chain holds context.Canceled
  foreign : String → Bool → Error
  -- errors.New(text), errors.Errorf("%s", err), fmt.Errorf with no %w
  made : String → Error
  -- fmt.Errorf("prefix: %w", err), errors.Wrap(err, "prefix")
  wrapped : String → Error → Error
  -- fmt.Errorf("%w, %s", err, text)
  followed : Error → String → Error
  -- errors.Join of one or two errors that are not nil
  join_one : Error → Error
  join_two : Error → Error → Error

-- err.Error()
unfoldable pub message : Error → String
message canceled = "context canceled"
message deadline_exceeded = "context deadline exceeded"
message server_closed = "http: Server closed"
message (foreign text _) = text
message (made text) = text
message (wrapped prefix e) = prefix <> ": " <> message e
message (followed e text) = message e <> ", " <> text
message (join_one e) = message e
message (join_two d e) = message d <> "\n" <> message e

-- errors.Is(err, context.Canceled)
unfoldable pub is_canceled : Error → Bool
is_canceled canceled = true
is_canceled (foreign _ b) = b
is_canceled (wrapped _ e) = is_canceled e
is_canceled (followed e _) = is_canceled e
is_canceled (join_one e) = is_canceled e
is_canceled (join_two d e) = is_canceled d || is_canceled e
is_canceled _ = false

-- errors.Join(a, b)
unfoldable pub join : Option Error → Option Error → Option Error
join none none = none
join (some d) none = some (join_one d)
join none (some e) = some (join_one e)
join (some d) (some e) = some (join_two d e)

-- `err == ctx.Err()` for an `err` that is not nil: a context's error is nil or one of two sentinels.
unfoldable pub is_same : Error → Option Error → Bool
is_same canceled (some canceled) = true
is_same deadline_exceeded (some deadline_exceeded) = true
is_same _ _ = false

-- The panic of a call on nil.
abbrev pub nil_dereference : String
nil_dereference = "runtime error: invalid memory address or nil pointer dereference"

-- A call that may panic.
pub data Outcome {ℓ} (A : Type ℓ) : Type ℓ where
  returned : A → Outcome A
  panicked : String → Outcome A

pub Outcome-cases {ℓ} :
    {A : Type ℓ} (o : Outcome A)
    → ((a : A) × (o ≡ returned a)) ⊎ ((text : String) × (o ≡ panicked text))
Outcome-cases (returned a) = inl (a, refl)
Outcome-cases (panicked text) = inr (text, refl)

infixl 5 ◌>>=◌
abbrev pub ◌>>=◌ {ℓ} : {A B : Type ℓ} → Outcome A → (A → Outcome B) → Outcome B
returned a >>= f = f a
panicked text >>= f = panicked text
