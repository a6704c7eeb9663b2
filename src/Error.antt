-- ===== src/Error.antt =====
-- src-tauri/src/error.rs: the errors of the crate, and the `?` chains over `AppResult` as a monad.
use agent_db.Base.{ℕ, ◌≡◌, refl, ◌⊎◌, inl, inr, Bool, true, false, Option, none, some, String}

-- The errors of other crates are texts, but serde_json's, which is only told apart from the rest.
-- `not_found` carries the id that the source formats into its message.
pub data AppError : Type 0 where
  db mongo agent network safety parse keychain io : String → AppError
  serialization : AppError
  config : String → AppError
  not_found : ℕ → AppError
  blocked outcome_unknown : String → AppError

pub data Result {ℓ} (A : Type ℓ) : Type ℓ where
  ok : A → Result A
  err : AppError → Result A

-- `if test { return Err(e) }`.
abbrev pub reject_if : Bool → AppError → Result (Unit {0})
reject_if true e = err e
reject_if false e = ok tt

-- `option.ok_or(e)?`.
abbrev pub ok_or {ℓ} : {A : Type ℓ} → Option A → AppError → Result A
ok_or none e = err e
ok_or (some a) e = ok a

pub Result-cases {ℓ} :
    {A : Type ℓ} (r : Result A) → ((a : A) × (r ≡ ok a)) ⊎ ((e : AppError) × (r ≡ err e))
Result-cases (ok a) = inl (a, refl)
Result-cases (err e) = inr (e, refl)

-- `?`, with and without a value.
infixl 5 ◌>>=◌
abbrev pub ◌>>=◌ {ℓ κ} : {A : Type ℓ} {B : Type κ} → Result A → (A → Result B) → Result B
result >>= next = elim result [ ok value ↦ next value | err e ↦ err e ]

infixl 5 ◌>>◌
abbrev pub ◌>>◌ {κ} : {B : Type κ} → Result (Unit {0}) → Result B → Result B
check >> rest = check >>= λ _. rest
