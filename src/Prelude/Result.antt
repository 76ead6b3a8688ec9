-- ===== src/Prelude/Result.antt =====
-- Go's `(T, error)` results, and panics. An error keeps the identity that `errors.Is` asks for.
use Prim.Native.String.{String}
use mathlib.Core.Path.{◌≡◌, refl}
use mathlib.Core.Logic.{◌⊎◌, ◌≢◌, inl, inr}
use mathlib.Core.Bool.{Bool, true, false}
use gm_agent.Prelude.Tests.{◌<+>◌}

pub data Error : Type 0 where
  -- `fmt.Errorf` and `errors.New` with no `%w`
  message : String → Error
  -- `fmt.Errorf("…: %w", err)`
  wrap : String → Error → Error
  -- `store.ErrNotFound`, `store.ErrNoCheckpoint`, `context.Canceled`
  not_found no_checkpoint canceled : Error

pub data Result {ℓ} (A : Type ℓ) : Type ℓ where
  -- a Go panic, such as a nil dereference
  panic : String → Result A
  err : Error → Result A
  ok : A → Result A

-- The same for a call that is taken not to panic.
pub data Reply {ℓ} (A : Type ℓ) : Type ℓ where
  value : A → Reply A
  failed : Error → Reply A

unfoldable pub error_text : Error → String
error_text (message s) = s
error_text (wrap s e) = s <+> ": " <+> error_text e
error_text not_found = "not found"
error_text no_checkpoint = "no checkpoint found"
error_text canceled = "context canceled"

-- `errors.Is(err, ErrNotFound) || errors.Is(err, ErrNoCheckpoint)`
unfoldable pub is_missing : Error → Bool
is_missing (message s) = false
is_missing (wrap s e) = is_missing e
is_missing not_found = true
is_missing no_checkpoint = true
is_missing canceled = false

-- A step, then the rest of the function, unless the step has failed.
infixl 5 ◌>>=◌ ◌>>◌
abbrev pub ◌>>=◌ {ℓ κ} : {A : Type ℓ} {C : Type κ} → Result A → (A → Result C) → Result C
panic reason >>= rest = panic reason
err failure >>= rest = err failure
ok got >>= rest = rest got

abbrev pub ◌>>◌ {ℓ} : {C : Type ℓ} → Result (Unit {0}) → Result C → Result C
check >> rest = check >>= λ _. rest

-- What a step of a chain returned, where the chain has returned.
pub bind-eq-ok {ℓ κ} :
    {A : Type ℓ} {C : Type κ} (step : Result A) (rest : A → Result C) {end : C}
    → (step >>= rest) ≡ ok end
    → (got : A) × (step ≡ ok got) × (rest got ≡ ok end)
bind-eq-ok (panic reason) rest h = cc
bind-eq-ok (err failure) rest h = cc
bind-eq-ok (ok got) rest h = (got, refl, h)

pub ok_injective {ℓ} : {A : Type ℓ} (a b : A) → ok a ≡ ok b → a ≡ b
ok_injective a b h = cc

pub Reply-cases {ℓ} :
    {A : Type ℓ} (r : Reply A) → ((a : A) × (r ≡ value a)) ⊎ ((x : Error) × (r ≡ failed x))
Reply-cases (value a) = inl (a, refl)
Reply-cases (failed x) = inr (x, refl)

pub Result-cases {ℓ} :
    {A : Type ℓ} (r : Result A)
    → ((a : A) × (r ≡ ok a)) ⊎ (((x : Error) × (r ≡ err x)) ⊎ ((p : String) × (r ≡ panic p)))
Result-cases (ok a) = inl (a, refl)
Result-cases (err x) = inr (inl (x, refl))
Result-cases (panic p) = inr (inr (p, refl))

pub failed-value {ℓ} : {A : Type ℓ} {x : Error} {a : A} → failed x ≢ value a
failed-value h = cc

pub value_injective {ℓ} : {A : Type ℓ} {a b : A} → value a ≡ value b → a ≡ b
value_injective h = cc
