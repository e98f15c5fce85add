-- ===== src/Common/Http.antt =====
-- A handler returns a value or raises `HTTPException(status, detail)`.
use Prim.Native.String.{String}
use mathlib.Core.Path.{◌≡◌, refl}
use mathlib.Core.Bool.{Bool, true, false}
use Prim.Native.Nat.{ℕ}

pub data Http {ℓ} (A : Type ℓ) : Type ℓ where
  ok : A → Http A
  error : (status : ℕ) → (detail : String) → Http A

infixl 5 ◌>>=◌ ◌>>◌
abbrev pub ◌>>=◌ {ℓ κ} : {A : Type ℓ} {B : Type κ} → Http A → (A → Http B) → Http B
ok a >>= f = f a
error c d >>= f = error c d

abbrev pub ◌>>◌ {ℓ} : {B : Type ℓ} → Http (Unit {0}) → Http B → Http B
m >> k = m >>= λ _. k

-- `if test: raise HTTPException(status, detail)`
abbrev pub raise_if : Bool → ℕ → String → Http (Unit {0})
raise_if true c d = error c d
raise_if false c d = ok tt

-- The predicate holds of what the handler returns.
abbrev pub After {ℓ κ} : {A : Type ℓ} → (A → Type κ) → Http A → Type κ
After P (ok a) = P a
After P (error status detail) = Unit

pub After-bind {ℓ κ μ} :
    {A : Type ℓ} {B : Type κ} (P : B → Type μ) (m : Http A) (f : A → Http B)
    → ((a : A) → m ≡ ok a → After P (f a))
    → After P (m >>= f)
After-bind P (ok a) f h = h a refl
After-bind P (error status detail) f h = tt

pub After-ok {ℓ κ} : {A : Type ℓ} (P : A → Type κ) (m : Http A) (a : A) → After P m → m ≡ ok a → P a
After-ok P m a h e = rw e at h

-- A check that passed is known to what follows.
pub After-raise_if {ℓ κ} :
    {B : Type ℓ} (P : B → Type κ) (test : Bool) (status : ℕ) (detail : String) (k : Http B)
    → (test ≡ false → After P k)
    → After P (raise_if test status detail >> k)
After-raise_if P true status detail k h = tt
After-raise_if P false status detail k h = h refl
