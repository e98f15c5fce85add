-- ===== src/Common/Lists.antt =====
-- Lists measured by native numbers, tests over them, and predicates by recursion.
use Prim.Native.Nat.{ℕ, suc}
use sip_proxy.Common.Tests.{◌==◌, Bool-cases}
use mathlib.Core.Option.{Option, none, some}
use mathlib.Core.Logic.{inl, inr}
use mathlib.Core.Path.{◌≡◌, refl, sym}
use mathlib.Core.Bool.{Bool, true, false, ◌&&◌, ◌||◌}
use mathlib.Core.List.{List, [], ◌∷◌, ◌++◌, Memᴰ}
use native.Mathlib.Omega.{arith}

module _ {ℓ} {A : Type ℓ} where
  abbrev pub length : List A → ℕ
  length [] = 0
  length (x ∷ xs) = suc (length xs)

  -- `any` and `all` of the program, over a Boolean test.
  abbrev pub any : (A → Bool) → List A → Bool
  any p [] = false
  any p (x ∷ xs) = p x || any p xs

  abbrev pub all : (A → Bool) → List A → Bool
  all p [] = true
  all p (x ∷ xs) = p x && all p xs

  abbrev pub keep : Bool → A → List A → List A
  keep true x xs = x ∷ xs
  keep false x xs = xs

  -- A comprehension's `if`.
  abbrev pub filter : (A → Bool) → List A → List A
  filter p [] = []
  filter p (x ∷ xs) = keep (p x) x (filter p xs)

-- A predicate of every element.
abbrev pub All {ℓ κ} : {A : Type ℓ} → (A → Type κ) → List A → Type κ
All P (x ∷ xs) = P x × All P xs
All P [] = Unit

-- `n in numbers`
abbrev pub contains : ℕ → List ℕ → Bool
contains n [] = false
contains n (x ∷ xs) = n == x || contains n xs

pub contains-append :
    (n : ℕ) (xs ys : List ℕ) → contains n (xs ++ ys) ≡ (contains n xs || contains n ys)
contains-append n [] ys = refl
contains-append n (x ∷ xs) ys = ground (arith, contains-append n xs ys)

pub All-map {ℓ κ μ} :
    {A : Type ℓ} (P : A → Type κ) (Q : A → Type μ) (xs : List A)
    → ((x : A) → P x → Q x)
    → All P xs
    → All Q xs
All-map P Q [] f h = tt
All-map P Q (x ∷ xs) f (p, h) = (f x p, All-map P Q xs f h)

-- A predicate of every element holds of one of them.
pub All-elem {ℓ κ} :
    {A : Type ℓ} (P : A → Type κ) (x : A) (xs : List A) → Memᴰ x xs → All P xs → P x
All-elem P x [] m h = elim m [ ]
All-elem P x (y ∷ ys) (Memᴰ.head e) (h, hs) = rw e h
All-elem P x (y ∷ ys) (Memᴰ.tail m) (h, hs) = All-elem P x ys m hs

module _ {ℓ} {A : Type ℓ} where
  -- The first element that passes the test.
  abbrev pub find : (A → Bool) → List A → Option A
  find p [] = none
  find p (x ∷ xs) = elim (p x) [ true ↦ some x | false ↦ find p xs ]

  pub find-some :
      (p : A → Bool) (xs : List A) (a : A) → find p xs ≡ some a → Memᴰ a xs × (p a ≡ true)
  find-some p [] a h = cc
  find-some p (x ∷ xs) a h = elim (Bool-cases (p x)) [
    | inl here ↦
        let same : some x ≡ some a = rw (here, find) at h in
        let e : x ≡ a = cc in (Memᴰ.head (sym e), rw (← e) here)
    | inr later ↦ let (m, t) = find-some p xs a (rw (later, find) at h) in (Memᴰ.tail m, t)
  ]

  pub find-none : (p : A → Bool) (xs : List A) → find p xs ≡ none → All (λ x. p x ≡ false) xs
  find-none p [] h = tt
  find-none p (x ∷ xs) h = elim (Bool-cases (p x)) [
    | inl here ↦ absurd (let same : some x ≡ none = rw (here, find) at h in cc)
    | inr later ↦ (later, find-none p xs (rw (later, find) at h))
  ]
