-- ===== src/Live/Once.antt =====
-- Lists without repetition, and push_new of Nodes/Config.antt.
use sip_proxy.Common.{
  String, ◌≡◌, ◌∙◌, refl, sym, ap, true, false, ◌||◌, List, [], ◌∷◌, ◌++◌, inl, inr, all, arith,
  eq_iff, eq_refl, str_eq, Bool-cases,
}
use mathlib.Core.List.{append_assoc, append-nil}
use sip_proxy.Common.Text.{elem}
use sip_proxy.Nodes.Config.{push_new}

-- Each text occurs once, and none of them is in `out`.
abbrev pub New : List String → List String → Type 0
New out [] = Unit
New out (c ∷ cs) = (elem c out ≡ false) × New (out ++ (c ∷ [])) cs

abbrev pub Distinct : List String → Type 0
Distinct [] = Unit
Distinct (c ∷ cs) = (elem c cs ≡ false) × Distinct cs

elem-append : (k : String) (xs ys : List String) → elem k (xs ++ ys) ≡ (elem k xs || elem k ys)
elem-append k [] ys = refl
elem-append k (x ∷ xs) ys = ground (arith, elem-append k xs ys)

-- What push_new appends.
pub push_new-New :
    (out cs : List String)
    → (added : List String) × (push_new out cs ≡ out ++ added) × New out added
unfolding push_new
push_new-New out [] = ([], sym (append-nil out), tt)
push_new-New out (c ∷ cs) = elim (Bool-cases (elem c out)) [
  | inl held ↦ let (added, e, new) = push_new-New out cs in (added, rw held e, new)
  | inr fresh ↦
      let (added, e, new) = push_new-New (out ++ (c ∷ [])) cs in
      (c ∷ added, rw fresh (e ∙ append_assoc out (c ∷ []) added), (fresh, new))
]

pub New-push_new : (out added : List String) → New out added → push_new out added ≡ out ++ added
unfolding push_new
New-push_new out [] new = sym (append-nil out)
New-push_new out (c ∷ cs) (fresh, new) =
    rw fresh (New-push_new (out ++ (c ∷ [])) cs new ∙ append_assoc out (c ∷ []) cs)

pub push_new-append :
    (out xs ys : List String) → push_new out (xs ++ ys) ≡ push_new (push_new out xs) ys
unfolding push_new
push_new-append out [] ys = refl
push_new-append out (x ∷ xs) ys = elim (Bool-cases (elem x out)) [
  | inl held ↦ rw held (push_new-append out xs ys)
  | inr fresh ↦ rw fresh (push_new-append (out ++ (x ∷ [])) xs ys)
]

-- Texts that are there already add nothing.
push_new-held :
    (out xs ys : List String)
    → all (λ x. elem x out) xs ≡ true
    → push_new out (xs ++ ys) ≡ push_new out ys
unfolding push_new
push_new-held out [] ys h = refl
push_new-held out (x ∷ xs) ys h =
    let held : elem x out ≡ true = ground arith in rw held (push_new-held out xs ys (ground arith))

all-elem_more :
    (x : String) (out xs : List String)
    → all (λ k. elem k out) xs ≡ true
    → all (λ k. elem k (x ∷ out)) xs ≡ true
all-elem_more x out [] h = refl
all-elem_more x out (y ∷ ys) h = ground (arith, all-elem_more x out ys)

all-elem_self : (xs : List String) → all (λ k. elem k xs) xs ≡ true
all-elem_self [] = refl
all-elem_self (x ∷ xs) = ground (arith, eq_refl x, all-elem_more x xs xs (all-elem_self xs))

-- To push a list onto its own front again changes nothing.
pub push_new_again : (out cs : List String) → push_new out (push_new out cs) ≡ push_new out cs
push_new_again out cs =
    let (added, e, new) = push_new-New out cs in
    rw e (push_new-held out out added (all-elem_self out) ∙ New-push_new out added new)

-- What is there already is not new.
New-elem : (k : String) (out cs : List String) → elem k out ≡ true → New out cs → elem k cs ≡ false
New-elem k out [] h new = refl
New-elem k out (d ∷ cs) h (fresh, new) =
    let still : elem k (out ++ (d ∷ [])) ≡ true =
      elem-append k out (d ∷ []) ∙ ap (λ b. b || elem k (d ∷ [])) h in
    let rest = New-elem k (out ++ (d ∷ [])) cs still new in
    elim (Bool-cases (str_eq k d)) [
      | inl same ↦ absurd (
          let e = (eq_iff k d).0 same in
          let clash : true ≡ false = sym h ∙ ap (λ x. elem x out) e ∙ fresh in cc)
      | inr other ↦ ground arith
    ]

New-Distinct : (out cs : List String) → New out cs → Distinct cs
New-Distinct out [] new = tt
New-Distinct out (c ∷ cs) (fresh, new) = (
  New-elem c (out ++ (c ∷ [])) cs (elem-append c out (c ∷ []) ∙ ground (arith, eq_refl c)) new,
  New-Distinct (out ++ (c ∷ [])) cs new,
)

pub push_new-Distinct : (cs : List String) → Distinct (push_new [] cs)
push_new-Distinct cs = let (added, e, new) = push_new-New [] cs in rw e (New-Distinct [] added new)
