-- ===== src/Common/Text/Strip.antt =====
-- Trimming of a text.
use Prim.Native.Char.{Char, code}
use Prim.Native.String
use Prim.Native.String.{String, [], ◌∷◌}
use mathlib.Core.Path.{◌≡◌, ◌∙◌, refl, sym, ap}
use mathlib.Core.Bool.{false}
use mathlib.Core.Logic.{inl, inr}
use text.Mathlib.TextLemmas.{nil-append, cons-append}
use sip_proxy.Common.Tests.{Bool-cases, str_eq}
use sip_proxy.Common.Text.{is_space, lstrip, push_space, rstrip, strip}

rstrip-push_space :
    (c : Char) (t : String) → rstrip t ≡ t → rstrip (push_space c t) ≡ push_space c t
unfolding rstrip push_space
rstrip-push_space c [] e = elim (Bool-cases (is_space (code c))) [
  | inl space ↦ rw space refl
  | inr other ↦ rw (other, rstrip, push_space) (rw other refl)
]
rstrip-push_space c (d ∷ t) e = ap (push_space c) e

rstrip_idem : (s : String) → rstrip (rstrip s) ≡ rstrip s
unfolding rstrip
rstrip_idem [] = refl
rstrip_idem (c ∷ s) = rstrip-push_space c (rstrip s) (rstrip_idem s)

lstrip-push_space :
    (c : Char) (t : String) → is_space (code c) ≡ false → lstrip (push_space c t) ≡ push_space c t
unfolding lstrip push_space
lstrip-push_space c [] n = rw n (rw n refl)
lstrip-push_space c (d ∷ t) n = rw n refl

lstrip-rstrip : (s : String) → lstrip (rstrip (lstrip s)) ≡ rstrip (lstrip s)
unfolding lstrip rstrip
lstrip-rstrip [] = refl
lstrip-rstrip (c ∷ s) = elim (Bool-cases (is_space (code c))) [
  | inl space ↦ rw space (lstrip-rstrip s)
  | inr other ↦ rw other (lstrip-push_space c (rstrip s) other)
]

pub strip_idem : (s : String) → strip (strip s) ≡ strip s
unfolding strip
strip_idem s = ap rstrip (lstrip-rstrip s) ∙ rstrip_idem (lstrip s)

lstrip-append :
    (s t : String)
    → str_eq (lstrip s) "" ≡ false
    → lstrip (String.◌++◌ s t) ≡ String.◌++◌ (lstrip s) t
unfolding lstrip
lstrip-append [] t n = cc
lstrip-append (c ∷ s) t n = elim (Bool-cases (is_space (code c))) [
  | inl space ↦ rw (cons-append c s t, space) (lstrip-append s t (rw space at n))
  | inr other ↦ rw (cons-append c s t, other) (sym (cons-append c s t))
]

rstrip-append :
    (s t : String) → rstrip t ≡ t → str_eq t "" ≡ false → rstrip (String.◌++◌ s t) ≡ String.◌++◌ s t
unfolding rstrip push_space
rstrip-append [] t e n = rw (nil-append t) e
rstrip-append (c ∷ []) [] e n = cc
rstrip-append (c ∷ []) (d ∷ t) e n =
    rw (cons-append c [] (d ∷ t), nil-append (d ∷ t)) (ap (push_space c) e)
rstrip-append (c ∷ d ∷ s) t e n = rw (cons-append c (d ∷ s) t) (
    ap (push_space c) (rstrip-append (d ∷ s) t e n)
    ∙ ap (push_space c) (cons-append d s t)
    ∙ ap (λ x. c ∷ x) (sym (cons-append d s t)))

-- A trimmed text with a text behind it that ends in no white space.
pub strip-append :
    (s t : String)
    → str_eq (strip s) "" ≡ false
    → strip t ≡ t
    → str_eq t "" ≡ false
    → strip (String.◌++◌ (strip s) t) ≡ String.◌++◌ (strip s) t
unfolding strip
strip-append s t n e m =
    let trimmed : rstrip t ≡ t = ap rstrip (sym e) ∙ rstrip_idem (lstrip t) ∙ e in
    ap rstrip (
      lstrip-append (strip s) t (ap (λ x. str_eq x "") (lstrip-rstrip s) ∙ n)
      ∙ ap (λ x. String.◌++◌ x t) (lstrip-rstrip s))
    ∙ rstrip-append (strip s) t trimmed m
