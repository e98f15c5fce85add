-- ===== src/Common/Text/Membership.antt =====
-- Membership in a list of texts and in its sorted form.
use Prim.Native.String.{String}
use mathlib.Core.Path.{◌≡◌}
use mathlib.Core.Bool.{true, false, not}
use mathlib.Core.List.{List, [], ◌∷◌}
use mathlib.Core.Logic.{inl, inr}
use text.Mathlib.TextEquality.{eq_iff}
use native.Mathlib.Omega.{arith}
use sip_proxy.Common.Tests.{Bool-cases, str_eq}
use sip_proxy.Common.Lists.{all}
use sip_proxy.Common.Text.{elem}

pub elem-disjoint :
    (k : String) (xs ys : List String)
    → all (λ x. not (elem x ys)) xs ≡ true
    → elem k xs ≡ true
    → elem k ys ≡ false
elem-disjoint k [] ys d h = ground arith
elem-disjoint k (x ∷ xs) ys d h = elim (Bool-cases (str_eq k x)) [
  | inl same ↦ rw ((eq_iff k x).0 same) (ground arith)
  | inr other ↦ elem-disjoint k xs ys (ground arith) (ground arith)
]
