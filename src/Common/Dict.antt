-- ===== src/Common/Dict.antt =====
-- Python's `dict` with text keys, in insertion order, and the values of a JSON document.
use sip_proxy.Common.Tests.{str_eq, ◌==◌, if◌then◌else◌}
use sip_proxy.Common.Text.Numbers.{parse_int}
use sip_proxy.Common.Int.{ℤ, pos, negsuc}
use Prim.Native.Nat.{ℕ}
use Prim.Native.String.{String}
use mathlib.Core.Path.{◌≡◌, refl}
use mathlib.Core.Bool.{Bool, true, false, not}
use mathlib.Core.Option.{Option, none, some}
use mathlib.Core.List.{List, [], ◌∷◌}
use native.Mathlib.Omega.{arith}
use text.Mathlib.TextEquality.{eq_iff}

abbrev pub Dict {ℓ} : Type ℓ → Type ℓ
Dict V = List (String × V)

module _ {ℓ} {V : Type ℓ} where
  -- `d.get(k)`
  unfoldable pub lookup : String → Dict V → Option V
  lookup k [] = none
  lookup k ((j, v) ∷ m) = if str_eq j k then some v else lookup k m

  -- `d[k] = v`: a key that is there keeps its place
  unfoldable pub insert : String → V → Dict V → Dict V
  insert key value [] = (key, value) ∷ []
  insert key value ((k, v) ∷ items) =
      let behind = insert key value items in
      if str_eq k key then (k, value) ∷ items else (k, v) ∷ behind

  abbrev pub keys : Dict V → List String
  keys [] = []
  keys ((k, _) ∷ m) = k ∷ keys m

  pub lookup-insert :
      (key name : String) (value : V) (items : Dict V)
      → lookup name (insert key value items)
        ≡ (if str_eq key name then some value else lookup name items)
  unfolding lookup insert
  lookup-insert key name value ((k, v) ∷ items) =
      let behind = lookup-insert key name value items in
      ground (arith, behind, eq_iff k name, eq_iff k key, eq_iff key name)
  lookup-insert key name value [] = refl

mutual
  pub data Json : Type 0 where
    null : Json
    bool : Bool → Json
    int : ℤ → Json
    str : String → Json
    arr : Items → Json
    obj : Fields → Json

  pub data Items : Type 0 where
    nil : Items
    cons : Json → Items → Items

  pub data Fields : Type 0 where
    end : Fields
    field : String → Json → Fields → Fields

-- The truth value of a JSON value in a Python test.
unfoldable pub truthy : Json → Bool
truthy null = false
truthy (bool b) = b
truthy (int (pos n)) = not (n == 0)
truthy (int (negsuc n)) = true
truthy (str s) = not (str_eq s "")
truthy (arr nil) = false
truthy (arr (cons _ _)) = true
truthy (obj end) = false
truthy (obj (field _ _ _)) = true

abbrev pub entries : Fields → Dict Json
entries end = []
entries (field k v fs) = (k, v) ∷ entries fs

-- `int(value)` of a JSON value; `none` is a `TypeError` or `ValueError`.
unfoldable pub int_of : Json → Option ℤ
int_of null = none
int_of (bool b) = some (if b then pos 1 else pos 0)
int_of (int n) = some n
int_of (str s) = parse_int s
int_of (arr _) = none
int_of (obj _) = none

-- `int(value or 0)`
unfoldable pub int_or_zero : Json → Option ℤ
unfolding truthy int_of
int_or_zero v = if truthy v then int_of v else some (pos 0)

-- `int(value or n)`
unfoldable pub int_or : ℕ → Json → Option ℤ
unfolding truthy int_of
int_or n v = if truthy v then int_of v else some (pos n)
