-- ===== src/Access/Roles/Levels.antt =====
-- The three roles of permissions.py.
use sip_proxy.Common.{String, ◌≡◌, refl, inl, inr, true, Option, arith, eq_iff, Bool-cases, str_eq}
use sip_proxy.Common.Text.{strip, lower, elem, or_empty}
use sip_proxy.Access.Roles.{valid_roles, normalize_role}

pub data Role : Type 0 where
  admin operator auditor : Role

abbrev pub spelled : Role → String
spelled admin = "admin"
spelled operator = "operator"
spelled auditor = "auditor"

pub elem-valid_roles : (r : String) → elem r valid_roles ≡ true → (k : Role) × (r ≡ spelled k)
elem-valid_roles r h = elim (Bool-cases (str_eq r "admin")) [
  | inl a ↦ (admin, (eq_iff r "admin").0 a)
  | inr a ↦ elim (Bool-cases (str_eq r "operator")) [
    | inl o ↦ (operator, (eq_iff r "operator").0 o)
    | inr o ↦ (auditor, (eq_iff r "auditor").0 (ground arith))
  ]
]

-- A role, once normalised, is one of the three.
pub role_of : (role : Option String) → (k : Role) × (normalize_role role ≡ spelled k)
unfolding normalize_role
role_of role =
    let r = lower (strip (or_empty role)) in
    elim (Bool-cases (elem r valid_roles)) [
      | inl h ↦ rw h (elem-valid_roles r h)
      | inr h ↦ rw h (operator, refl)
    ]
