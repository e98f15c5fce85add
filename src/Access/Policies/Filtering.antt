-- ===== src/Access/Policies/Filtering.antt =====
-- What a role may change with a PATCH request.
use sip_proxy.Common.{
  String, ◌≡◌, refl, ◌↔◌, ◌⊎◌, inl, inr, Bool, true, false, not, ◌||◌, some, List, [], ◌∷◌, arith,
  Bool-cases, ℕ, filter, all, All, str_eq, eq_iff,
}
use sip_proxy.Common.Text.{elem}
use sip_proxy.Common.Text.Membership.{elem-disjoint}
use sip_proxy.Common.Http.{Http, ok, error, ◌>>◌}
use sip_proxy.Common.Dict.{Dict, keys, Json}
use sip_proxy.Access.Roles.{
  normalize_role, operator_line_patch_fields, operator_node_patch_fields,
  operator_client_patch_fields, line_critical_patch_fields, node_critical_patch_fields,
  client_critical_patch_fields,
}
use sip_proxy.Access.Policies.{
  is_admin, forbidden_fields, raise_if_forbidden, raise_if_critical, set_status, filter_line_update,
  filter_node_update, filter_client_device_update,
}

filter_none :
    (allowed critical names : List String)
    → all (λ x. not (elem x critical)) allowed ≡ true
    → all (λ k. elem k allowed) names ≡ true
    → filter (λ k. elem k critical) names ≡ []
filter_none allowed critical [] d h = refl
filter_none allowed critical (k ∷ ks) d h =
    rw (elem-disjoint k allowed critical d (ground arith))
      (filter_none allowed critical ks d (ground arith))

filter_unlisted :
    (allowed names : List String)
    → all (λ k. elem k allowed) names ≡ true
    → filter (λ k. not (elem k allowed)) names ≡ []
filter_unlisted allowed [] h = refl
filter_unlisted allowed (k ∷ ks) h = ground (arith, filter_unlisted allowed ks)

some_unlisted :
    (allowed names : List String)
    → all (λ k. elem k allowed) names ≡ false
    → (k : String) × (ks : List String) × (filter (λ k. not (elem k allowed)) names ≡ k ∷ ks)
some_unlisted allowed [] h = ground arith
some_unlisted allowed (k ∷ ks) h = elim (Bool-cases (elem k allowed)) [
  | inl y ↦ rw y (some_unlisted allowed ks (ground arith))
  | inr n ↦ rw n (k, filter (λ k. not (elem k allowed)) ks, refl)
]

permits : List String → String → Dict Json → Bool
permits allowed role fields = is_admin role || all (λ k. elem k allowed) (keys fields)

module _ (allowed critical : List String) (apart : all (λ x. not (elem x critical)) allowed ≡ true)
    (role resource : String) (fields : Dict Json) where
  checks-permitted :
      permits allowed role fields ≡ true
      → (raise_if_forbidden (forbidden_fields role fields allowed) resource
          >> raise_if_critical role fields critical resource)
        ≡ ok tt
  unfolding permits raise_if_forbidden forbidden_fields raise_if_critical
  checks-permitted h = elim (Bool-cases (is_admin role)) [
    | inl a ↦ rw a refl
    | inr n ↦ rw n (
        rw (filter_unlisted allowed (keys fields) (ground arith))
          (rw (filter_none allowed critical (keys fields) apart (ground arith)) refl))
  ]

  checks-refused :
      permits allowed role fields ≡ false
      → (detail : String) × ((raise_if_forbidden (forbidden_fields role fields allowed) resource
            >> raise_if_critical role fields critical resource)
          ≡ error 403 detail)
  unfolding permits raise_if_forbidden forbidden_fields raise_if_critical
  checks-refused h =
      let (k, ks, e) = some_unlisted allowed (keys fields) (ground arith) in
      let n : is_admin role ≡ false = ground arith in rw n (rw e (_, refl))

all-All :
    (allowed names : List String)
    → (all (λ k. elem k allowed) names ≡ true) ↔ All (λ k. elem k allowed ≡ true) names
all-All allowed [] = (λ _. tt, λ _. refl)
all-All allowed (k ∷ ks) =
    let (to, from) = all-All allowed ks in
    (λ h. (ground arith, to (ground arith)), λ h. ground (arith, from h.1))

-- Admin, or every field that was set is one of those allowed to an operator.
abbrev pub IsPermitted : List String → String → Dict Json → Type 0
IsPermitted allowed role fields =
    (normalize_role (some role) ≡ "admin") ⊎ All (λ k. elem k allowed ≡ true) (keys fields)

permits_iff :
    (allowed : List String) (role : String) (fields : Dict Json)
    → (permits allowed role fields ≡ true) ↔ IsPermitted allowed role fields
unfolding permits
permits_iff allowed role fields =
    let r = normalize_role (some role) in
    let (to, from) = all-All allowed (keys fields) in
    (
      λ h. elim (Bool-cases (str_eq r "admin")) [
        | inl a ↦ inl ((eq_iff r "admin").0 a)
        | inr n ↦ inr (to (ground arith))
      ],
      λ h. elim h [ inl a ↦ rw ((eq_iff r "admin").1 a) refl | inr l ↦ ground (arith, from l) ],
    )

after_ok : (a b : Http (Unit {0})) (k : Http (Dict Json)) → (a >> b) ≡ ok tt → (a >> (b >> k)) ≡ k
after_ok (ok _) (ok _) k h = refl
after_ok (ok _) (error c d) k h = cc
after_ok (error c d) b k h = cc

after_error :
    (a b : Http (Unit {0})) (k : Http (Dict Json)) (c : ℕ) (d : String)
    → (a >> b) ≡ error c d
    → (a >> (b >> k)) ≡ error c d
after_error (ok _) (ok _) k c d h = cc
after_error (ok _) (error c' d') k c d h = cc
after_error (error c' d') b k c d h = cc

-- What a filter answers: the fields that it passes on, or 403 with some text.
abbrev pub Answers : Http (Dict Json) → List String → String → Dict Json → Dict Json → Type 0
Answers answer allowed role fields passed =
    (IsPermitted allowed role fields × (answer ≡ ok passed))
    ⊎ ((¬ IsPermitted allowed role fields) × ((detail : String) × (answer ≡ error 403 detail)))

filter-Answers :
    (allowed critical : List String)
    → all (λ x. not (elem x critical)) allowed ≡ true
    → (role resource : String) (fields passed : Dict Json)
    → Answers
        (raise_if_forbidden (forbidden_fields role fields allowed) resource
          >> (raise_if_critical role fields critical resource >> ok passed))
        allowed
        role
        fields
        passed
filter-Answers allowed critical apart role resource fields passed =
    let (to, from) = permits_iff allowed role fields in
    let first = raise_if_forbidden (forbidden_fields role fields allowed) resource in
    let second = raise_if_critical role fields critical resource in
    elim (Bool-cases (permits allowed role fields)) [
      | inl p ↦ inl (
        to p,
        after_ok first second (ok passed)
            (checks-permitted allowed critical apart role resource fields p),
      )
      | inr n ↦
          let (d, e) = checks-refused allowed critical apart role resource fields n in
          inr (
            λ h. absurd (let p : permits allowed role fields ≡ true = from h in cc),
            (d, after_error first second (ok passed) 403 d e),
          )
    ]

pub updates-Answers :
    (role : String) (fields : Dict Json)
    → Answers
        (filter_line_update role fields)
        operator_line_patch_fields
        role
        fields
        (set_status fields)
      × Answers (filter_node_update role fields) operator_node_patch_fields role fields fields
      × Answers
          (filter_client_device_update role fields)
          operator_client_patch_fields
          role
          fields
          fields
unfolding filter_line_update filter_node_update filter_client_device_update
updates-Answers role fields = (
  filter-Answers operator_line_patch_fields line_critical_patch_fields refl role "line" fields _,
  filter-Answers operator_node_patch_fields node_critical_patch_fields refl role "node" fields _,
  filter-Answers operator_client_patch_fields client_critical_patch_fields refl role "client device"
      fields _,
)
