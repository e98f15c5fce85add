-- ===== src/Access/Lines/Columns.antt =====
-- The columns that an operator's fields write in update_line of
-- gfc-platform/control-plane/api/app/admin.py.
use sip_proxy.Common.{
  String, ◌≡◌, ◌∙◌, refl, sym, ap, true, false, ◌||◌, Option, none, some, List, [], ◌∷◌, arith,
  eq_iff, inl, inr, All, str_eq, Bool-cases, Option-cases,
}
use sip_proxy.Common.Dict.{Dict, lookup, insert, keys, lookup-insert, Json, null, str, arr, int}
use sip_proxy.Common.Text.{elem, join}
use sip_proxy.Access.Roles.{operator_line_patch_fields}
use sip_proxy.Access.Policies.{set_status}
use sip_proxy.Access.Lines.{
  remove_key, joined_sources, stored_platforms, stored_status, set_columns, json_texts,
}

-- No field of that name is set.
abbrev pub Avoids : String → Dict Json → Type 0
Avoids k fields = elem k (keys fields) ≡ false

keys-insert :
    (k j : String) (v : Json) (fields : Dict Json)
    → elem k (keys (insert j v fields)) ≡ (str_eq k j || elem k (keys fields))
unfolding insert
keys-insert k j v [] = refl
keys-insert k j v ((i, u) ∷ fields) =
    ground (arith, keys-insert k j v fields, eq_iff i j, eq_iff k i, eq_iff k j)

insert-Avoids :
    (k j : String) (v : Json) (fields : Dict Json)
    → str_eq k j ≡ false
    → Avoids k fields
    → Avoids k (insert j v fields)
insert-Avoids k j v fields other h = keys-insert k j v fields ∙ ground arith

remove_key-Avoids :
    (k j : String) (fields : Dict Json) → Avoids k fields → Avoids k (remove_key j fields)
unfolding remove_key
remove_key-Avoids k j [] h = refl
remove_key-Avoids k j ((i, u) ∷ fields) h = ground (arith, remove_key-Avoids k j fields)

pub lookup-set_columns :
    (k : String) (fields columns : Dict Json)
    → Avoids k fields
    → lookup k (set_columns fields columns) ≡ lookup k columns
unfolding set_columns
lookup-set_columns k [] columns h = refl
lookup-set_columns k ((j, v) ∷ fields) columns h =
    let other : str_eq j k ≡ false = ground (arith, eq_iff j k, eq_iff k j) in
    lookup-set_columns k fields (insert j v columns) (ground arith)
    ∙ lookup-insert j k v columns
    ∙ rw other refl

allowed-Avoids :
    (k : String) (allowed names : List String)
    → elem k allowed ≡ false
    → All (λ x. elem x allowed ≡ true) names
    → elem k names ≡ false
allowed-Avoids k allowed [] h p = refl
allowed-Avoids k allowed (x ∷ names) h (p, ps) = elim (Bool-cases (str_eq k x)) [
  | inl same ↦ absurd (
      let clash : true ≡ false = sym p ∙ ap (λ s. elem s allowed) (sym ((eq_iff k x).0 same)) ∙ h in
      cc)
  | inr other ↦ rw other (allowed-Avoids k allowed names h ps)
]

status-Avoids :
    (k : String) (fields : Dict Json) (enabled : Option Json) (status : Json → Json)
    → str_eq k "status" ≡ false
    → Avoids k fields
    → Avoids k (elim enabled [ none ↦ fields | some e ↦ insert "status" (status e) fields ])
status-Avoids k fields none status other h = h
status-Avoids k fields (some e) status other h = insert-Avoids k "status" (status e) fields other h

joined_sources-Avoids :
    (k : String) (fields : Dict Json)
    → str_eq k "source_cidrs" ≡ false
    → Avoids k fields
    → Avoids k (joined_sources fields)
unfolding joined_sources
joined_sources-Avoids k fields other h = go (lookup "source_cidrs" fields)
  where
    go :
        (found : Option Json)
        → Avoids k (elim found [
          | some (arr items) ↦ insert "source_cidrs" (str (join "," (json_texts items))) fields
          | _ ↦ fields
        ])
    go none = h
    go (some (arr items)) = insert-Avoids k "source_cidrs" _ fields other h
    go (some null) = h
    go (some (Json.bool b)) = h
    go (some (int n)) = h
    go (some (str t)) = h
    go (some (Json.obj fs)) = h

stored_platforms-Avoids :
    (k : String) (fields : Dict Json)
    → str_eq k "live_platforms_json" ≡ false
    → Avoids k fields
    → Avoids k (stored_platforms fields)
unfolding stored_platforms
stored_platforms-Avoids k fields other h = elim (Option-cases (lookup "live_platforms" fields)) [
  | inl nothing ↦ rw (nothing, stored_platforms) h
  | inr (ids, e) ↦
      rw (e, stored_platforms)
        (insert-Avoids k "live_platforms_json" _ (remove_key "live_platforms" fields) other
          (remove_key-Avoids k "live_platforms" fields h))
]

-- An operator's fields, rewritten for the row, write no column that is neither on the operator's list
-- nor one of the three that the rewritings set.
pub fields-Avoids :
    (k : String) (body : Dict Json)
    → elem k operator_line_patch_fields ≡ false
    → elem k ("status" ∷ "live_platforms_json" ∷ "source_cidrs" ∷ []) ≡ false
    → All (λ x. elem x operator_line_patch_fields ≡ true) (keys body)
    → Avoids k (stored_status (stored_platforms (joined_sources (set_status body))))
unfolding stored_status set_status
fields-Avoids k body closed apart p = status-Avoids k _ _ _ (ground arith) (
    stored_platforms-Avoids k _ (ground arith) (
      joined_sources-Avoids k _ (ground arith) (
        status-Avoids k body _ _ (ground arith)
          (allowed-Avoids k operator_line_patch_fields (keys body) closed p))))
