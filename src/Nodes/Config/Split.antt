-- ===== src/Nodes/Config/Split.antt =====
-- Which lines feed the rules and the users of a node, _build_forward_rules and _build_client_ingress of
-- gfc-platform/control-plane/api/app/node_config.py.
use sip_proxy.Common.{
  ℕ, String, ◌≡◌, ◌∙◌, refl, sym, ap, Bool, true, false, not, ◌&&◌, Option, none, some, List, [],
  ◌∷◌, map, filter, arith, inl, inr, Bool-cases, Option-cases, str_eq, eq_iff,
}
use sip_proxy.Nodes.Monitor.{SocksProfile}
use sip_proxy.Nodes.Config.{
  Line, Rule, User, or_default, given_text, profile_of, make_user, user_uuid, build_forward_rules,
  build_client_ingress,
}

abbrev is_some {ℓ} : {A : Type ℓ} → Option A → Bool
is_some none = false
is_some (some a) = true

-- An enabled line that is not a client's and whose exit is known.
abbrev pub is_forwarded : List SocksProfile → Line → Bool
is_forwarded socks line =
    line.is_enabled
    && (not (str_eq (or_default "client" line.line_type) "client")
        && is_some (profile_of socks line))

-- An enabled line of a client that has an id.
abbrev pub is_ingress : Line → Bool
is_ingress line =
    line.is_enabled && (str_eq line.line_type "client" && is_some (given_text line.client_uuid))

rules-forwarded :
    (socks : List SocksProfile) (lines : List Line)
    → map (λ (r : Rule). r.line_id) (build_forward_rules socks lines)
      ≡ map (λ (l : Line). l.id) (filter (is_forwarded socks) lines)
unfolding build_forward_rules
rules-forwarded socks [] = refl
rules-forwarded socks (line ∷ lines) =
    let rest = rules-forwarded socks lines in
    elim (Bool-cases line.is_enabled) [
      | inr off ↦ rw off rest
      | inl on ↦ elim (Bool-cases (str_eq (or_default "client" line.line_type) "client")) [
        | inl client ↦ rw (on, client) rest
        | inr forward ↦ elim (Option-cases (profile_of socks line)) [
          | inl lacks ↦ rw (on, forward, lacks) rest
          | inr (sp, has) ↦ rw (on, forward, has) (ap (λ (ids : List ℕ). line.id ∷ ids) rest)
        ]
      ]
    ]

or_default-client : (s : String) → str_eq (or_default "forward" s) "client" ≡ str_eq s "client"
or_default-client s = elim (Bool-cases (str_eq s "")) [
  | inl empty ↦ let e : s ≡ "" = (eq_iff s "").0 empty in rw e refl
  | inr other ↦ rw other refl
]

user_uuid-ingress : (line : Line) → is_some (user_uuid line) ≡ is_ingress line
unfolding user_uuid
user_uuid-ingress line = elim (Bool-cases line.is_enabled) [
  | inr off ↦ rw off refl
  | inl on ↦ elim (Bool-cases (str_eq line.line_type "client")) [
    | inl client ↦
        let c : str_eq (or_default "forward" line.line_type) "client" ≡ true =
          or_default-client line.line_type ∙ client in
        rw (on, c, client) refl
    | inr other ↦
        let c : str_eq (or_default "forward" line.line_type) "client" ≡ false =
          or_default-client line.line_type ∙ other in
        rw (on, c, other) refl
  ]
]

users-ingress :
    (new_password : ℕ → String) (socks : List SocksProfile) (lines : List Line)
    → map (λ (u : User). u.line_id) (build_client_ingress new_password socks lines).0
      ≡ map (λ (l : Line). l.id) (filter is_ingress lines)
unfolding build_client_ingress make_user
users-ingress new_password socks [] = refl
users-ingress new_password socks (line ∷ lines) =
    let rest = users-ingress new_password socks lines in
    let same = user_uuid-ingress line in
    elim (Option-cases (user_uuid line)) [
      | inl none_of ↦
          let n : is_ingress line ≡ false = sym same ∙ ap is_some none_of in
          rw (none_of, n, build_client_ingress) rest
      | inr (uuid, has) ↦
          let y : is_ingress line ≡ true = sym same ∙ ap is_some has in
          rw (has, y, build_client_ingress) (ap (λ (ids : List ℕ). line.id ∷ ids) rest)
    ]

client_default :
    (s : String) → str_eq s "client" ≡ true → str_eq (or_default "client" s) "client" ≡ true
client_default s h = let e : s ≡ "client" = (eq_iff s "client").0 h in rw e refl

one_side :
    (socks : List SocksProfile) (line : Line) → (is_forwarded socks line && is_ingress line) ≡ false
one_side socks line = elim (Bool-cases (str_eq line.line_type "client")) [
  | inl client ↦ rw (client_default line.line_type client) (ground arith)
  | inr other ↦ rw other (ground arith)
]

-- For any lines, exits and passwords, the forward rules of a node are those of the enabled lines that
-- are not a client's and whose exit is known, and its users those of the enabled client lines with an
-- id, each in the order of the lines; no line feeds both.
pub rules-users :
    (new_password : ℕ → String) (socks : List SocksProfile) (lines : List Line)
    → (map (λ (r : Rule). r.line_id) (build_forward_rules socks lines)
        ≡ map (λ (l : Line). l.id) (filter (is_forwarded socks) lines))
      × (map (λ (u : User). u.line_id) (build_client_ingress new_password socks lines).0
          ≡ map (λ (l : Line). l.id) (filter is_ingress lines))
      × ((line : Line) → (is_forwarded socks line && is_ingress line) ≡ false)
rules-users new_password socks lines =
    (rules-forwarded socks lines, users-ingress new_password socks lines, one_side socks)
