-- ===== src/Nodes/Endpoints/Enrolment.antt =====
-- A new node and its token, activate_node and _auth_node of
-- gfc-platform/control-plane/api/app/main.py.
use sip_proxy.Common.{
  ℕ, suc, ◌<◌, String, ◌≡◌, ◌∙◌, refl, ap, Bool, true, false, ◌&&◌, ◌||◌, Option, none, some, List,
  [], ◌∷◌, ◌++◌, arith, any, find, ◌==◌, str_eq, eq_refl, All, Bool-cases, Option-cases, inl, inr,
  ◌⊎◌, sym,
}
use sip_proxy.Common.Http.{Http, ok, error}
use sip_proxy.Common.Text.{strip, lower, elem, starts_with, or_empty}
use sip_proxy.Common.Text.Words.{after_space}
use sip_proxy.Nodes.Models.{Node}
use sip_proxy.Nodes.Tokens.{NodeToken, is_current, holds_token, auth_node}
use sip_proxy.Nodes.Endpoints.{
  normalize_node_public_ip, NodeRow, Address, NodesWorld, ActivateRequest, ActivateResponse, Fresh,
  nodes_of, new_node, activate_node,
}

-- The ids that are given out lie below the next one.
abbrev pub IsNumbered : NodesWorld → Type 0
IsNumbered w = All (λ (r : NodeRow). r.node.id < w.next_node_id) w.rows

any-append {ℓ} :
    {A : Type ℓ} (p : A → Bool) (xs ys : List A) → any p (xs ++ ys) ≡ (any p xs || any p ys)
any-append p [] ys = refl
any-append p (x ∷ xs) ys = ground (arith, any-append p xs ys)

find-append {ℓ} :
    {A : Type ℓ} (p : A → Bool) (xs ys : List A) (x : A)
    → find p xs ≡ some x
    → find p (xs ++ ys) ≡ some x
find-append p [] ys x h = cc
find-append p (y ∷ xs) ys x h = elim (Bool-cases (p y)) [
  | inl hit ↦ rw (hit, find) (rw (hit, find) at h)
  | inr miss ↦ rw (miss, find) (find-append p xs ys x (rw (miss, find) at h))
]

-- A text before another.
abbrev pub onto : String → String → String
onto String.[] t = t
onto (String.◌∷◌ c s) t = String.◌∷◌ c (onto s t)

-- The header that bears a token.
abbrev pub bearer : String → Option String
bearer token = some (onto "Bearer " token)

bearer-token :
    (token : String)
    → (starts_with "bearer " (lower (or_empty (bearer token))) ≡ true)
      × (after_space (or_empty (bearer token)) ≡ token)
unfolding starts_with lower after_space
bearer-token token = (refl, refl)

-- The token that an activation adds is none of an older node.
holds-added :
    (tokens : List NodeToken) (t : NodeToken) (digest : String) (node : Node)
    → node.id < t.node_id
    → holds_token (tokens ++ (t ∷ [])) digest node ≡ holds_token tokens digest node
holds-added tokens t digest node older =
    let other : (t.node_id == node.id) ≡ false = ground arith in
    any-append
      (λ (u : NodeToken).
        u.node_id == node.id && str_eq u.token_hash digest && is_current u.revoked_at)
      tokens (t ∷ [])
    ∙ rw other (ground arith)

holds-new :
    (tokens : List NodeToken) (t : NodeToken) (digest : String) (node : Node)
    → (t.node_id == node.id) ≡ true
    → str_eq t.token_hash digest ≡ true
    → is_current t.revoked_at ≡ true
    → holds_token (tokens ++ (t ∷ [])) digest node ≡ true
holds-new tokens t digest node same hash current =
    any-append
      (λ (u : NodeToken).
        u.node_id == node.id && str_eq u.token_hash digest && is_current u.revoked_at)
      tokens (t ∷ [])
    ∙ ground arith

find-older :
    (tokens : List NodeToken) (t : NodeToken) (digest : String) (rows : List NodeRow)
    → All (λ (r : NodeRow). r.node.id < t.node_id) rows
    → find (holds_token (tokens ++ (t ∷ [])) digest) (nodes_of rows)
      ≡ find (holds_token tokens digest) (nodes_of rows)
find-older tokens t digest [] h = refl
find-older tokens t digest (r ∷ rows) (h, hs) =
    rw (holds-added tokens t digest r.node h, find)
      (ap
        (λ (found : Option Node). elim (holds_token tokens digest r.node) [
          | true ↦ some r.node
          | false ↦ found
        ])
        (find-older tokens t digest rows hs))

auth_node-found :
    (hash_token : String → String) (authorization : Option String) (tokens : List NodeToken)
    (nodes : List Node) (node : Node)
    → starts_with "bearer " (lower (or_empty authorization)) ≡ true
    → find (holds_token tokens (hash_token (strip (after_space (or_empty authorization))))) nodes
      ≡ some node
    → auth_node hash_token authorization tokens nodes ≡ ok node
unfolding auth_node
auth_node-found hash_token authorization tokens nodes node prefix found = rw (prefix, found) refl

pub auth_node-finds :
    (hash_token : String → String) (authorization : Option String) (tokens : List NodeToken)
    (nodes : List Node) (node : Node)
    → auth_node hash_token authorization tokens nodes ≡ ok node
    → (starts_with "bearer " (lower (or_empty authorization)) ≡ true)
      × (find (holds_token tokens (hash_token (strip (after_space (or_empty authorization))))) nodes
          ≡ some node)
unfolding auth_node
auth_node-finds hash_token authorization tokens nodes node e =
    let digest = hash_token (strip (after_space (or_empty authorization))) in
    elim (Bool-cases (starts_with "bearer " (lower (or_empty authorization)))) [
      | inr other ↦
          absurd (let clash : error 401 "missing node token" ≡ ok node = rw other at e in cc)
      | inl prefix ↦ elim (Option-cases (find (holds_token tokens digest) nodes)) [
        | inl nothing ↦
            absurd (
              let clash : error 401 "invalid node token" ≡ ok node = rw (prefix, nothing) at e in
              cc)
        | inr (n, found) ↦
            let same : ok n ≡ ok node = rw (prefix, found) at e in
            let n≡node : n ≡ node = cc in (prefix, found ∙ ap some n≡node)
      ]
    ]

find-last :
    (p : Node → Bool) (rows : List NodeRow) (row : NodeRow)
    → find p (nodes_of rows) ≡ none
    → p row.node ≡ true
    → find p (nodes_of (rows ++ (row ∷ []))) ≡ some row.node
find-last p [] row nothing h = rw (h, find) refl
find-last p (r ∷ rows) row nothing h = elim (Bool-cases (p r.node)) [
  | inl hit ↦ absurd (let clash : some r.node ≡ none = rw (hit, find) at nothing in cc)
  | inr miss ↦ rw (miss, find) (find-last p rows row (rw (miss, find) at nothing) h)
]

nodes_of-append :
    (rows more : List NodeRow) → nodes_of (rows ++ more) ≡ nodes_of rows ++ nodes_of more
nodes_of-append [] more = refl
nodes_of-append (r ∷ rows) more = ap (λ ns. r.node ∷ ns) (nodes_of-append rows more)

-- A request that was answered before is answered alike.
abbrev pub IsSameOrRefused {ℓ} : {A : Type ℓ} → Http A → Http A → Type ℓ
IsSameOrRefused before after =
    (before ≡ after) ⊎ ((status : ℕ) × (detail : String) × (before ≡ error status detail))

same-or-refused {ℓ} :
    {A : Type ℓ} (before after : Http A)
    → ((a : A) → before ≡ ok a → after ≡ ok a)
    → IsSameOrRefused before after
same-or-refused (ok a) after h = inl (sym (h a refl))
same-or-refused (error status detail) after h = inr (status, detail, refl)

-- A new node, and a token for a greater id, change no answer.
auth_node-older :
    (hash_token : String → String) (authorization : Option String) (tokens : List NodeToken)
    (t : NodeToken) (rows : List NodeRow) (row : NodeRow)
    → All (λ (r : NodeRow). r.node.id < t.node_id) rows
    → (older : Node) → auth_node hash_token authorization tokens (nodes_of rows) ≡ ok older
    → auth_node hash_token authorization (tokens ++ (t ∷ [])) (nodes_of (rows ++ (row ∷ [])))
      ≡ ok older
auth_node-older hash_token authorization tokens t rows row h older e =
    let (prefix, found) = auth_node-finds hash_token authorization tokens (nodes_of rows) older e in
    auth_node-found hash_token authorization (tokens ++ (t ∷ [])) (nodes_of (rows ++ (row ∷ [])))
      older prefix
      (ap (find (holds_token (tokens ++ (t ∷ [])) _)) (nodes_of-append rows (row ∷ []))
        ∙ find-append _ (nodes_of rows) (row.node ∷ []) older
            (find-older tokens t _ rows h ∙ found))

-- An activation with a known bootstrap token, a trimmed random token whose digest no node holds yet
-- and ids below the next one is answered: the token of the answer then authenticates the node of the
-- answer, and any header that was not refused before still authenticates the same node.
pub activate_node-auth_node :
    (hash_token : String → String) (ip_address : String → Option Address)
    (bootstrap_tokens : List String) (now : ℕ) (fresh : Fresh) (body : ActivateRequest)
    (w : NodesWorld) (authorization : Option String)
    → elem body.bootstrap_token bootstrap_tokens ≡ true
    → IsNumbered w
    → strip fresh.raw_token ≡ fresh.raw_token
    → find (holds_token w.tokens (hash_token fresh.raw_token)) (nodes_of w.rows) ≡ none
    → (answer : ActivateResponse) × (w' : NodesWorld) × (node : Node) × (activate_node hash_token
          ip_address bootstrap_tokens now fresh body w
        ≡ ok (answer, w'))
      × (node.id ≡ answer.node_id)
      × (auth_node hash_token (bearer answer.node_token) w'.tokens (nodes_of w'.rows) ≡ ok node)
      × IsSameOrRefused
          (auth_node hash_token authorization w.tokens (nodes_of w.rows))
          (auth_node hash_token authorization w'.tokens (nodes_of w'.rows))
unfolding activate_node
activate_node-auth_node hash_token ip_address bootstrap_tokens now fresh body w authorization known
      numbered trimmed unused =
    let id = w.next_node_id in
    let row : NodeRow = record {
      node = new_node id now body.node_name;
      node_key = fresh.node_key;
      region = body.region;
      country = some body.region;
      public_ip = normalize_node_public_ip ip_address body.public_ip;
      agent_version = body.agent_version;
    } in
    let token : NodeToken = record {
      node_id = id;
      token_hash = hash_token fresh.raw_token;
      revoked_at = none;
    } in
    let w' : NodesWorld = record w {
      rows = w.rows ++ (row ∷ []);
      tokens = w.tokens ++ (token ∷ []);
      next_node_id = suc id;
    } in
    let (prefix, rest) = bearer-token fresh.raw_token in
    let digest : hash_token (strip (after_space (or_empty (bearer fresh.raw_token))))
        ≡ hash_token fresh.raw_token =
      ap (λ t. hash_token (strip t)) rest ∙ ap hash_token trimmed in
    (
      record { node_id = id; node_key = fresh.node_key; node_token = fresh.raw_token },
      w',
      row.node,
      rw known refl,
      refl,
      auth_node-found hash_token (bearer fresh.raw_token) w'.tokens (nodes_of w'.rows) row.node
          prefix
          (ap (λ d. find (holds_token w'.tokens d) (nodes_of w'.rows)) digest
            ∙ find-last (holds_token w'.tokens (hash_token fresh.raw_token)) w.rows row
                (find-older w.tokens token (hash_token fresh.raw_token) w.rows numbered ∙ unused)
                (holds-new w.tokens token (hash_token fresh.raw_token) row.node (ground arith)
                  (eq_refl (hash_token fresh.raw_token)) refl)),
      same-or-refused (auth_node hash_token authorization w.tokens (nodes_of w.rows)) _
          (auth_node-older hash_token authorization w.tokens token w.rows row numbered),
    )
