-- ===== src/Nodes/Tokens.antt =====
-- How a node is known by its token, _auth_node of gfc-platform/control-plane/api/app/main.py. The
-- digest of a token is an argument.
use sip_proxy.Common.{
  ℕ, String, Bool, true, false, not, ◌&&◌, Option, none, some, List, any, find, ◌==◌, str_eq,
  if◌then◌else◌,
}
use sip_proxy.Common.Http.{Http, ok, error}
use sip_proxy.Common.Text.{strip, lower, starts_with, or_empty}
use sip_proxy.Common.Text.Words.{after_space}
use sip_proxy.Nodes.Models.{Node}

pub record NodeToken : Type 0 where
  pub node_id : ℕ
  pub token_hash : String
  pub revoked_at : Option ℕ

abbrev pub is_current : Option ℕ → Bool
is_current none = true
is_current (some t) = false

-- The join's row: a token of the node that has the digest and is not revoked.
abbrev pub holds_token : List NodeToken → String → Node → Bool
holds_token tokens token_hash node =
    any
      (λ (t : NodeToken).
        t.node_id == node.id && str_eq t.token_hash token_hash && is_current t.revoked_at)
      tokens

unfoldable pub auth_node :
    (String → String) → Option String → List NodeToken → List Node → Http Node
unfolding strip lower starts_with after_space
auth_node hash_token authorization tokens nodes =
    if not (starts_with "bearer " (lower (or_empty authorization)))
    then error 401 "missing node token"
    else elim (find (holds_token tokens (hash_token (strip (after_space (or_empty authorization)))))
        nodes) [ none ↦ error 401 "invalid node token" | some node ↦ ok node ]
