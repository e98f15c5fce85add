-- ===== src/Client/Heartbeat/Commands.antt =====
-- Commands and tokens of a heartbeat, client_heartbeat and _auth_client of
-- gfc-platform/control-plane/api/app/clients.py.
use sip_proxy.Common.{
  ℕ, String, ◌≡◌, ◌↔◌, refl, false, ◌&&◌, none, some, List, [], ◌∷◌, arith, inl, inr, Bool-cases,
  any, map, ◌==◌, str_eq, eq_iff,
}
use sip_proxy.Client.Models.{ClientDevice, PendingCommand}
use sip_proxy.Client.Activation.{ClientToken, is_none}
use sip_proxy.Client.Heartbeat.{Ack, ack_command, complete_command, is_acked}

complete_command-pending :
    (now : ℕ) (ack : Ack) (p : PendingCommand) (d : ClientDevice)
    → (complete_command now ack p d).pending_command ≡ d.pending_command
unfolding complete_command
complete_command-pending now ack p d = ground arith

-- A pending command is cleared exactly when the device acknowledges it by its request id, and that id
-- is not empty.
pub ack_command-cleared_iff :
    (now : ℕ) (ack : Ack) (p : PendingCommand) (d : ClientDevice)
    → d.pending_command ≡ some p
    → ((ack_command now (some ack) d).pending_command ≡ none)
      ↔ ((ack.request_id ≡ p.request_id) × (str_eq ack.request_id "" ≡ false))
unfolding ack_command
ack_command-cleared_iff now ack p d e = elim (Bool-cases (is_acked ack p)) [
  | inl acked ↦ (
    λ _. (ground (arith, eq_iff ack.request_id p.request_id), ground arith),
    λ _. rw (e, acked) (complete_command-pending now ack p (record d { pending_command = none })),
  )
  | inr not_acked ↦ (
    λ h. absurd (let k : d.pending_command ≡ none = rw (e, not_acked, ack_command) at h in cc),
    λ h. absurd (ground (arith, eq_iff ack.request_id p.request_id)),
  )
]

-- The same token with another time of expiry.
abbrev pub expire : ℕ → ClientToken → ClientToken
expire time t = record t { expires_at = time }

module _ (hashed : String) (time : ℕ) where
  any-expire :
      (id : ℕ) (tokens : List ClientToken)
      → any
          (λ (t : ClientToken).
            t.device_id == id && str_eq t.token_hash hashed && is_none t.revoked_at)
          (map (expire time) tokens)
        ≡ any
            (λ (t : ClientToken).
              t.device_id == id && str_eq t.token_hash hashed && is_none t.revoked_at)
            tokens
  any-expire id [] = refl
  any-expire id (t ∷ ts) = rw (any-expire id ts) refl
