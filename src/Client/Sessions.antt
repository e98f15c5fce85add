-- ===== src/Client/Sessions.antt =====
-- The state of a reverse SSH session, in gfc-platform/control-plane/api/app/reverse_ssh.py. `now` is
-- the value of `utc_now()`.
use sip_proxy.Common.{ℕ, Bool, false, none, some, ltb, if◌then◌else◌}
use sip_proxy.Client.Models.{ClientDevice}

unfoldable pub session_active : ℕ → ClientDevice → Bool
session_active now device = elim device.reverse_ssh_session_expires_at [
  | none ↦ false
  | some exp ↦ ltb now exp
]

pub data SessionState : Type 0 where
  idle connecting ready : SessionState

-- A report time counts by its presence: a `datetime` is always true.
unfoldable pub session_state : ℕ → ClientDevice → SessionState
unfolding session_active
session_state now device =
    if session_active now device
    then elim device.reverse_ssh_tunnel_reported_at [ none ↦ connecting | some _ ↦ ready ]
    else idle
