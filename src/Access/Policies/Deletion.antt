-- ===== src/Access/Policies/Deletion.antt =====
-- Who may delete a client device.
use sip_proxy.Common.{ℕ, ◌≡◌, Bool, false, none}
use sip_proxy.Client.Models.{ClientDevice}
use sip_proxy.Client.Sessions.{session_active}

-- A device that is offline, has no line and no session.
abbrev pub IsAbandoned : ℕ → ClientDevice → Bool → Type 0
IsAbandoned now device online =
    (online ≡ false) × (device.line_id ≡ none) × (session_active now device ≡ false)
