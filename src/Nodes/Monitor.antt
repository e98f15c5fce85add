-- ===== src/Nodes/Monitor.antt =====
-- The background monitor, gfc-platform/control-plane/api/app/monitor.py: alerts for nodes that go
-- offline and for SOCKS exits that stop answering. The probe of an exit and the printing of a date
-- are arguments; `online_state` is the dictionary that the loop keeps from tick to tick.
pub mod Ticks
use sip_proxy.Common.{
  ℕ, String, Bool, true, false, not, ◌&&◌, Option, none, some, List, [], ◌∷◌, ◌==◌, str_eq,
  if◌then◌else◌,
}
use sip_proxy.Common.Text.{concat, or_empty}
use sip_proxy.Common.Text.Numbers.{show}
use sip_proxy.Nodes.Models.{Node, node_is_online}
use sip_proxy.Nodes.Alerts.{Settings, Outbox, Mail, emit_alert, emit_and_mail}

pub record SocksProfile : Type 0 where
  pub id : ℕ
  pub name : String
  pub host : String
  pub port : ℕ
  pub username : Option String
  pub password : Option String
  pub is_healthy : Bool

unfoldable pub format_socks_address : String → ℕ → Option String → Option String → String
unfolding concat show
format_socks_address host port username password =
    let user = or_empty username in
    if str_eq user ""
    then concat (host ∷ ":" ∷ show port ∷ [])
    else concat (user ∷ ":" ∷ or_empty password ∷ "@" ∷ host ∷ ":" ∷ show port ∷ [])

abbrev pub OnlineState : Type 0
OnlineState = List (ℕ × Bool)

-- `online_state.get(id)`
unfoldable pub get_state : ℕ → OnlineState → Option Bool
get_state id [] = none
get_state id ((k, v) ∷ rest) = if k == id then some v else get_state id rest

-- `online_state[id] = online`
unfoldable pub set_state : ℕ → Bool → OnlineState → OnlineState
set_state id online [] = (id, online) ∷ []
set_state id online ((k, v) ∷ rest) =
    let behind = set_state id online rest in if k == id then (k, online) ∷ rest else (k, v) ∷ behind

-- `isoformat()` of the last heartbeat, or "never"
abbrev pub last_heartbeat : (ℕ → String) → Option ℕ → String
last_heartbeat isoformat none = "never"
last_heartbeat isoformat (some seen) = isoformat seen

unfoldable pub offline_message : (ℕ → String) → Node → String
unfolding concat show
offline_message isoformat node = concat (
    "Node "
    ∷ node.name
    ∷ "(#"
    ∷ show node.id
    ∷ ") offline — last heartbeat "
    ∷ last_heartbeat isoformat node.last_seen_at
    ∷ [])

-- `prev and not online`
abbrev pub goes_offline : Option Bool → Bool → Bool
goes_offline none online = false
goes_offline (some prev) online = prev && not online

-- One round of the loop over the nodes.
unfoldable pub check_node_offline :
    (ℕ → String) → Settings → ℕ → Node → OnlineState × Outbox → OnlineState × Outbox
unfolding offline_message concat
check_node_offline isoformat settings now node (state, out) =
    let online = node_is_online settings.node_offline_threshold_seconds now node in
    (
      set_state node.id online state,
      if goes_offline (get_state node.id state) online
          then emit_and_mail settings now (some node.id) none "critical" "node_offline"
              (offline_message isoformat node) (concat ("[GFC] Node offline: " ∷ node.name ∷ []))
              out
          else out,
    )

unfoldable pub check_nodes_offline :
    (ℕ → String) → Settings → ℕ → List Node → OnlineState × Outbox → OnlineState × Outbox
check_nodes_offline isoformat settings now [] s = s
check_nodes_offline isoformat settings now (node ∷ nodes) s =
    check_nodes_offline isoformat settings now nodes
      (check_node_offline isoformat settings now node s)

unfoldable pub socks_type : SocksProfile → String
unfolding concat show
socks_type sp = concat ("socks_down_" ∷ show sp.id ∷ [])

unreachable_message : SocksProfile → String → String
unfolding concat format_socks_address
unreachable_message sp detail = concat (
    "SOCKS "
    ∷ sp.name
    ∷ " ("
    ∷ format_socks_address sp.host sp.port sp.username sp.password
    ∷ ") unreachable: "
    ∷ detail
    ∷ [])

-- The log and the mail when an exit stops answering: the mail goes out whether or not a row is added.
unfoldable pub report_socks : Settings → ℕ → SocksProfile → String → Outbox → Outbox
unfolding socks_type unreachable_message concat
report_socks settings now sp detail out =
    let message = unreachable_message sp detail in
    record out {
      added =
          (emit_alert settings now none none "warn" (socks_type sp) message out.events out.added).0;
      mails = (concat ("[GFC] SOCKS offline: " ∷ sp.name ∷ []), message) ∷ out.mails;
    }

-- `probe` answers whether the exit works, and a text; the rows come back with their new state.
unfoldable pub probe_all_socks :
    (SocksProfile → Bool × String)
    → Settings
    → ℕ
    → List SocksProfile
    → Outbox
    → List SocksProfile × Outbox
unfolding report_socks
probe_all_socks probe settings now [] out = ([], out)
probe_all_socks probe settings now (sp ∷ rows) out =
    let (works, detail) = probe sp in
    let (rows', out') =
      probe_all_socks probe settings now rows
        (if sp.is_healthy && not works then report_socks settings now sp detail out else out) in
    (record sp { is_healthy = works } ∷ rows', out')
