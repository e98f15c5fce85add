-- ===== src/Nodes/Sanitize.antt =====
-- The services that a node's metrics show, sanitize_last_metrics of
-- gfc-platform/control-plane/api/app/metrics_util.py, where the metrics hold a dictionary of them.
use sip_proxy.Common.{String, Bool, not, ◌&&◌, ◌||◌, Option, filter, str_eq}
use sip_proxy.Common.Text.{or_empty}
use sip_proxy.Common.Dict.{Dict}
use sip_proxy.Nodes.Models.{Service}

-- `(connect_mode or "ethernet") != "openvpn"`: a missing mode is not "openvpn" either.
unfoldable pub is_hidden : Option String → String → Bool
is_hidden connect_mode svc =
    str_eq svc "nftables"
    || (str_eq svc "openvpn-backbone" && not (str_eq (or_empty connect_mode) "openvpn"))

unfoldable pub sanitize_services : Option String → Dict Service → Dict Service
sanitize_services connect_mode = filter (λ (s : String × Service). not (is_hidden connect_mode s.0))
