-- ===== src/Client/Custody/Lines.antt =====
-- The deletion of a line, delete_line of gfc-platform/control-plane/api/app/admin.py.
use sip_proxy.Common.{
  ℕ, String, not, none, some, List, [], ◌∷◌, filter, find, ◌==◌, str_eq, if◌then◌else◌,
}
use sip_proxy.Common.Text.{concat}
use sip_proxy.Common.Http.{Http, ok, error}
use sip_proxy.Client.Models.{ClientDevice}
use sip_proxy.Client.Tables.{World, Line}
use sip_proxy.Client.Activation.{holder}
use sip_proxy.Client.Custody.{log_op}

abbrev pub or_key_name : ClientDevice → String
or_key_name d = if str_eq d.name "" then d.device_key else d.name

unfoldable pub remove_line : ℕ → List Line → List Line
remove_line id = filter (λ (l : Line). not (l.id == id))

unfoldable pub delete_line : String → ℕ → World → Http World
unfolding remove_line concat
delete_line operator line_id w = elim (find (λ (l : Line). l.id == line_id) w.lines) [
  | none ↦ error 404 "line not found"
  | some line ↦ elim (holder line_id w.db.devices) [
    | some bound ↦
        error 400
          (concat ("线路 " ∷ line.tid ∷ " 仍绑定客户端「" ∷ or_key_name bound ∷ "」，请先在客户端管理中解绑后再删除" ∷ []))
    | none ↦ ok (
        log_op (record { username = operator; role = "" }) "delete_line" line.tid none
          (record w { lines = remove_line line.id w.lines }))
  ]
]
