-- ===== src/Nodes/Config/Again.antt =====
-- The users of a node that are built again from the lines that the first build left:
-- _build_client_ingress of gfc-platform/control-plane/api/app/node_config.py.
use sip_proxy.Common.{
  ℕ, String, ◌≡◌, refl, false, some, List, [], ◌∷◌, inl, inr, Bool-cases, Option-cases, str_eq,
}
use sip_proxy.Common.Text.{strip, or_empty}
use sip_proxy.Common.Text.Strip.{strip_idem}
use sip_proxy.Nodes.Monitor.{SocksProfile}
use sip_proxy.Nodes.Config.{
  Line, ensure_line_hy2_password, make_user, user_uuid, build_client_ingress,
}

-- A password of the generator is neither empty nor trimmed.
abbrev pub Makes : (ℕ → String) → Type 0
Makes new_password =
    (id : ℕ) → (strip (new_password id) ≡ new_password id) × (str_eq (new_password id) "" ≡ false)

module _ (new_password other_password : ℕ → String) (makes : Makes new_password)
    (socks : List SocksProfile) where
  -- The line with the password that it is told.
  abbrev told : Line → String → Line
  told line password = record line { hy2_password = some password }

  ensure-kept :
      (line : Line)
      → ensure_line_hy2_password other_password
          (told line (ensure_line_hy2_password new_password line))
        ≡ ensure_line_hy2_password new_password line
  unfolding ensure_line_hy2_password
  ensure-kept line = elim (Bool-cases (str_eq (strip (or_empty line.hy2_password)) "")) [
    | inl empty ↦
        let (trimmed, given) = makes line.id in
        rw (empty, ensure_line_hy2_password) (rw (trimmed, given) refl)
    | inr has ↦
        let same = strip_idem (or_empty line.hy2_password) in
        rw (has, ensure_line_hy2_password) (rw (same, has) refl)
  ]

  -- Where every password of the generator is trimmed and not empty, the users that are built again from
  -- the lines that a first build left are those of the first build, and the lines stay as they are,
  -- whatever passwords the generator makes then: a node is told the same users at every poll.
  pub build_client_ingress-again :
      (lines : List Line)
      → build_client_ingress other_password socks (build_client_ingress new_password socks lines).1
        ≡ build_client_ingress new_password socks lines
  unfolding build_client_ingress make_user user_uuid
  build_client_ingress-again [] = refl
  build_client_ingress-again (line ∷ lines) = elim (Option-cases (user_uuid line)) [
    | inl none_of ↦
        rw (none_of, build_client_ingress) (rw (none_of, build_client_ingress-again lines) refl)
    | inr (uuid, has) ↦
        rw (has, build_client_ingress)
          (rw (has, ensure-kept line, build_client_ingress-again lines) refl)
  ]
