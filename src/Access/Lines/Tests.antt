-- ===== src/Access/Lines/Tests.antt =====
-- The theorems on lines, at concrete requests.
use sip_proxy.Common.{
  ◌≡◌, ◌≢◌, inl, inr, refl, ap, str_eq, arith, true, false, none, some, List, map, [], ◌∷◌,
}
use sip_proxy.Common.Text.{elem, concat, strip, lower}
use sip_proxy.Common.Dict.{lookup, str, null}
use sip_proxy.Access.Roles.{assert_role_action, normalize_role}
use sip_proxy.Access.Users.{PlatformUser}
use sip_proxy.Access.Lines.{LineRow, NodeInfo, LinesDb, LineCreateIn, Making, tids_of}
use sip_proxy.Access.Tids.{gen_tid, unique_tid, sanitize_tid_label}
use sip_proxy.Access.Lines.Routable.{
  LineCall, handle_line, create, update, run_lines, AllRoutable, run_lines-Routable,
}
use sip_proxy.Access.Tids.Fresh.{unique_tid-new}

abbrev operator : PlatformUser
operator = record {
  id = 2;
  username = "wang";
  password_hash = none;
  role = "operator";
  is_active = true;
}

abbrev making : Making
making = record {
  day = "20250101";
  suffix = "Ab3dE9";
  random = λ n. "c0";
  client_uuid = "0b52";
  default_reality = "reality";
  default_hy2 = none;
  line_code = λ columns node. "CODE";
}

abbrev hong_kong : NodeInfo
hong_kong = record {
  id = 4;
  name = "hk";
  region = "HK";
  country = none;
  reality_config = none;
  hysteria2_config = none;
}

abbrev tables : LinesDb
tables = record {
  lines = [];
  nodes = hong_kong ∷ [];
  socks_ids = 8 ∷ [];
  next_line_id = 1;
  log = [];
}

-- A forward line through the exit of number 8.
abbrev forward_body : LineCreateIn
forward_body = record {
  name = some "office 1";
  source_cidrs = "10.0.0.0/24" ∷ [];
  node_id = 4;
  socks_profile_id = some 8;
  line_type = "forward";
  country = "";
  bandwidth_mbps = 5;
  live_mode = "standard";
  hy2_brutal_enabled = true;
  live_platforms = [];
  remark = none;
  socks_remark = none;
  created_by = "wang";
}

abbrev calls : List (LineCall × PlatformUser)
calls =
    (create making forward_body, operator)
    ∷ (create making (record forward_body { line_type = "client" }), operator)
    ∷ (update 1 (("remark", str "moved") ∷ []), operator)
    ∷ []

label_test : sanitize_tid_label "  -office  №1. " ≡ "office-1"
unfolding sanitize_tid_label
label_test = refl

gen_tid_test : gen_tid "20250101" "Ab3dE9" (some "№") ≡ "TID-20250101-Ab3dE9"
unfolding gen_tid
gen_tid_test = refl

-- Two lines of the same name.
tids_test :
    tids_of (run_lines calls tables).lines
    ≡ ("TID-20250101-office-1-c0" ∷ "TID-20250101-office-1" ∷ [])
unfolding run_lines handle_line assert_role_action normalize_role lower
tids_test = refl

operator-not_admin : normalize_role (some "operator") ≢ "admin"
unfolding normalize_role strip lower
operator-not_admin e = absurd (let clash : false ≡ true = ap (λ role. str_eq role "admin") e in cc)

-- An administrator takes the exit of a forward line away.
exit_cleared_test :
    map
      (λ (l : LineRow). lookup "socks_profile_id" l.columns)
      (run_lines
        ((create making forward_body, operator)
          ∷ (update 1 (("socks_profile_id", null) ∷ []), record operator { role = "admin" })
          ∷ [])
        tables).lines
    ≡ (some null ∷ [])
unfolding run_lines handle_line lookup assert_role_action normalize_role lower
exit_cleared_test = refl

run_lines-Routable_example : AllRoutable (run_lines calls tables)
run_lines-Routable_example =
    run_lines-Routable calls tables (inr refl, (inl refl, (operator-not_admin, tt))) tt

unique_tid-new_example :
    elem (unique_tid (λ n. "c0") "TID-20250101-a" ("TID-20250101-a" ∷ [])) ("TID-20250101-a" ∷ [])
    ≡ false
unfolding concat
unique_tid-new_example =
    unique_tid-new (λ n. "c0") "TID-20250101-a" ("TID-20250101-a" ∷ []) (inr (0, omega arith, refl))
