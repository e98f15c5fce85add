-- ===== src/Nodes/Config.antt =====
-- What a forward node is told of its lines, gfc-platform/control-plane/api/app/node_config.py: the
-- rules of forward lines, the users of client lines and the routes back. A route is a dictionary of
-- texts; the platforms of a line are the list that its JSON text says. `new_password` is what
-- generate_hy2_password of hy2_util.py makes for the line of an id.
pub mod Again
pub mod Split
mod Tests
use sip_proxy.Common.{
  ℕ, String, Bool, true, false, not, ◌&&◌, Option, none, some, List, [], ◌∷◌, ◌++◌, filter, find,
  ◌==◌, str_eq, if◌then◌else◌,
}
use Prim.Native.Char.{code}
use Prim.Native.String
use sip_proxy.Common.Text.{strip, lower, elem, or_empty}
use sip_proxy.Common.Dict.{Dict, lookup}
use sip_proxy.Nodes.Monitor.{SocksProfile}

pub record Line : Type 0 where
  pub id : ℕ
  pub tid : String
  pub name : String
  pub source_cidrs : String
  pub socks_profile_id : Option ℕ
  pub line_type : String
  pub client_uuid : Option String
  pub bandwidth_mbps : ℕ
  pub is_enabled : Bool
  pub socks_udp_over_tcp : Bool
  pub live_mode : Option String
  pub live_platforms : List String
  pub hy2_password : Option String
  pub hy2_brutal_enabled : Bool

-- `value or default` for a text
abbrev pub or_default : String → String → String
or_default default s = if str_eq s "" then default else s

-- `s.split(",")`
unfoldable pub split_commas : String → List String
split_commas String.[] = "" ∷ []
split_commas (String.◌∷◌ c s) = elim (split_commas s) [
  | [] ↦ (String.◌∷◌ c String.[]) ∷ []
  | w ∷ ws ↦ if code c == 44 then "" ∷ w ∷ ws else (String.◌∷◌ c w) ∷ ws
]

-- The trimmed texts that are not empty.
unfoldable pub cidrs : List String → List String
unfolding strip
cidrs [] = []
cidrs (c ∷ cs) = let rest = cidrs cs in if str_eq (strip c) "" then rest else strip c ∷ rest

-- `seen` holds what is in the list.
unfoldable pub push_new : List String → List String → List String
push_new out [] = out
push_new out (c ∷ cs) = if elem c out then push_new out cs else push_new (out ++ (c ∷ [])) cs

unfoldable pub collect_onto : List String → List Line → List String
unfolding split_commas cidrs push_new
collect_onto out [] = out
collect_onto out (line ∷ lines) =
    if not line.is_enabled
    then collect_onto out lines
    else if str_eq (or_default "client" line.line_type) "client"
    then collect_onto out lines
    else collect_onto (push_new out (cidrs (split_commas line.source_cidrs))) lines

unfoldable pub collect_line_cidrs : List Line → List String
unfolding collect_onto
collect_line_cidrs lines = collect_onto [] lines

abbrev pub prefix_of : Dict String → String
prefix_of route = strip (or_empty (lookup "prefix" route))

-- The manual routes whose prefix is no automatic one.
unfoldable pub keep_manual : List String → List (Dict String) → List (Dict String)
unfolding strip lookup
keep_manual auto [] = []
keep_manual auto (r ∷ rs) =
    let rest = keep_manual auto rs in
    if not (str_eq (prefix_of r) "") && elem (prefix_of r) auto then rest else r ∷ rest

abbrev pub auto_route : String → String → Dict String
auto_route device prefix =
    ("prefix", prefix) ∷ ("device", device) ∷ ("comment", "auto: openvpn return path") ∷ []

unfoldable pub auto_routes : String → List String → List (Dict String)
auto_routes device [] = []
auto_routes device (p ∷ ps) = auto_route device p ∷ auto_routes device ps

unfoldable pub merge_static_routes : List (Dict String) → List String → String → List (Dict String)
unfolding cidrs keep_manual auto_routes
merge_static_routes manual auto_prefixes device =
    keep_manual (cidrs auto_prefixes) manual ++ auto_routes device (cidrs auto_prefixes)

pub record Socks : Type 0 where
  pub host : String
  pub port : ℕ
  pub username : Option String
  pub password : Option String
  pub udp_over_tcp : Bool

-- `(value or "").strip() or None`
abbrev pub text_or_none : Option String → Option String
text_or_none s = if str_eq (strip (or_empty s)) "" then none else some (strip (or_empty s))

abbrev pub socks_of : Line → SocksProfile → Socks
socks_of line sp = record {
  host = strip sp.host;
  port = sp.port;
  username = text_or_none sp.username;
  password = text_or_none sp.password;
  udp_over_tcp = line.socks_udp_over_tcp;
}

-- `socks_by_id.get(line.socks_profile_id)`, where the line has one
abbrev pub profile_of : List SocksProfile → Line → Option SocksProfile
profile_of socks line = elim line.socks_profile_id [
  | none ↦ none
  | some id ↦ find (λ (sp : SocksProfile). sp.id == id) socks
]

pub record Rule : Type 0 where
  pub line_id : ℕ
  pub tid : String
  pub line_name : String
  pub source_cidrs : List String
  pub socks : Socks

unfoldable pub build_forward_rules : List SocksProfile → List Line → List Rule
unfolding split_commas cidrs strip
build_forward_rules socks [] = []
build_forward_rules socks (line ∷ lines) =
    let rest = build_forward_rules socks lines in
    if not line.is_enabled
    then rest
    else if str_eq (or_default "client" line.line_type) "client"
    then rest
    else elim (profile_of socks line) [
      | none ↦ rest
      | some sp ↦
          record {
            line_id = line.id;
            tid = line.tid;
            line_name = line.name;
            source_cidrs = cidrs (split_commas line.source_cidrs);
            socks = socks_of line sp;
          }
          ∷ rest
    ]

abbrev pub live_modes : List String
live_modes = "standard" ∷ "live_all_hy2" ∷ "live_catalog" ∷ []

unfoldable pub normalize_live_mode : Option String → String
unfolding strip lower
normalize_live_mode raw =
    let mode = lower (strip (or_default "standard" (or_empty raw))) in
    if elem mode live_modes then mode else "standard"

unfoldable pub parse_line_platforms : Line → List String
unfolding cidrs push_new
parse_line_platforms line = push_new [] (cidrs line.live_platforms)

unfoldable pub ensure_line_hy2_password : (ℕ → String) → Line → String
unfolding strip
ensure_line_hy2_password new_password line =
    let pw = strip (or_empty line.hy2_password) in if str_eq pw "" then new_password line.id else pw

pub data Outbound : Type 0 where
  direct : Outbound
  through : Socks → Outbound

abbrev pub outbound_of : List SocksProfile → Line → Outbound
outbound_of socks line = elim (profile_of socks line) [
  | none ↦ direct
  | some sp ↦ through (socks_of line sp)
]

pub record User : Type 0 where
  pub line_id : ℕ
  pub tid : String
  pub line_name : String
  pub uuid : String
  pub flow : String
  pub bandwidth_mbps : ℕ
  pub live_mode : String
  pub live_platforms : List String
  pub hy2_password : String
  pub hy2_brutal : Bool
  pub outbound : Outbound

abbrev pub given_text : Option String → Option String
given_text none = none
given_text (some s) = if str_eq s "" then none else some s

-- The id of the user of a line, where it has one.
unfoldable pub user_uuid : Line → Option String
user_uuid line =
    if not line.is_enabled
    then none
    else if not (str_eq (or_default "forward" line.line_type) "client")
    then none
    else given_text line.client_uuid

unfoldable pub make_user : List SocksProfile → Line → String → String → User
unfolding normalize_live_mode parse_line_platforms strip
make_user socks line uuid password = record {
  line_id = line.id;
  tid = line.tid;
  line_name = line.name;
  uuid = uuid;
  flow = "xtls-rprx-vision";
  bandwidth_mbps = line.bandwidth_mbps;
  live_mode = normalize_live_mode line.live_mode;
  live_platforms = parse_line_platforms line;
  hy2_password = password;
  hy2_brutal = line.hy2_brutal_enabled;
  outbound = outbound_of socks line;
}

-- The users, and the lines with the passwords that were made for them.
unfoldable pub build_client_ingress :
    (ℕ → String) → List SocksProfile → List Line → List User × List Line
unfolding user_uuid make_user ensure_line_hy2_password
build_client_ingress new_password socks [] = ([], [])
build_client_ingress new_password socks (line ∷ lines) =
    let (users, kept) = build_client_ingress new_password socks lines in
    let password = ensure_line_hy2_password new_password line in
    elim (user_uuid line) [
      | none ↦ (users, line ∷ kept)
      | some uuid ↦ (
        make_user socks line uuid password ∷ users,
        record line { hy2_password = some password } ∷ kept,
      )
    ]
