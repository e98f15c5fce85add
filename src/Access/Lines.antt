-- ===== src/Access/Lines.antt =====
-- The lines as the web interface makes and changes them, create_line and update_line of
-- gfc-platform/control-plane/api/app/admin.py behind require_action. A row holds its columns by name, as
-- setattr writes them; a column of JSON text holds its document. The random texts, the day of Beijing
-- and the text of a line code are arguments.
pub mod Columns
pub mod Routable
mod Tests
use sip_proxy.Common.{
  ℕ, zero, suc, ◌+◌, String, Bool, true, false, not, ◌&&◌, ◌||◌, Option, none, some, List, [], ◌∷◌,
  ◌++◌, any, filter, find, leb, ◌==◌, str_eq, if◌then◌else◌,
}
use Prim.Native.Char.{Char, code}
use Prim.Native.String
use sip_proxy.Common.Http.{Http, ok, error, raise_if, ◌>>=◌, ◌>>◌}
use sip_proxy.Common.Int.{pos}
use sip_proxy.Common.Dict.{
  Dict, lookup, insert, Json, null, bool, int, str, arr, Items, nil, cons, truthy,
}
use sip_proxy.Common.Text.{strip, is_space, elem, join, concat, take_text, or_empty}
use sip_proxy.Nodes.Config.{or_default, cidrs, push_new}
use sip_proxy.Access.Policies.{filter_line_update}
use sip_proxy.Access.Accounts.{OperationLog}
use sip_proxy.Access.Tids.{gen_tid, unique_tid}
use sip_proxy.Access.Users.{PlatformUser, require_action}

-- A column whose text stands for a list of identifiers.
unfoldable pub serialize_line_platforms : List String → List String
unfolding cidrs push_new
serialize_line_platforms ids = push_new [] (cidrs ids)

abbrev pub json_list : List String → Items
json_list [] = nil
json_list (s ∷ ss) = cons (str s) (json_list ss)

abbrev pub json_texts : Items → List String
json_texts nil = []
json_texts (cons (str s) items) = s ∷ json_texts items
json_texts (cons _ items) = json_texts items

abbrev pub text_or_null : Option String → Json
text_or_null none = null
text_or_null (some s) = str s

abbrev pub id_or_null : Option ℕ → Json
id_or_null none = null
id_or_null (some n) = int (pos n)

pub record LineRow : Type 0 where
  pub id : ℕ
  pub tid : String
  pub columns : Dict Json

pub record NodeInfo : Type 0 where
  pub id : ℕ
  pub name : String
  pub region : String
  pub country : Option String
  pub reality_config : Option String
  pub hysteria2_config : Option String

pub record LinesDb : Type 0 where
  pub lines : List LineRow
  pub nodes : List NodeInfo
  pub socks_ids : List ℕ
  pub next_line_id : ℕ
  pub log : List OperationLog

pub record LineCreateIn : Type 0 where
  pub name : Option String
  pub source_cidrs : List String
  pub node_id : ℕ
  pub socks_profile_id : Option ℕ
  pub line_type : String
  pub country : String
  pub bandwidth_mbps : ℕ
  pub live_mode : String
  pub hy2_brutal_enabled : Bool
  pub live_platforms : List String
  pub remark : Option String
  pub socks_remark : Option String
  pub created_by : String

-- What create_line takes from elsewhere; the defaults of a node may fail for Hysteria.
pub record Making : Type 0 where
  pub day : String
  pub suffix : String
  pub random : ℕ → String
  pub client_uuid : String
  pub default_reality : String
  pub default_hy2 : Option String
  pub line_code : Dict Json → NodeInfo → String

abbrev pub is_no_source : List String → Bool
is_no_source [] = true
is_no_source (_ ∷ _) = false

abbrev pub is_missing : Option ℕ → Bool
is_missing none = true
is_missing (some _) = false

abbrev pub is_known : Option ℕ → List ℕ → Bool
is_known none ids = true
is_known (some id) ids = any (λ n. n == id) ids

-- A configuration that is there and not empty stays.
abbrev pub or_new : Option String → Option String → Option String
or_new none new = new
or_new (some old) new = if str_eq old "" then new else some old

abbrev pub or_old_text : Option String → Option String → Option String
or_old_text none old = old
or_old_text (some new) old = some new

abbrev pub configured : Making → NodeInfo → NodeInfo
configured m node = record node {
  reality_config = or_new node.reality_config (some m.default_reality);
  hysteria2_config = or_new node.hysteria2_config (or_old_text m.default_hy2 node.hysteria2_config);
}

abbrev pub put_node : NodeInfo → List NodeInfo → List NodeInfo
put_node node [] = []
put_node node (n ∷ ns) = if n.id == node.id then node ∷ ns else n ∷ put_node node ns

abbrev pub country_of : String → NodeInfo → String
country_of country node = or_default (or_default node.region (or_empty node.country)) country

unfoldable pub new_columns : Making → LineCreateIn → NodeInfo → String → String → Dict Json
unfolding strip join serialize_line_platforms
new_columns m body node line_type tid =
    ("name", str (or_default tid (strip (or_empty body.name))))
    ∷ ("source_cidrs", str (join "," body.source_cidrs))
    ∷ ("node_id", int (pos body.node_id))
    ∷ ("socks_profile_id", id_or_null body.socks_profile_id)
    ∷ ("line_type", str line_type)
    ∷ ("client_uuid", if str_eq line_type "client" then str m.client_uuid else null)
    ∷ ("country", str (country_of body.country node))
    ∷ ("bandwidth_mbps", int (pos body.bandwidth_mbps))
    ∷ ("live_mode", str (or_default "standard" body.live_mode))
    ∷ ("hy2_brutal_enabled", bool body.hy2_brutal_enabled)
    ∷ ("live_platforms_json", arr (json_list (serialize_line_platforms body.live_platforms)))
    ∷ ("remark", text_or_null body.remark)
    ∷ ("socks_remark", text_or_null body.socks_remark)
    ∷ ("status", str "active")
    ∷ ("is_enabled", bool true)
    ∷ ("created_by", str body.created_by)
    ∷ []

-- The line code of a client line.
abbrev pub with_code : Making → NodeInfo → String → Dict Json → Dict Json
with_code m node line_type columns =
    if str_eq line_type "client"
    then insert "line_code_b32" (str (m.line_code columns node)) columns
    else columns

abbrev pub tids_of : List LineRow → List String
tids_of [] = []
tids_of (l ∷ ls) = l.tid ∷ tids_of ls

-- The row and the node after the checks have passed.
unfoldable pub add_line : Making → LineCreateIn → NodeInfo → LinesDb → LinesDb
unfolding gen_tid unique_tid new_columns insert concat
add_line m body node db =
    let line_type = or_default "client" body.line_type in
    let tid = unique_tid m.random (gen_tid m.day m.suffix body.name) (tids_of db.lines) in
    let node' = if str_eq line_type "client" then configured m node else node in
    record db {
      lines =
          record {
            id = db.next_line_id;
            tid = tid;
            columns = with_code m node' line_type (new_columns m body node line_type tid);
          }
          ∷ db.lines;
      nodes = put_node node' db.nodes;
      next_line_id = suc db.next_line_id;
      log =
          record {
            username = body.created_by;
            action = "create_line";
            target = tid;
            detail = some (concat ("node=" ∷ node.name ∷ []));
          }
          ∷ db.log;
    }

unfoldable pub create_line : Making → LineCreateIn → PlatformUser → LinesDb → Http LinesDb
unfolding require_action add_line
create_line m body operator db = do
  _ ← require_action "write_safe" operator
  elim (find (λ (n : NodeInfo). n.id == body.node_id) db.nodes) [
    | none ↦ error 400 "node not found"
    | some node ↦ do
      raise_if (not (is_known body.socks_profile_id db.socks_ids)) 400 "socks profile not found"
      raise_if
          (str_eq (or_default "client" body.line_type) "forward" && is_no_source body.source_cidrs)
          400 "forward line requires source_cidrs"
      raise_if
          (str_eq (or_default "client" body.line_type) "forward"
            && is_missing body.socks_profile_id)
          400 "forward line requires socks profile"
      ok (add_line m body node db)
  ]

unfoldable pub remove_key : String → Dict Json → Dict Json
remove_key key [] = []
remove_key key ((k, v) ∷ fields) =
    let rest = remove_key key fields in if str_eq k key then rest else (k, v) ∷ rest

-- The three rewritings of the fields that were set.
unfoldable pub joined_sources : Dict Json → Dict Json
unfolding lookup insert join
joined_sources fields = elim (lookup "source_cidrs" fields) [
  | some (arr items) ↦ insert "source_cidrs" (str (join "," (json_texts items))) fields
  | _ ↦ fields
]

abbrev pub platform_texts : Json → List String
platform_texts (arr items) = json_texts items
platform_texts _ = []

unfoldable pub stored_platforms : Dict Json → Dict Json
unfolding lookup insert remove_key serialize_line_platforms
stored_platforms fields = elim (lookup "live_platforms" fields) [
  | none ↦ fields
  | some ids ↦
      insert "live_platforms_json" (arr (json_list (serialize_line_platforms (platform_texts ids))))
        (remove_key "live_platforms" fields)
]

unfoldable pub stored_status : Dict Json → Dict Json
unfolding lookup insert truthy
stored_status fields = elim (lookup "is_enabled" fields) [
  | none ↦ fields
  | some enabled ↦ insert "status" (str (if truthy enabled then "active" else "inactive")) fields
]

-- `for k, v in data.items(): setattr(line, k, v)`
unfoldable pub set_columns : Dict Json → Dict Json → Dict Json
unfolding insert
set_columns [] columns = columns
set_columns ((k, v) ∷ fields) columns = set_columns fields (insert k v columns)

unfoldable pub replace_columns : ℕ → Dict Json → List LineRow → List LineRow
unfolding set_columns
replace_columns id fields [] = []
replace_columns id fields (l ∷ ls) =
    let rest = replace_columns id fields ls in
    if l.id == id then record l { columns = set_columns fields l.columns } ∷ ls else l ∷ rest

unfoldable pub update_line : ℕ → Dict Json → PlatformUser → LinesDb → Http LinesDb
unfolding require_action filter_line_update joined_sources stored_platforms stored_status
    replace_columns
update_line line_id body operator db = do
  _ ← require_action "write_safe" operator
  elim (find (λ (l : LineRow). l.id == line_id) db.lines) [
    | none ↦ error 404 "line not found"
    | some line ↦ do
      fields ← filter_line_update operator.role body
      ok (record db {
        lines =
            replace_columns line_id (stored_status (stored_platforms (joined_sources fields)))
              db.lines;
        log =
            record {
              username = operator.username;
              action = "update_line";
              target = line.tid;
              detail = none;
            }
            ∷ db.log;
      })
  ]
