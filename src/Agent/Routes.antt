-- ===== src/Agent/Routes.antt =====
-- The static routes of a node, apply_static_routes of gfc-platform/node-agent/node_agent/routes.py. The
-- commands run against a machine of any type of states; what a command answers and what
-- `ip route get` prints are arguments. A route is a dictionary of texts. Where the word `dev` ends that
-- print, there is no device.
pub mod Table
use sip_proxy.Common.{
  String, Bool, true, false, not, ◌&&◌, Option, none, some, List, [], ◌∷◌, ◌++◌, str_eq,
  if◌then◌else◌,
}
use sip_proxy.Common.Dict.{Dict, lookup}
use sip_proxy.Common.Text.{strip, elem, concat, join, or_empty}
use sip_proxy.Common.Text.Words.{words}
use sip_proxy.Nodes.Config.{or_default, text_or_none, prefix_of}

-- `_run`, and the print of `ip route get`.
pub record Machine (S : Type 0) : Type 0 where
  pub run : S → List String → S × Bool × String
  pub route_get : S → String → String

abbrev pub del_route : String → List String
del_route prefix = "ip" ∷ "route" ∷ "del" ∷ prefix ∷ []

abbrev pub replace_route : String → List String → List String
replace_route prefix rest = "ip" ∷ "route" ∷ "replace" ∷ prefix ∷ rest

-- `(r.get(a) or r.get(b) or "").strip() or None`
unfoldable pub either_text : String → String → Dict String → Option String
unfolding strip lookup
either_text a b route =
    text_or_none (some (or_default (or_empty (lookup b route)) (or_empty (lookup a route))))

-- The word after `dev`.
unfoldable pub after_dev : List String → Option String
after_dev [] = none
after_dev (w ∷ []) = none
after_dev (w ∷ v ∷ ws) = let rest = after_dev (v ∷ ws) in if str_eq w "dev" then some v else rest

abbrev pub option_words : String → Option String → List String
option_words word none = []
option_words word (some value) = word ∷ value ∷ []

abbrev pub or_device : Option String → Option String → Option String
or_device none default = default
or_device (some device) default = some device

-- The prefixes of the routes that have one.
unfoldable pub prefixes : List (Dict String) → List String
unfolding lookup strip
prefixes [] = []
prefixes (r ∷ rs) =
    let rest = prefixes rs in if str_eq (prefix_of r) "" then rest else prefix_of r ∷ rest

pub record Applied (S : Type 0) : Type 0 where
  pub state : S
  pub messages : List String
  pub ok_all : Bool

module _ {S : Type 0} (machine : Machine S) where
  -- The device that the next hop is reached through, where no device is named.
  abbrev pub hop_device : S → Option String → Option String
  unfolding words after_dev
  hop_device s none = none
  hop_device s (some hop) = after_dev (words (machine.route_get s hop))

  unfoldable pub route_options : Option String → S → Dict String → List String
  unfolding either_text words after_dev
  route_options tproxy_iface s route =
      let next_hop = either_text "nextHop" "next_hop" route in
      let device = or_device (either_text "device" "iface" route) tproxy_iface in
      option_words "via" next_hop ++ option_words "dev" (or_device device (hop_device s next_hop))

  abbrev pub deleted : String → Applied S → S × Bool × String → Applied S
  unfolding concat
  deleted prefix a (s, true, out) = record a {
    state = s;
    messages = a.messages ++ (concat ("route " ∷ prefix ∷ " removed (stale)" ∷ []) ∷ []);
  }
  deleted prefix a (s, false, err) = record a {
    state = s;
    messages = a.messages ++ (concat ("route " ∷ prefix ∷ " stale del warn: " ∷ err ∷ []) ∷ []);
  }

  -- The loop over the routes of the last time.
  unfoldable pub delete_stale : List String → List (Dict String) → Applied S → Applied S
  unfolding strip lookup concat
  delete_stale new_prefixes [] a = a
  delete_stale new_prefixes (r ∷ rs) a =
      let kept = delete_stale new_prefixes rs a in
      let gone =
        delete_stale new_prefixes rs
          (deleted (prefix_of r) a (machine.run a.state (del_route (prefix_of r)))) in
      if str_eq (prefix_of r) ""
      then kept
      else if elem (prefix_of r) new_prefixes
      then kept
      else gone

  abbrev pub replaced : String → Applied S → S × Bool × String → Applied S
  unfolding concat
  replaced prefix a (s, true, out) = record a {
    state = s;
    messages = a.messages ++ (concat ("route " ∷ prefix ∷ " ok" ∷ []) ∷ []);
  }
  replaced prefix a (s, false, err) = record {
    state = s;
    messages = a.messages ++ (concat ("route " ∷ prefix ∷ " fail: " ∷ err ∷ []) ∷ []);
    ok_all = false;
  }

  -- The loop over the new routes.
  unfoldable pub put_routes : Option String → List (Dict String) → Applied S → Applied S
  unfolding strip lookup route_options concat
  put_routes tproxy_iface [] a = a
  put_routes tproxy_iface (r ∷ rs) a =
      let skipped = put_routes tproxy_iface rs a in
      let put = put_routes tproxy_iface rs (
        replaced (prefix_of r) a (
          machine.run a.state
            (replace_route (prefix_of r) (route_options tproxy_iface a.state r)))) in
      if str_eq (prefix_of r) "" then skipped else put

  abbrev pub none_configured : List (Dict String) → List String → List String
  none_configured [] messages = messages ++ ("no static routes configured" ∷ [])
  none_configured (_ ∷ _) messages = messages

  -- The state of the machine and the answer; the file that is read at the start and written holds
  -- `previous`, and `routes` after it.
  unfoldable pub apply_static_routes :
      Option String → List (Dict String) → List (Dict String) → S → S × Bool × String
  unfolding prefixes delete_stale put_routes join
  apply_static_routes tproxy_iface previous routes s =
      let start : Applied S = record { state = s; messages = []; ok_all = true } in
      let done = put_routes tproxy_iface routes (delete_stale (prefixes routes) previous start) in
      (done.state, done.ok_all, join "; " (none_configured routes done.messages))
