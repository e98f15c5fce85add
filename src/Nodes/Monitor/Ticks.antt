-- ===== src/Nodes/Monitor/Ticks.antt =====
-- The monitor from tick to tick, check_nodes_offline of
-- gfc-platform/control-plane/api/app/monitor.py.
use sip_proxy.Common.{
  ℕ, ◌≡◌, refl, Bool, true, false, none, some, List, [], ◌∷◌, ◌==◌, if◌then◌else◌, arith, inl, inr,
  Bool-cases, All, All-elem, any, ◌∙◌, String,
}
use mathlib.Core.List.{Memᴰ}
use sip_proxy.Nodes.Models.{Node, node_is_online}
use sip_proxy.Nodes.Alerts.{
  AlertEvent, Settings, Outbox, log_of, commit_alerts, emit_and_mail, is_duplicate, window,
}
use sip_proxy.Nodes.Alerts.Dedup.{emit_alert-recent, emit_alert-keeps}
use sip_proxy.Nodes.Alerts.Services.{IsReported}
use sip_proxy.Nodes.Monitor.{
  OnlineState, get_state, set_state, goes_offline, check_node_offline, check_nodes_offline,
}

-- No two nodes have the same id.
abbrev pub UniqueIds : List Node → Type 0
UniqueIds [] = Unit
UniqueIds (n ∷ ns) = All (λ (m : Node). (m.id == n.id) ≡ false) ns × UniqueIds ns

pub get-set_state :
    (id other : ℕ) (online : Bool) (state : OnlineState)
    → get_state other (set_state id online state)
      ≡ (if id == other then some online else get_state other state)
unfolding get_state set_state
get-set_state id other online [] = refl
get-set_state id other online ((k, v) ∷ rest) = ground (arith, get-set_state id other online rest)

module _ (isoformat : ℕ → String) (settings : Settings) (now : ℕ) where
  abbrev pub online : Node → Bool
  online node = node_is_online settings.node_offline_threshold_seconds now node

  state-others :
      (id : ℕ) (nodes : List Node) (s : OnlineState × Outbox)
      → All (λ (m : Node). (m.id == id) ≡ false) nodes
      → get_state id (check_nodes_offline isoformat settings now nodes s).0 ≡ get_state id s.0
  unfolding check_nodes_offline check_node_offline
  state-others id [] s h = refl
  state-others id (n ∷ ns) s (h, hs) =
      state-others id ns (check_node_offline isoformat settings now n s) hs
      ∙ (get-set_state n.id id (online n) s.0 ∙ rw h refl)

  -- After a tick the state of every node is whether it is online, where the ids are distinct.
  pub check_nodes_offline-state :
      (nodes : List Node) (s : OnlineState × Outbox)
      → UniqueIds nodes
      → All
          (λ (m : Node).
            get_state m.id (check_nodes_offline isoformat settings now nodes s).0 ≡ some (online m))
          nodes
  unfolding check_nodes_offline check_node_offline
  check_nodes_offline-state [] s u = tt
  check_nodes_offline-state (n ∷ ns) s (a, u) = (
    state-others n.id ns (check_node_offline isoformat settings now n s) a
        ∙ (get-set_state n.id n.id (online n) s.0 ∙ ground arith),
    check_nodes_offline-state ns (check_node_offline isoformat settings now n s) u,
  )

  -- No node of the list goes offline.
  abbrev pub Quiet : OnlineState → List Node → Type 0
  Quiet state = All (λ (m : Node). goes_offline (get_state m.id state) (online m) ≡ false)

  Quiet-set_state :
      (id : ℕ) (v : Bool) (state : OnlineState) (nodes : List Node)
      → All (λ (m : Node). (m.id == id) ≡ false) nodes
      → Quiet state nodes
      → Quiet (set_state id v state) nodes
  Quiet-set_state id v state [] a q = tt
  Quiet-set_state id v state (n ∷ ns) (a, as') (q, qs) = (
    let e : get_state n.id (set_state id v state) ≡ get_state n.id state =
          get-set_state id n.id v state
          ∙ (let d : (id == n.id) ≡ false = ground arith in rw d refl) in
        rw e q,
    Quiet-set_state id v state ns as' qs,
  )

  -- Where no node goes offline a tick writes no alert and sends no mail.
  pub check_nodes_offline-Quiet :
      (nodes : List Node) (s : OnlineState × Outbox)
      → UniqueIds nodes
      → Quiet s.0 nodes
      → (check_nodes_offline isoformat settings now nodes s).1 ≡ s.1
  unfolding check_nodes_offline check_node_offline
  check_nodes_offline-Quiet [] s u q = refl
  check_nodes_offline-Quiet (n ∷ ns) s (a, u) (q, qs) =
      check_nodes_offline-Quiet ns (check_node_offline isoformat settings now n s) u
        (Quiet-set_state n.id (online n) s.0 ns a qs)
      ∙ rw q refl

  tick-keeps :
      (p : AlertEvent → Bool) (nodes : List Node) (s : OnlineState × Outbox)
      → any p (log_of s.1) ≡ true
      → any p (log_of (check_nodes_offline isoformat settings now nodes s).1) ≡ true
  unfolding check_nodes_offline check_node_offline emit_and_mail
  tick-keeps p [] s h = h
  tick-keeps p (n ∷ ns) s h =
      tick-keeps p ns (check_node_offline isoformat settings now n s)
        (elim (Bool-cases (goes_offline (get_state n.id s.0) (online n))) [
          | inl gone ↦
              rw gone
                (emit_alert-keeps p settings now (some n.id) none _ _ _ s.1.events s.1.added h)
          | inr stays ↦ rw stays h
        ])

  node-reports :
      (n : Node) (s : OnlineState × Outbox)
      → get_state n.id s.0 ≡ some true
      → online n ≡ false
      → IsReported settings now n.id "node_offline"
          (log_of (check_node_offline isoformat settings now n s).1)
  unfolding check_node_offline emit_and_mail
  node-reports n s g o =
      rw (g, o)
        (emit_alert-recent settings now (some n.id) none _ "node_offline" _ s.1.events s.1.added)

  -- A node that was online at the last tick and is not online at this one has a recent alert in the log
  -- after it, where the ids of the nodes are distinct.
  pub check_nodes_offline-reports :
      (node : Node) (nodes : List Node) (s : OnlineState × Outbox)
      → UniqueIds nodes
      → Memᴰ node nodes
      → get_state node.id s.0 ≡ some true
      → online node ≡ false
      → IsReported settings now node.id "node_offline"
          (log_of (check_nodes_offline isoformat settings now nodes s).1)
  unfolding check_nodes_offline check_node_offline emit_and_mail
  check_nodes_offline-reports node [] s u m g o = elim m [ ]
  check_nodes_offline-reports node (n ∷ ns) s (a, u) (Memᴰ.head e) g o =
      tick-keeps (is_duplicate (window settings) now (some node.id) none "node_offline") ns
        (check_node_offline isoformat settings now n s)
        (rw e (node-reports n s (rw e at g) (rw e at o)))
  check_nodes_offline-reports node (n ∷ ns) s (a, u) (Memᴰ.tail m) g o =
      let d : (n.id == node.id) ≡ false =
        (let b : (node.id == n.id) ≡ false =
            All-elem (λ (k : Node). (k.id == n.id) ≡ false) node ns m a in
          ground arith) in
      check_nodes_offline-reports node ns (check_node_offline isoformat settings now n s) u m
        (get-set_state n.id node.id (online n) s.0 ∙ (rw d g)) o

settled :
    (isoformat : ℕ → String) (settings : Settings) (now later : ℕ) (state : OnlineState)
    (nodes : List Node)
    → All (λ (m : Node). get_state m.id state ≡ some (online isoformat settings now m)) nodes
    → All (λ (m : Node). online isoformat settings later m ≡ online isoformat settings now m) nodes
    → Quiet isoformat settings later state nodes
settled isoformat settings now later state [] h same = tt
settled isoformat settings now later state (n ∷ ns) (h, hs) (e, es) = (
  rw (h, e) (stays (online isoformat settings now n)),
  settled isoformat settings now later state ns hs es,
)
  where
    stays : (b : Bool) → goes_offline (some b) b ≡ false
    stays true = refl
    stays false = refl

-- A tick at any later or earlier time, after the commit of another, writes no alert and sends no mail
-- where every node is online at both times or at neither and the ids are distinct.
pub check_nodes_offline-again :
    (isoformat : ℕ → String) (settings : Settings) (now later : ℕ) (nodes : List Node)
    (s : OnlineState × Outbox)
    → UniqueIds nodes
    → All
        (λ (m : Node).
          node_is_online settings.node_offline_threshold_seconds later m
          ≡ node_is_online settings.node_offline_threshold_seconds now m)
        nodes
    → let (state, out) = check_nodes_offline isoformat settings now nodes s in
      (check_nodes_offline isoformat settings later nodes (state, commit_alerts out)).1
      ≡ commit_alerts out
check_nodes_offline-again isoformat settings now later nodes s u same =
    let (state, out) = check_nodes_offline isoformat settings now nodes s in
    check_nodes_offline-Quiet isoformat settings later nodes (state, commit_alerts out) u
      (settled isoformat settings now later state nodes
        (check_nodes_offline-state isoformat settings now nodes s u) same)
