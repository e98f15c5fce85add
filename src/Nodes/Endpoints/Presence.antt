-- ===== src/Nodes/Endpoints/Presence.antt =====
-- A heartbeat and the table of nodes, heartbeat of gfc-platform/control-plane/api/app/main.py.
use sip_proxy.Common.{
  ℕ, ◌+◌, ◌<◌, String, ◌≡◌, ◌∙◌, refl, ap, true, false, Option, none, some, List, [], ◌∷◌, arith,
  find, find-some, ◌==◌, if◌then◌else◌, Bool-cases, Option-cases, inl, inr,
}
use mathlib.Core.List.{Memᴰ}
use sip_proxy.Common.Http.{ok, error}
use sip_proxy.Common.Text.{strip, lower, starts_with, or_empty}
use sip_proxy.Common.Text.Words.{after_space}
use sip_proxy.Nodes.Models.{Node, node_is_online}
use sip_proxy.Nodes.Traffic.{NodeTrafficSample}
use sip_proxy.Nodes.Alerts.{Settings, Outbox, World, commit_alerts, process_heartbeat_metrics}
use sip_proxy.Nodes.Alerts.Identity.{who, who-process}
use sip_proxy.Nodes.Tokens.{NodeToken, holds_token, auth_node}
use sip_proxy.Nodes.Endpoints.{
  NodeRow, Address, NodesWorld, HeartbeatRequest, nodes_of, report_row, beat, heartbeat,
}

-- `session.get(Node, id)`
unfoldable pub row_of : ℕ → List NodeRow → Option NodeRow
row_of id [] = none
row_of id (r ∷ rows) = if r.node.id == id then some r else row_of id rows

-- The node that a token is of is in the table.
pub auth_node-member :
    (hash_token : String → String) (authorization : Option String) (tokens : List NodeToken)
    (nodes : List Node) (node : Node)
    → auth_node hash_token authorization tokens nodes ≡ ok node
    → Memᴰ node nodes
unfolding auth_node
auth_node-member hash_token authorization tokens nodes node e =
    let digest = hash_token (strip (after_space (or_empty authorization))) in
    elim (Bool-cases (starts_with "bearer " (lower (or_empty authorization)))) [
      | inr other ↦
          absurd (let clash : error 401 "missing node token" ≡ ok node = rw other at e in cc)
      | inl bearer ↦ elim (Option-cases (find (holds_token tokens digest) nodes)) [
        | inl nothing ↦
            absurd (
              let clash : error 401 "invalid node token" ≡ ok node = rw (bearer, nothing) at e in
              cc)
        | inr (n, found) ↦
            let same : ok n ≡ ok node = rw (bearer, found) at e in
            let n≡node : n ≡ node = cc in
            (find-some (holds_token tokens digest) nodes node (found ∙ ap some n≡node)).0
      ]
    ]

member-row :
    (node : Node) (rows : List NodeRow)
    → Memᴰ node (nodes_of rows)
    → (row : NodeRow) × (row_of node.id rows ≡ some row)
unfolding row_of
member-row node [] m = elim m [ ]
member-row node (r ∷ rows) (Memᴰ.head e) =
    let same : (r.node.id == node.id) ≡ true =
      ap (λ (n : Node). r.node.id == n.id) e ∙ ground arith in
    (r, rw same refl)
member-row node (r ∷ rows) (Memᴰ.tail m) = elim (Bool-cases (r.node.id == node.id)) [
  | inl same ↦ (r, rw same refl)
  | inr other ↦ let (row, e) = member-row node rows m in (row, rw other e)
]

module _ (ip_address : String → Option Address) (settings : Settings) (now : ℕ)
    (body : HeartbeatRequest) (id : ℕ) where
  -- The row of the node after its heartbeat.
  abbrev beaten : NodeRow → List NodeTrafficSample × Outbox → NodeRow
  unfolding report_row
  beaten row s =
      let row' = report_row ip_address now body row in
      let done : World =
        process_heartbeat_metrics settings now body.metrics
          (record { node = row'.node; samples = s.0; outbox = s.1 }) in
      record row' { node = done.node }

  beaten-who :
      (row : NodeRow) (s : List NodeTrafficSample × Outbox)
      → who (beaten row s).node ≡ (row.node.id, some now)
  unfolding report_row
  beaten-who row s = who-process settings now body.metrics _

  beat-mine :
      (row : NodeRow) (rows : List NodeRow) (s : List NodeTrafficSample × Outbox)
      → (row.node.id == id) ≡ true
      → (beat ip_address settings now body id (row ∷ rows) s).0 ≡ beaten row s ∷ rows
  unfolding beat
  beat-mine row rows s mine = rw mine refl

  beat-foreign :
      (row : NodeRow) (rows : List NodeRow) (s : List NodeTrafficSample × Outbox)
      → (row.node.id == id) ≡ false
      → (beat ip_address settings now body id (row ∷ rows) s).0
        ≡ row ∷ (beat ip_address settings now body id rows s).0
  unfolding beat
  beat-foreign row rows s foreign = rw foreign refl

  beat-others :
      (other : ℕ) (rows : List NodeRow) (s : List NodeTrafficSample × Outbox)
      → (id == other) ≡ false
      → row_of other (beat ip_address settings now body id rows s).0 ≡ row_of other rows
  unfolding beat row_of
  beat-others other [] s apart = refl
  beat-others other (row ∷ rows) s apart = elim (Bool-cases (row.node.id == id)) [
    | inl mine ↦
        let miss : (row.node.id == other) ≡ false = ground arith in
        let miss' : ((beaten row s).node.id == other) ≡ false =
          ap (λ (p : ℕ × Option ℕ). p.0 == other) (beaten-who row s) ∙ miss in
        ap (row_of other) (beat-mine row rows s mine) ∙ rw (miss, miss') refl
    | inr foreign ↦
        ap (row_of other) (beat-foreign row rows s foreign)
        ∙ ap (λ found. if row.node.id == other then some row else found)
            (beat-others other rows s apart)
  ]

  beat-seen :
      (rows : List NodeRow) (s : List NodeTrafficSample × Outbox) (row : NodeRow)
      → row_of id rows ≡ some row
      → (seen : NodeRow) × (row_of id (beat ip_address settings now body id rows s).0 ≡ some seen)
        × (seen.node.last_seen_at ≡ some now)
  unfolding row_of
  beat-seen [] s row e = cc
  beat-seen (r ∷ rows) s row e = elim (Bool-cases (r.node.id == id)) [
    | inl mine ↦
        let mine' : ((beaten r s).node.id == id) ≡ true =
          ap (λ (p : ℕ × Option ℕ). p.0 == id) (beaten-who r s) ∙ mine in
        (
          beaten r s,
          ap (row_of id) (beat-mine r rows s mine) ∙ rw mine' refl,
          ap (λ (p : ℕ × Option ℕ). p.1) (beaten-who r s),
        )
    | inr foreign ↦
        let (seen, at', time) = beat-seen rows s row (rw foreign at e) in
        (seen, ap (row_of id) (beat-foreign r rows s foreign) ∙ rw foreign at', time)
  ]

seen-online :
    (node : Node) (now threshold later : ℕ)
    → node.last_seen_at ≡ some now
    → later < now + threshold
    → node_is_online threshold later node ≡ true
unfolding node_is_online
seen-online node now threshold later time soon = rw (time, node_is_online) (ground arith)

-- A heartbeat whose token is a node's is answered; after it the node counts as online at any time
-- `later` before the threshold has passed since the heartbeat, and the row of any other node is as
-- before.
pub heartbeat-online :
    (hash_token : String → String) (ip_address : String → Option Address) (settings : Settings)
    (now : ℕ) (authorization : Option String) (body : HeartbeatRequest) (w : NodesWorld)
    (node : Node) (threshold later other : ℕ)
    → auth_node hash_token authorization w.tokens (nodes_of w.rows) ≡ ok node
    → later < now + threshold
    → (node.id == other) ≡ false
    → (w' : NodesWorld) × (row : NodeRow) × (heartbeat hash_token ip_address settings now
          authorization body w
        ≡ ok w')
      × (row_of node.id w'.rows ≡ some row)
      × (node_is_online threshold later row.node ≡ true)
      × (row_of other w'.rows ≡ row_of other w.rows)
unfolding heartbeat
heartbeat-online hash_token ip_address settings now authorization body w node threshold later other
      auth soon apart =
    let (row, found) =
      member-row node w.rows (auth_node-member hash_token authorization w.tokens _ node auth) in
    let (seen, at', time) =
      beat-seen ip_address settings now body node.id w.rows (w.samples, w.outbox) row found in
    let out = beat ip_address settings now body node.id w.rows (w.samples, w.outbox) in
    (
      record w { rows = out.0; samples = out.1; outbox = commit_alerts out.2 },
      seen,
      rw auth refl,
      at',
      seen-online seen.node now threshold later time soon,
      beat-others ip_address settings now body node.id other w.rows (w.samples, w.outbox) apart,
    )
