-- ===== src/Nodes/Active/Listed.antt =====
-- What the list of active alerts holds and in which order, compute_active_alerts of
-- gfc-platform/control-plane/api/app/active_alerts.py.
use sip_proxy.Common.{
  ℕ, String, ◌≡◌, ◌≢◌, ◌⊎◌, refl, sym, ap, Bool, true, false, Option, some, List, [], ◌∷◌, ◌++◌,
  arith, inl, inr, Bool-cases, All, eq_iff, str_eq,
}
use mathlib.Core.List.{Memᴰ}
use sip_proxy.Common.Int.{ℤ}
use sip_proxy.Common.Dict.{Dict, Json}
use sip_proxy.Nodes.Models.{Node, Metrics, Service, dict}
use sip_proxy.Nodes.Traffic.{NodeTrafficSample}
use sip_proxy.Nodes.Alerts.{Settings, is_up, service_type, service_message}
use sip_proxy.Nodes.Monitor.{SocksProfile}
use sip_proxy.Nodes.Active.{
  ActiveAlert, fault, offline_faults, service_faults, services_faults, metrics_faults,
  unreachable_faults, node_faults, nodes_faults, socks_faults, is_socks, comes_first, insert_alert,
  sort_alerts, compute_active_alerts,
}

module _ {ℓ} {A : Type ℓ} where
  Mem-left : {x : A} (xs ys : List A) → Memᴰ x xs → Memᴰ x (xs ++ ys)
  Mem-left [] ys m = elim m [ ]
  Mem-left (y ∷ xs) ys (Memᴰ.head e) = Memᴰ.head e
  Mem-left (y ∷ xs) ys (Memᴰ.tail m) = Memᴰ.tail (Mem-left xs ys m)

  Mem-right : {x : A} (xs ys : List A) → Memᴰ x ys → Memᴰ x (xs ++ ys)
  Mem-right [] ys m = m
  Mem-right (y ∷ xs) ys m = Memᴰ.tail (Mem-right xs ys m)

-- The alerts on SOCKS exits stand before all others.
abbrev pub IsSocksFirst : List ActiveAlert → Type 0
IsSocksFirst [] = Unit
IsSocksFirst (a ∷ rest) =
    ((is_socks a ≡ true) ⊎ All (λ b. is_socks b ≡ false) rest) × IsSocksFirst rest

Mem-insert_alert :
    (x a : ActiveAlert) (bs : List ActiveAlert) → Memᴰ x (a ∷ bs) → Memᴰ x (insert_alert a bs)
unfolding insert_alert
Mem-insert_alert x a [] m = m
Mem-insert_alert x a (b ∷ bs) m = elim (Bool-cases (comes_first a b)) [
  | inl first ↦ rw first m
  | inr later ↦ rw later (swap m (λ n. Mem-insert_alert x a bs n))
]
  where
    swap :
        Memᴰ x (a ∷ b ∷ bs)
        → (Memᴰ x (a ∷ bs) → Memᴰ x (insert_alert a bs))
        → Memᴰ x (b ∷ insert_alert a bs)
    swap (Memᴰ.head e) f = Memᴰ.tail (f (Memᴰ.head e))
    swap (Memᴰ.tail (Memᴰ.head e)) f = Memᴰ.head e
    swap (Memᴰ.tail (Memᴰ.tail m)) f = Memᴰ.tail (f (Memᴰ.tail m))

Mem-sort_alerts : (x : ActiveAlert) (bs : List ActiveAlert) → Memᴰ x bs → Memᴰ x (sort_alerts bs)
unfolding sort_alerts
Mem-sort_alerts x [] m = m
Mem-sort_alerts x (b ∷ bs) (Memᴰ.head e) = Mem-insert_alert x b (sort_alerts bs) (Memᴰ.head e)
Mem-sort_alerts x (b ∷ bs) (Memᴰ.tail m) =
    Mem-insert_alert x b (sort_alerts bs) (Memᴰ.tail (Mem-sort_alerts x bs m))

All-insert_alert :
    (a : ActiveAlert) (bs : List ActiveAlert)
    → is_socks a ≡ false
    → All (λ b. is_socks b ≡ false) bs
    → All (λ b. is_socks b ≡ false) (insert_alert a bs)
unfolding insert_alert
All-insert_alert a [] h k = (h, tt)
All-insert_alert a (b ∷ bs) h (k, ks) = elim (Bool-cases (comes_first a b)) [
  | inl first ↦ rw first (h, (k, ks))
  | inr later ↦ rw later (k, All-insert_alert a bs h ks)
]

-- Of two alerts in order, where the first is not on an exit the second is not.
comes_first-others :
    (a b : ActiveAlert) → comes_first a b ≡ true → is_socks a ≡ false → is_socks b ≡ false
comes_first-others a b h k = ground arith

comes_first-socks :
    (a b : ActiveAlert) → comes_first a b ≡ false → is_socks b ≡ false → is_socks a ≡ false
comes_first-socks a b h k = ground arith

not-inl :
    (b : Bool) (rest : List ActiveAlert)
    → (b ≡ true) ⊎ All (λ c. is_socks c ≡ false) rest
    → b ≡ false
    → All (λ c. is_socks c ≡ false) rest
not-inl b rest (inl t) f = absurd (ground arith)
not-inl b rest (inr h) f = h

insert_alert-IsSocksFirst :
    (a : ActiveAlert) (bs : List ActiveAlert) → IsSocksFirst bs → IsSocksFirst (insert_alert a bs)
unfolding insert_alert
insert_alert-IsSocksFirst a [] s = (inr tt, tt)
insert_alert-IsSocksFirst a (b ∷ bs) (h, s) = elim (Bool-cases (comes_first a b)) [
  | inl first ↦ rw first (
    elim (Bool-cases (is_socks a)) [
      | inl socks ↦ inl socks
      | inr isnt ↦
          let n : is_socks b ≡ false = comes_first-others a b first isnt in
          inr (n, not-inl (is_socks b) bs h n)
    ],
    (h, s),
  )
  | inr later ↦ rw later (
    elim (Bool-cases (is_socks b)) [
      | inl socks ↦ inl socks
      | inr isnt ↦ inr (
          All-insert_alert a bs (comes_first-socks a b later isnt) (not-inl (is_socks b) bs h isnt))
    ],
    insert_alert-IsSocksFirst a bs s,
  )
]

sort_alerts-IsSocksFirst : (bs : List ActiveAlert) → IsSocksFirst (sort_alerts bs)
unfolding sort_alerts
sort_alerts-IsSocksFirst [] = tt
sort_alerts-IsSocksFirst (b ∷ bs) =
    insert_alert-IsSocksFirst b (sort_alerts bs) (sort_alerts-IsSocksFirst bs)

module _ (hash : String → ℤ) (isoformat : ℕ → String) (settings : Settings) (now : ℕ)
    (samples : List NodeTrafficSample) (rows : List SocksProfile) where
  -- In the list of active alerts those on SOCKS exits stand first.
  pub compute_active_alerts-IsSocksFirst :
      (nodes : List Node)
      → IsSocksFirst (compute_active_alerts hash isoformat settings now nodes samples rows).0
  unfolding compute_active_alerts
  compute_active_alerts-IsSocksFirst nodes = sort_alerts-IsSocksFirst (
      (nodes_faults hash isoformat settings now samples nodes).0
      ++ socks_faults hash isoformat settings now rows)

  service_faults-down :
      (node : Node) (svc : String) (active : Option Json) (status message : Option String)
      → svc ≢ "nftables"
      → is_up active ≡ false
      → Memᴰ
          (fault hash isoformat settings now
            (some node.id)
            "critical"
            (service_type svc)
            (service_message node svc status message))
          (service_faults hash isoformat settings now node svc (dict active status message))
  unfolding service_faults
  service_faults-down node svc active status message n d =
      elim (Bool-cases (str_eq svc "nftables")) [
        | inl same ↦ absurd (n ((eq_iff svc "nftables").0 same))
        | inr other_name ↦ rw (other_name, d) (Memᴰ.head refl)
      ]

  services_faults-down :
      (node : Node) (svc : String) (active : Option Json) (status message : Option String)
      (services : Dict Service)
      → Memᴰ (svc, dict active status message) services
      → svc ≢ "nftables"
      → is_up active ≡ false
      → Memᴰ
          (fault hash isoformat settings now
            (some node.id)
            "critical"
            (service_type svc)
            (service_message node svc status message))
          (services_faults hash isoformat settings now node services)
  unfolding services_faults service_faults
  services_faults-down node svc active status message [] m n d = elim m [ ]
  services_faults-down node svc active status message ((k, info) ∷ rest) (Memᴰ.head e) n d =
      let same : svc ≡ k = ap (λ (p : String × Service). p.0) e in
      let info_eq : dict active status message ≡ info = ap (λ (p : String × Service). p.1) e in
      Mem-left (service_faults hash isoformat settings now node k info)
        (services_faults hash isoformat settings now node rest)
        (rw (sym same, sym info_eq) (service_faults-down node svc active status message n d))
  services_faults-down node svc active status message ((k, info) ∷ rest) (Memᴰ.tail m) n d =
      Mem-right (service_faults hash isoformat settings now node k info)
        (services_faults hash isoformat settings now node rest)
        (services_faults-down node svc active status message rest m n d)

  nodes_faults-one :
      (a : ActiveAlert) (node : Node) (nodes : List Node)
      → Memᴰ node nodes
      → Memᴰ a (node_faults hash isoformat settings now samples node).0
      → Memᴰ a (nodes_faults hash isoformat settings now samples nodes).0
  unfolding nodes_faults
  nodes_faults-one a node [] m h = elim m [ ]
  nodes_faults-one a node (n ∷ ns) (Memᴰ.head e) h =
      Mem-left (node_faults hash isoformat settings now samples n).0
        (nodes_faults hash isoformat settings now samples ns).0 (rw e at h)
  nodes_faults-one a node (n ∷ ns) (Memᴰ.tail m) h =
      Mem-right (node_faults hash isoformat settings now samples n).0
        (nodes_faults hash isoformat settings now samples ns).0 (nodes_faults-one a node ns m h)

  node_faults-metrics :
      (a : ActiveAlert) (node : Node)
      → node.is_active ≡ true
      → Memᴰ a (metrics_faults hash isoformat settings now node node.last_metrics)
      → Memᴰ a (node_faults hash isoformat settings now samples node).0
  unfolding node_faults
  node_faults-metrics a node on m = simp (on) (
      Mem-right (offline_faults hash isoformat settings now node) _
        (Mem-left (metrics_faults hash isoformat settings now node node.last_metrics) _ m))

  metrics_faults-services :
      (a : ActiveAlert) (node : Node) (last : Option Metrics) (metrics : Metrics)
      → last ≡ some metrics
      → Memᴰ a (services_faults hash isoformat settings now node metrics.services)
      → Memᴰ a (metrics_faults hash isoformat settings now node last)
  unfolding metrics_faults
  metrics_faults-services a node last metrics e m = rw e (
      Mem-right
        (unreachable_faults hash isoformat settings now node metrics.control_plane_reachable)
        (services_faults hash isoformat settings now node metrics.services) m)

  -- A service that the last metrics of an active node list as down is in the list of active alerts,
  -- under that node and its type; nftables is not one of them.
  pub compute_active_alerts-service_down :
      (node : Node) (nodes : List Node) (metrics : Metrics) (svc : String) (active : Option Json)
      (status message : Option String)
      → Memᴰ node nodes
      → node.is_active ≡ true
      → node.last_metrics ≡ some metrics
      → Memᴰ (svc, dict active status message) metrics.services
      → svc ≢ "nftables"
      → is_up active ≡ false
      → Memᴰ
          (fault hash isoformat settings now
            (some node.id)
            "critical"
            (service_type svc)
            (service_message node svc status message))
          (compute_active_alerts hash isoformat settings now nodes samples rows).0
  unfolding compute_active_alerts
  compute_active_alerts-service_down node nodes metrics svc active status message m on last s n d =
      Mem-sort_alerts _
        ((nodes_faults hash isoformat settings now samples nodes).0
          ++ socks_faults hash isoformat settings now rows)
        (Mem-left (nodes_faults hash isoformat settings now samples nodes).0
          (socks_faults hash isoformat settings now rows)
          (nodes_faults-one _ node nodes m (
            node_faults-metrics _ node on (
              metrics_faults-services _ node node.last_metrics metrics last
                (services_faults-down node svc active status message metrics.services s n d)))))
