-- ===== src/Nodes/Alerts/Dedup.antt =====
-- The log of alerts and its window, emit_alert of
-- gfc-platform/control-plane/api/app/node_health.py.
use sip_proxy.Common.{
  ℕ, ◌+◌, ◌*◌, ◌<◌, ◌≡◌, ◌≢◌, ◌⊎◌, eq_iff, refl, String, Bool, true, false, Option, none, some,
  List, [], ◌∷◌, ◌++◌, ◌∙◌, ◌||◌, any, str_eq, arith, All, eq_refl, Bool-cases, inl, inr,
}
use sip_proxy.Nodes.Alerts.{AlertEvent, Settings, is_duplicate, window, emit_alert, id_matches}

-- A row of another type, node or line, or older than `e` by more than the window.
abbrev pub IsNews : ℕ → AlertEvent → AlertEvent → Type 0
IsNews span e old =
    (old.type ≢ e.type)
    ⊎ (old.node_id ≢ e.node_id)
    ⊎ (old.line_id ≢ e.line_id)
    ⊎ (old.created_at + span < e.created_at)

abbrev pub IsDeduplicated : ℕ → List AlertEvent → Type 0
IsDeduplicated span [] = Unit
IsDeduplicated span (e ∷ events) = All (IsNews span e) events × IsDeduplicated span events

id_matches_refl : (o : Option ℕ) → id_matches o o ≡ true
id_matches_refl none = refl
id_matches_refl (some n) = ground arith

differs : (a b : Option ℕ) → id_matches a b ≡ false → b ≢ a
differs a b h e =
    let m : id_matches a a ≡ false = rw e at h in
    absurd (let r : id_matches a a ≡ true = id_matches_refl a in cc)

not-duplicate :
    (span : ℕ) (e old : AlertEvent)
    → is_duplicate span e.created_at e.node_id e.line_id e.type old ≡ false
    → IsNews span e old
not-duplicate span e old h = elim (Bool-cases (str_eq old.type e.type)) [
  | inr t ↦ inl (λ same.
      absurd (let r : str_eq old.type e.type ≡ true = (eq_iff old.type e.type).1 same in cc))
  | inl t ↦ elim (Bool-cases (id_matches e.node_id old.node_id)) [
    | inr n ↦ inr (inl (differs e.node_id old.node_id n))
    | inl n ↦ elim (Bool-cases (id_matches e.line_id old.line_id)) [
      | inr l ↦ inr (inr (inl (differs e.line_id old.line_id l)))
      | inl l ↦ inr (inr (inr (ground arith)))
    ]
  ]
]

none-duplicate :
    (span : ℕ) (e : AlertEvent) (events : List AlertEvent)
    → any (is_duplicate span e.created_at e.node_id e.line_id e.type) events ≡ false
    → All (IsNews span e) events
none-duplicate span e [] h = tt
none-duplicate span e (old ∷ events) h =
    (not-duplicate span e old (ground arith), none-duplicate span e events (ground arith))

-- Through the first alert of a transaction the log keeps this: two rows of the same type, node and
-- line are more than the window apart in time.
pub emit_alert-IsDeduplicated :
    (settings : Settings) (now : ℕ) (node_id line_id : Option ℕ) (level alert_type message : String)
    (events : List AlertEvent)
    → IsDeduplicated (settings.alert_dedup_minutes * 60) events
    → IsDeduplicated
        (settings.alert_dedup_minutes * 60)
        ((emit_alert settings now node_id line_id level alert_type message events []).0 ++ events)
unfolding emit_alert
emit_alert-IsDeduplicated settings now node_id line_id level alert_type message events h =
    elim (Bool-cases (any (is_duplicate (window settings) now node_id line_id alert_type) events)) [
      | inl old ↦ rw old h
      | inr new ↦ rw new (
        none-duplicate (window settings)
            (record {
              node_id = node_id;
              line_id = line_id;
              level = level;
              type = alert_type;
              message = message;
              created_at = now;
            })
            events new,
        h,
      )
    ]

any-append {ℓ} :
    {A : Type ℓ} (p : A → Bool) (xs ys : List A) → any p (xs ++ ys) ≡ (any p xs || any p ys)
any-append p [] ys = refl
any-append p (x ∷ xs) ys = ground (arith, any-append p xs ys)

-- After an alert the log holds a recent row for it, new or old.
pub emit_alert-recent :
    (settings : Settings) (now : ℕ) (node_id line_id : Option ℕ) (level alert_type message : String)
    (events added : List AlertEvent)
    → any (is_duplicate (window settings) now node_id line_id alert_type) (
        (emit_alert settings now node_id line_id level alert_type message events added).0 ++ events)
      ≡ true
unfolding emit_alert
emit_alert-recent settings now node_id line_id level alert_type message events added =
    elim (Bool-cases (any (is_duplicate (window settings) now node_id line_id alert_type) events)) [
      | inl old ↦ rw old (
          any-append (is_duplicate (window settings) now node_id line_id alert_type) added events
          ∙ ground arith)
      | inr new ↦
          rw new
            (ground (arith, eq_refl alert_type, id_matches_refl node_id, id_matches_refl line_id))
    ]

-- An alert takes no row away.
pub emit_alert-keeps :
    (p : AlertEvent → Bool) (settings : Settings) (now : ℕ) (node_id line_id : Option ℕ)
    (level alert_type message : String) (events added : List AlertEvent)
    → any p (added ++ events) ≡ true
    → any p (
        (emit_alert settings now node_id line_id level alert_type message events added).0 ++ events)
      ≡ true
unfolding emit_alert
emit_alert-keeps p settings now node_id line_id level alert_type message events added h =
    elim (Bool-cases (any (is_duplicate (window settings) now node_id line_id alert_type) events)) [
      | inl old ↦ rw old h
      | inr new ↦ rw new (ground arith)
    ]
