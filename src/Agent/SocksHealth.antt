-- ===== src/Agent/SocksHealth.antt =====
-- Which exits of a node answer, evaluate_socks_dns_health of
-- gfc-platform/node-agent/node_agent/socks_health.py. The probe
-- of an exit and the clock are arguments; the rules and the users are those of the configuration that
-- the control plane sent. The module's globals and the file of the state directory are one record.
use sip_proxy.Common.{
  ℕ, suc, ◌+◌, String, Bool, true, false, not, ◌&&◌, Option, none, some, List, [], ◌∷◌, ◌++◌, ltb,
  if◌then◌else◌,
}
use sip_proxy.Common.Text.{concat}
use sip_proxy.Common.Text.Numbers.{show}
use sip_proxy.Common.Dict.{Dict, lookup, insert}
use sip_proxy.Nodes.Config.{Socks, Rule, User, direct, through}

pub record ProbeSettings : Type 0 where
  pub fails_to_down : ℕ
  pub probe_interval : ℕ

-- `saved_streaks` is none where the file is missing or does not read.
pub record Health : Type 0 where
  pub last_probe : ℕ
  pub last_result : Dict Bool
  pub saved_ok : Dict Bool
  pub saved_streaks : Option (Dict ℕ)

abbrev pub rule_targets : List Rule → List (String × Socks)
rule_targets [] = []
rule_targets (r ∷ rs) = (concat ("socks-" ∷ show r.line_id ∷ []), r.socks) ∷ rule_targets rs

-- The users whose outbound is an exit.
abbrev pub user_targets : List User → List (String × Socks)
user_targets [] = []
user_targets (u ∷ us) =
    let rest = user_targets us in
    elim u.outbound [
      | direct ↦ rest
      | through socks ↦ (concat ("client-" ∷ show u.line_id ∷ []), socks) ∷ rest
    ]

abbrev pub streak_of : String → Dict ℕ → ℕ
streak_of tag streaks = elim (lookup tag streaks) [ none ↦ 0 | some n ↦ n ]

-- The streak of an exit after one more probe.
abbrev pub next_streak : Bool → ℕ → ℕ
next_streak true streak = 0
next_streak false streak = suc streak

-- An answer is healthy, and so is a failure while the streak is short.
abbrev pub is_up : ℕ → Bool → ℕ → Bool
is_up fails_to_down true streak = true
is_up fails_to_down false streak = ltb streak fails_to_down

-- The loop over the targets: the streaks and the result.
unfoldable pub probe_targets :
    ℕ → (Socks → Bool) → List (String × Socks) → Dict ℕ × Dict Bool → Dict ℕ × Dict Bool
unfolding lookup insert
probe_targets fails_to_down probe [] out = out
probe_targets fails_to_down probe ((tag, socks) ∷ targets) (streaks, result) =
    let streak = next_streak (probe socks) (streak_of tag streaks) in
    probe_targets fails_to_down probe targets
      (insert tag streak streaks, insert tag (is_up fails_to_down (probe socks) streak) result)

abbrev pub is_no_target : List (String × Socks) → Bool
is_no_target [] = true
is_no_target (_ ∷ _) = false

abbrev pub is_no_result : Dict Bool → Bool
is_no_result [] = true
is_no_result (_ ∷ _) = false

unfoldable pub evaluate_socks_dns_health :
    ProbeSettings → (Socks → Bool) → ℕ → List Rule → List User → Health → Dict Bool × Health
unfolding probe_targets concat show
evaluate_socks_dns_health settings probe now rules users health =
    let targets = rule_targets rules ++ user_targets users in
    if is_no_target targets
    then ([], health)
    else if not (is_no_result health.last_result)
        && ltb now (health.last_probe + settings.probe_interval)
    then (health.last_result, health)
    else let streaks : Dict ℕ = elim health.saved_streaks [ none ↦ [] | some saved ↦ saved ] in
      let done = probe_targets settings.fails_to_down probe targets (streaks, []) in
      (
        done.1,
        record {
          last_probe = now;
          last_result = done.1;
          saved_ok = done.1;
          saved_streaks = some done.0;
        },
      )
