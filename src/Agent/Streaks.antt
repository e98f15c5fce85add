-- ===== src/Agent/Streaks.antt =====
-- The failures in a row that evaluate_socks_dns_health of
-- gfc-platform/node-agent/node_agent/socks_health.py counts for each exit.
use sip_proxy.Common.{
  ℕ, ◌+◌, ◌≤◌, ◌<◌, String, ◌≡◌, ◌∙◌, refl, sym, ap, Bool, true, false, not, ◌&&◌, Option, none,
  some, List, [], ◌∷◌, ◌++◌, suc, if◌then◌else◌, arith, ltb, str_eq, eq_iff, eq_refl, All, All-elem,
}
use mathlib.Core.List.{Memᴰ}
use mathlib.Core.Path.{subst}
use sip_proxy.Common.Dict.{Dict, lookup, insert, lookup-insert}
use sip_proxy.Nodes.Config.{Socks, Rule, User}
use sip_proxy.Agent.SocksHealth.{
  ProbeSettings, Health, rule_targets, user_targets, streak_of, next_streak, is_up, probe_targets,
  is_no_target, is_no_result, evaluate_socks_dns_health,
}

-- No tag stands for two exits.
abbrev pub Tagged : List (String × Socks) → Type 0
Tagged [] = Unit
Tagged ((tag, _) ∷ ts) = All (λ (t : String × Socks). str_eq t.0 tag ≡ false) ts × Tagged ts

abbrev Found : ℕ → (Socks → Bool) → String → Socks → Dict ℕ → Dict ℕ × Dict Bool → Type 0
Found fails probe tag socks streaks out =
    (streak_of tag out.0 ≡ next_streak (probe socks) (streak_of tag streaks))
    × (lookup tag out.1
        ≡ some (is_up fails (probe socks) (next_streak (probe socks) (streak_of tag streaks))))

module _ (fails : ℕ) (probe : Socks → Bool) where
  -- The other exits' rounds leave a tag alone.
  probe_targets-others :
      (tag : String) (ts : List (String × Socks)) (out : Dict ℕ × Dict Bool)
      → All (λ (t : String × Socks). str_eq t.0 tag ≡ false) ts
      → (lookup tag (probe_targets fails probe ts out).0 ≡ lookup tag out.0)
        × (lookup tag (probe_targets fails probe ts out).1 ≡ lookup tag out.1)
  unfolding probe_targets
  probe_targets-others tag [] out h = (refl, refl)
  probe_targets-others tag ((t, socks) ∷ ts) (streaks, result) (h, hs) =
      let streak = next_streak (probe socks) (streak_of t streaks) in
      let up = is_up fails (probe socks) streak in
      let rest = probe_targets-others tag ts (insert t streak streaks, insert t up result) hs in
      (
        rest.0 ∙ lookup-insert t tag streak streaks ∙ rw h refl,
        rest.1 ∙ lookup-insert t tag up result ∙ rw h refl,
      )

  probe_targets-first :
      (tag : String) (socks : Socks) (ts : List (String × Socks)) (streaks : Dict ℕ)
      (result : Dict Bool)
      → All (λ (t : String × Socks). str_eq t.0 tag ≡ false) ts
      → Found fails probe tag socks streaks
          (probe_targets fails probe ((tag, socks) ∷ ts) (streaks, result))
  unfolding probe_targets
  probe_targets-first tag socks ts streaks result other =
      let streak = next_streak (probe socks) (streak_of tag streaks) in
      let up = is_up fails (probe socks) streak in
      let rest =
        probe_targets-others tag ts (insert tag streak streaks, insert tag up result) other in
      let here : lookup tag (insert tag streak streaks) ≡ some streak =
        lookup-insert tag tag streak streaks ∙ rw (eq_refl tag) refl in
      (
        ap (λ (o : Option ℕ). elim o [ none ↦ 0 | some n ↦ n ]) (rest.0 ∙ here),
        rest.1 ∙ lookup-insert tag tag up result ∙ rw (eq_refl tag) refl,
      )

  probe_targets-Found :
      (tag : String) (socks : Socks) (ts : List (String × Socks)) (streaks : Dict ℕ)
      (result : Dict Bool)
      → Tagged ts
      → Memᴰ (tag, socks) ts
      → Found fails probe tag socks streaks (probe_targets fails probe ts (streaks, result))
  unfolding probe_targets
  probe_targets-Found tag socks [] streaks result k m = elim m [ ]
  probe_targets-Found tag socks ((t, s) ∷ ts) streaks result (other, k) (Memᴰ.head e) =
      subst
        (λ (p : String × Socks).
          Found fails probe p.0 p.1 streaks
            (probe_targets fails probe ((t, s) ∷ ts) (streaks, result)))
        (sym e) (probe_targets-first t s ts streaks result other)
  probe_targets-Found tag socks ((t, s) ∷ ts) streaks result (other, k) (Memᴰ.tail m) =
      let streak = next_streak (probe s) (streak_of t streaks) in
      let apart = All-elem (λ (u : String × Socks). str_eq u.0 t ≡ false) (tag, socks) ts m other in
      let apart' : str_eq t tag ≡ false = ground (arith, eq_iff t tag, eq_iff tag t) in
      let kept : lookup tag (insert t streak streaks) ≡ lookup tag streaks =
        lookup-insert t tag streak streaks ∙ rw apart' refl in
      let same : streak_of tag (insert t streak streaks) ≡ streak_of tag streaks =
        ap (λ (o : Option ℕ). elim o [ none ↦ 0 | some n ↦ n ]) kept in
      let rest =
        probe_targets-Found tag socks ts (insert t streak streaks)
          (insert t (is_up fails (probe s) streak) result) k m in
      (
        rest.0 ∙ ap (next_streak (probe socks)) same,
        rest.1 ∙ ap (λ n. some (is_up fails (probe socks) (next_streak (probe socks) n))) same,
      )

-- The rounds of the agent, the newest first.
abbrev pub History : Type 0
History = List (ℕ × (Socks → Bool))

abbrev pub fresh : Health
fresh = record { last_probe = 0; last_result = []; saved_ok = []; saved_streaks = none }

pub rounds : ProbeSettings → List Rule → List User → History → Health
unfolding evaluate_socks_dns_health
rounds settings rules users [] = fresh
rounds settings rules users ((now, probe) ∷ history) =
    (evaluate_socks_dns_health settings probe now rules users
      (rounds settings rules users history)).1

-- How many of the newest probes of an exit failed in a row.
unfoldable pub failures : Socks → History → ℕ
failures socks [] = 0
failures socks ((now, probe) ∷ history) =
    let before = failures socks history in if probe socks then 0 else suc before

-- Each round comes an interval after the one before it, at least.
abbrev pub Spaced : ℕ → History → Type 0
Spaced interval [] = Unit
Spaced interval ((now, probe) ∷ []) = Unit
Spaced interval ((now, probe) ∷ (before, p) ∷ history) =
    (before + interval ≤ now) × Spaced interval ((before, p) ∷ history)

abbrev pub targets : List Rule → List User → List (String × Socks)
targets rules users = rule_targets rules ++ user_targets users

abbrev saved : Health → Dict ℕ
saved health = elim health.saved_streaks [ none ↦ [] | some streaks ↦ streaks ]

-- A round that is due probes every exit.
round-probed :
    (settings : ProbeSettings) (probe : Socks → Bool) (now : ℕ) (rules : List Rule)
    (users : List User) (health : Health)
    → is_no_target (targets rules users) ≡ false
    → (not (is_no_result health.last_result)
        && ltb now (health.last_probe + settings.probe_interval))
      ≡ false
    → let out =
        probe_targets settings.fails_to_down probe (targets rules users) (saved health, []) in
      (evaluate_socks_dns_health settings probe now rules users health).1 ≡ (record {
        last_probe = now;
        last_result = out.1;
        saved_ok = out.1;
        saved_streaks = some out.0;
      })
unfolding evaluate_socks_dns_health
round-probed settings probe now rules users health some' due = rw (some', due) refl

has_target : (p : String × Socks) (ts : List (String × Socks)) → Memᴰ p ts → is_no_target ts ≡ false
has_target p [] m = elim m [ ]
has_target p (t ∷ ts) m = refl

Spaced-tail :
    (interval now : ℕ) (probe : Socks → Bool) (history : History)
    → Spaced interval ((now, probe) ∷ history)
    → Spaced interval history
Spaced-tail interval now probe [] spaced = tt
Spaced-tail interval now probe (r ∷ history) spaced = spaced.1

is_up-ltb :
    (fails : ℕ) (healthy : Bool) (streak : ℕ)
    → 0 < fails
    → is_up fails healthy (next_streak healthy streak) ≡ ltb (next_streak healthy streak) fails
is_up-ltb fails true streak h = ground arith
is_up-ltb fails false streak h = refl

next_streak-if : (healthy : Bool) (n : ℕ) → next_streak healthy n ≡ (if healthy then 0 else suc n)
next_streak-if true n = refl
next_streak-if false n = omega arith

module _ (settings : ProbeSettings) (rules : List Rule) (users : List User) (tag : String)
    (socks : Socks) (member : Memᴰ (tag, socks) (targets rules users)) where
  abbrev earlier : History → Health
  unfolding rounds
  earlier history = rounds settings rules users history

  abbrev probed : ℕ → (Socks → Bool) → History → Health
  unfolding rounds
  probed now probe history =
      let out =
        probe_targets settings.fails_to_down probe (targets rules users)
          (saved (earlier history), []) in
      record { last_probe = now; last_result = out.1; saved_ok = out.1; saved_streaks = some out.0 }

  -- Every round of a spaced history probes.
  rounds-probed :
      (now : ℕ) (probe : Socks → Bool) (history : History)
      → Spaced settings.probe_interval ((now, probe) ∷ history)
      → rounds settings rules users ((now, probe) ∷ history) ≡ probed now probe history
  unfolding rounds
  rounds-probed now probe [] spaced =
      round-probed settings probe now rules users fresh (has_target _ (targets rules users) member)
        refl
  rounds-probed now probe ((before, p) ∷ history) (gap, spaced) =
      let last : (earlier ((before, p) ∷ history)).last_probe ≡ before =
        ap (λ (h : Health). h.last_probe) (rounds-probed before p history spaced) in
      let late : ltb now ((earlier ((before, p) ∷ history)).last_probe + settings.probe_interval)
          ≡ false =
        ap (λ n. ltb now (n + settings.probe_interval)) last ∙ ground arith in
      round-probed settings probe now rules users (earlier ((before, p) ∷ history))
        (has_target _ (targets rules users) member) (rw late (ground arith))

  streak-failures :
      (history : History)
      → Tagged (targets rules users)
      → Spaced settings.probe_interval history
      → streak_of tag (saved (rounds settings rules users history)) ≡ failures socks history
  unfolding rounds failures
  streak-failures [] tagged spaced = refl
  streak-failures ((now, probe) ∷ history) tagged spaced =
      let found =
        probe_targets-Found settings.fails_to_down probe tag socks (targets rules users)
          (saved (earlier history)) [] tagged member in
      ap (λ (h : Health). streak_of tag (saved h)) (rounds-probed now probe history spaced)
      ∙ found.0
      ∙ ap (next_streak (probe socks)) (
          streak-failures history tagged
            (Spaced-tail settings.probe_interval now probe history spaced))
      ∙ next_streak-if (probe socks) (failures socks history)

  -- After a history of rounds that each come an interval after the one before, at least, with a
  -- threshold above 0 and no tag of two exits, an exit is reported as working exactly where fewer of
  -- its newest probes failed in a row than the threshold.
  pub rounds-failures :
      (now : ℕ) (probe : Socks → Bool) (history : History)
      → 0 < settings.fails_to_down
      → Tagged (targets rules users)
      → Spaced settings.probe_interval ((now, probe) ∷ history)
      → lookup tag (rounds settings rules users ((now, probe) ∷ history)).last_result
        ≡ some (ltb (failures socks ((now, probe) ∷ history)) settings.fails_to_down)
  unfolding rounds failures
  rounds-failures now probe history positive tagged spaced =
      let fails = settings.fails_to_down in
      let found =
        probe_targets-Found fails probe tag socks (targets rules users) (saved (earlier history)) []
          tagged member in
      let before =
        streak-failures history tagged
          (Spaced-tail settings.probe_interval now probe history spaced) in
      ap (λ (h : Health). lookup tag h.last_result) (rounds-probed now probe history spaced)
      ∙ found.1
      ∙ ap (λ n. some (is_up fails (probe socks) (next_streak (probe socks) n))) before
      ∙ ap some (is_up-ltb fails (probe socks) (failures socks history) positive)
      ∙ ap (λ n. some (ltb n fails)) (next_streak-if (probe socks) (failures socks history))
