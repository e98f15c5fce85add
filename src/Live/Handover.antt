-- ===== src/Live/Handover.antt =====
-- Between the node's resolution and the device: a result of live_resolve.py of the node agent, and the
-- checks and the table of live_catalog.py.
use sip_proxy.Common.{
  ℕ, String, ◌≡◌, ◌∙◌, refl, sym, ap, Bool, true, false, not, ◌&&◌, ◌||◌, some, List, [], ◌∷◌, inl,
  inr, arith, ◌==◌, str_eq, eq_refl, Bool-cases, map, All, contains,
}
use mathlib.Core.List.{Memᴰ}
use sip_proxy.Common.Http.{ok}
use sip_proxy.Common.Dict.{Dict}
use sip_proxy.Common.Text.{strip}
use sip_proxy.Common.Text.Strip.{strip_idem}
use sip_proxy.Nodes.Alerts.{Settings}
use sip_proxy.Live.Catalog.{Task}
use sip_proxy.Live.Reports.{
  Report, accepted, Inbox, differ, validate_resolve_report, get_line_resolve_row, task_of_line,
  take_reports,
}
use sip_proxy.Live.Resolver.{
  Curl, outbound_healthy, is_some, proxy_of, resolved_cidrs, resolve_task,
}
use sip_proxy.Live.Taken.{
  Within, NewLines, Taken-Within, stored_row, get-put_row, take_report-Taken, take_report-stored,
}
use sip_proxy.Live.Batches.{Leaves, take_reports-Batch}
use sip_proxy.Live.Keyed.{KeyedTasks}

differ-strip : (s : String) → differ (strip s) (strip (strip s)) ≡ false
differ-strip s = rw (strip_idem s) (ground (arith, eq_refl (strip s)))

-- A result that was not skipped: it passes the checks and has the resolved networks.
abbrev Passes : Curl → String → Task → Report → Type 0
Passes curl doh_url task report =
    (validate_resolve_report task report ≡ accepted)
    × ((report.skipped_unhealthy || report.used_fallback_vantage) ≡ false)
    × (report.line_id ≡ task.line_id)
    × (report.cidrs ≡ resolved_cidrs curl doh_url task)

-- The lines of the tasks differ, and no row was added for them.
abbrev pub NewTasks : List ℕ → List Task → Type 0
NewTasks added [] = Unit
NewTasks added (t ∷ ts) = (contains t.line_id added ≡ false) × NewTasks (t.line_id ∷ added) ts

NewTasks-Within :
    (added more : List ℕ) (ts : List Task)
    → Within added more
    → NewTasks more ts
    → NewTasks added ts
NewTasks-Within added more [] within h = tt
NewTasks-Within added more (t ∷ ts) within (h, hs) = (
  within t.line_id h,
  NewTasks-Within (t.line_id ∷ added) (t.line_id ∷ more) ts
      (λ x k. let rest : contains x added ≡ false = within x (ground arith) in ground arith) hs,
)

NewTasks-add :
    (id : ℕ) (added : List ℕ) (ts : List Task)
    → All (λ (u : Task). (u.line_id == id) ≡ false) ts
    → NewTasks added ts
    → NewTasks (id ∷ added) ts
NewTasks-add id added [] other h = tt
NewTasks-add id added (t ∷ ts) (o, other) (h, hs) = (
  ground arith,
  NewTasks-Within (t.line_id ∷ id ∷ added) (id ∷ t.line_id ∷ added) ts (λ x k. ground arith)
      (NewTasks-add id (t.line_id ∷ added) ts other hs),
)

pub KeyedTasks-New : (ts : List Task) → KeyedTasks ts → NewTasks [] ts
KeyedTasks-New [] k = tt
KeyedTasks-New (t ∷ ts) (id, mode, other, k) =
    (refl, NewTasks-add t.line_id [] ts other (KeyedTasks-New ts k))

module _ (curl : Curl) (socks_dns_ok : Dict Bool) (doh_url : String) (now : ℕ) where
  pub resolve_task-Passes :
      (task : Task)
      → (task.line_id == 0) ≡ false
      → (resolve_task curl socks_dns_ok doh_url now task).skipped_unhealthy ≡ false
      → Passes curl doh_url task (resolve_task curl socks_dns_ok doh_url now task)
  unfolding resolve_task validate_resolve_report
  resolve_task-Passes task id done =
      elim (Bool-cases (not (outbound_healthy socks_dns_ok (strip task.detour_tag)))) [
        | inl down ↦ absurd (let no : true ≡ false = rw down at done in cc)
        | inr up ↦
            elim (Bool-cases
              (not (str_eq (strip task.detour_tag) "direct") && not (is_some (proxy_of task)))) [
                | inl lost ↦ absurd (let no : true ≡ false = rw (up, lost) at done in cc)
                | inr found ↦
                    let same : (task.line_id == task.line_id) ≡ true = ground arith in
                    rw
                      (
                        up,
                        found,
                        id,
                        same,
                        differ-strip task.detour_tag,
                        differ-strip task.egress_hint,
                      )
                      (refl, refl, refl, refl)
              ]
      ]

  resolve_task-line_id :
      (task : Task) → (resolve_task curl socks_dns_ok doh_url now task).line_id ≡ task.line_id
  unfolding resolve_task
  resolve_task-line_id task =
      elim (Bool-cases (not (outbound_healthy socks_dns_ok (strip task.detour_tag)))) [
        | inl down ↦ rw down refl
        | inr up ↦
            elim (Bool-cases
              (not (str_eq (strip task.detour_tag) "direct") && not (is_some (proxy_of task)))) [
                | inl lost ↦ rw (up, lost) refl
                | inr found ↦ rw (up, found) refl
              ]
      ]

  -- Results of other lines leave a row alone.
  others-Leaves :
      (id : ℕ) (tasks ts : List Task)
      → All (λ (u : Task). (u.line_id == id) ≡ false) ts
      → All (Leaves id tasks) (map (resolve_task curl socks_dns_ok doh_url now) ts)
  others-Leaves id tasks [] h = tt
  others-Leaves id tasks (t ∷ ts) (h, hs) = (
    λ same. absurd (
        let line = resolve_task-line_id t in
        let hit : (t.line_id == id) ≡ true = ground arith in
        let clash : true ≡ false = sym hit ∙ h in cc),
    others-Leaves id tasks ts hs,
  )

  NewLines-tasks :
      (added : List ℕ) (ts : List Task)
      → NewTasks added ts
      → NewLines added (map (resolve_task curl socks_dns_ok doh_url now) ts)
  NewLines-tasks added [] h = tt
  NewLines-tasks added (t ∷ ts) (h, hs) = (
    ap (λ n. contains n added) (resolve_task-line_id t) ∙ h,
    rw (resolve_task-line_id t) (NewLines-tasks (t.line_id ∷ added) ts hs),
  )

  posted-first :
      (settings : Settings) (clock node_id : ℕ) (tasks ts : List Task) (inbox : Inbox) (task : Task)
      → KeyedTasks (task ∷ ts)
      → NewTasks inbox.added (task ∷ ts)
      → task_of_line task.line_id tasks ≡ some task
      → (resolve_task curl socks_dns_ok doh_url now task).skipped_unhealthy ≡ false
      → (out : Inbox) × (take_reports settings clock node_id tasks
            (map (resolve_task curl socks_dns_ok doh_url now) (task ∷ ts))
            inbox
          ≡ ok out)
        × (get_line_resolve_row task.line_id out.rows
            ≡ some
                (stored_row clock node_id task (resolve_task curl socks_dns_ok doh_url now task)))
  unfolding take_reports
  posted-first settings clock node_id tasks ts inbox task (id, mode, other, k) (fresh, new) found
        done =
      let report = resolve_task curl socks_dns_ok doh_url now task in
      let (fine, good, line, networks) = resolve_task-Passes task id done in
      let (next, e, rows, within) =
        take_report-stored settings clock node_id tasks report inbox task
          (ap (λ n. task_of_line n tasks) line ∙ found) fine good
          (ap (λ n. contains n inbox.added) line ∙ fresh) in
      let (out, e', batch) =
        take_reports-Batch settings clock node_id tasks
          (map (resolve_task curl socks_dns_ok doh_url now) ts) next
          (NewLines-tasks next.added ts (
            NewTasks-Within next.added (task.line_id ∷ inbox.added) ts (λ x h. within x (rw line h))
              new)) in
      let same : (report.line_id == task.line_id) ≡ true = ground arith in
      (
        out,
        rw e e',
        batch.leaves task.line_id (others-Leaves task.line_id tasks ts other)
            ∙ ap (get_line_resolve_row task.line_id) rows
            ∙ get-put_row task.line_id (stored_row clock node_id task report) inbox.rows
            ∙ rw same refl,
      )

  -- Where every task resolves, the batch stores the row of each task that was not skipped.
  pub posted-row :
      (settings : Settings) (clock node_id : ℕ) (tasks ts : List Task) (inbox : Inbox) (task : Task)
      → KeyedTasks ts
      → NewTasks inbox.added ts
      → All (λ (u : Task). task_of_line u.line_id tasks ≡ some u) ts
      → Memᴰ task ts
      → (resolve_task curl socks_dns_ok doh_url now task).skipped_unhealthy ≡ false
      → (out : Inbox) × (take_reports settings clock node_id tasks
            (map (resolve_task curl socks_dns_ok doh_url now) ts)
            inbox
          ≡ ok out)
        × (get_line_resolve_row task.line_id out.rows
            ≡ some
                (stored_row clock node_id task (resolve_task curl socks_dns_ok doh_url now task)))
  unfolding take_reports
  posted-row settings clock node_id tasks [] inbox task k new found m done = elim m [ ]
  posted-row settings clock node_id tasks (t ∷ ts) inbox task k new found (Memᴰ.head e) done =
      let done' : (resolve_task curl socks_dns_ok doh_url now t).skipped_unhealthy ≡ false =
        ap (λ (x : Task). (resolve_task curl socks_dns_ok doh_url now x).skipped_unhealthy) (sym e)
        ∙ done in
      let (out, same, row) =
        posted-first settings clock node_id tasks ts inbox t k new found.0 done' in
      (
        out,
        same,
        ap (λ (x : Task). get_line_resolve_row x.line_id out.rows) e
            ∙ row
            ∙ ap
                (λ (x : Task).
                  some (stored_row clock node_id x (resolve_task curl socks_dns_ok doh_url now x)))
                (sym e),
      )
  posted-row settings clock node_id tasks (t ∷ ts) inbox task (id, mode, other, k) (fresh, new)
        (f, found) (Memᴰ.tail m) done =
      let (next, e, taken) =
        take_report-Taken settings clock node_id tasks
          (resolve_task curl socks_dns_ok doh_url now t) inbox
          (ap (λ n. contains n inbox.added) (resolve_task-line_id t) ∙ fresh) in
      let within =
        Taken-Within clock node_id tasks (resolve_task curl socks_dns_ok doh_url now t) inbox next
          taken in
      let (out, e', row) =
        posted-row settings clock node_id tasks ts next task k
          (NewTasks-Within next.added (t.line_id ∷ inbox.added) ts
            (λ x h. within x (rw (resolve_task-line_id t) h)) new)
          found m done in
      (out, rw e e', row)
