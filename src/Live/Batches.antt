-- ===== src/Live/Batches.antt =====
-- A batch of reports, report_live_resolve of gfc-platform/control-plane/api/app/main.py: its answer, the
-- rows it leaves alone and the form of the rows.
use sip_proxy.Common.{
  ℕ, ◌+◌, String, ◌≡◌, ◌∙◌, refl, sym, ap, true, Option, none, some, List, [], ◌∷◌, ◌++◌, inl, inr,
  arith, ◌==◌, Bool-cases, length, All,
}
use mathlib.Core.Path.{subst}
use sip_proxy.Common.Http.{ok, Http, error, After, After-bind, After-ok}
use sip_proxy.Nodes.Alerts.{Settings}
use sip_proxy.Nodes.Models.{Node}
use sip_proxy.Nodes.Tokens.{auth_node}
use sip_proxy.Nodes.Config.{cidrs}
use sip_proxy.Live.Catalog.{Task, Services}
use sip_proxy.Live.Reports.{
  Report, LiveResolveResult, Inbox, LiveWorld, merge_report_to_payload, get_line_resolve_row,
  put_row, task_of_line, node_tasks, take_reports, open_inbox, report_live_resolve,
}
use sip_proxy.Live.Once.{Distinct, push_new-Distinct}
use sip_proxy.Live.Trimmed.{IsTrimmed, cidrs-IsTrimmed, push_new-All}
use sip_proxy.Live.Taken.{
  Taken, refused, stored, stored_row, get-put_row, take_report-Ends, take_report-Taken, NewLines,
  NewLines-Within, Taken-Within, task_of_line-same,
}

-- A row holds a payload of its own line, with trimmed networks that occur once.
abbrev pub IsKept : LiveResolveResult → Type 0
IsKept row =
    (row.payload.line_id ≡ row.line_id)
    × Distinct row.payload.cidrs
    × All IsTrimmed row.payload.cidrs

put_row-All :
    (row : LiveResolveResult) (rows : List LiveResolveResult)
    → IsKept row
    → All IsKept rows
    → All IsKept (put_row row rows)
unfolding put_row
put_row-All row [] h hs = (h, tt)
put_row-All row (r ∷ rows) h (k, hs) = elim (Bool-cases (r.line_id == row.line_id)) [
  | inl same ↦ rw same (h, hs)
  | inr other ↦ rw other (k, put_row-All row rows h hs)
]

stored_row-IsKept :
    (now node_id : ℕ) (tasks : List Task) (report : Report) (task : Task)
    → task_of_line report.line_id tasks ≡ some task
    → IsKept (stored_row now node_id task report)
unfolding merge_report_to_payload
stored_row-IsKept now node_id tasks report task found =
    let same = task_of_line-same report.line_id tasks task found in
    let both = task.static_cidrs ++ report.cidrs in
    (
      ground arith,
      push_new-Distinct (cidrs both),
      push_new-All [] (cidrs both) tt (cidrs-IsTrimmed both),
    )

-- A report may touch the row of a line only where the line has a task.
abbrev pub Leaves : ℕ → List Task → Report → Type 0
Leaves id tasks report = (report.line_id == id) ≡ true → task_of_line id tasks ≡ none

Taken-row :
    (now node_id : ℕ) (tasks : List Task) (report : Report) (inbox out : Inbox) (id : ℕ)
    → Leaves id tasks report
    → Taken now node_id tasks report inbox out
    → get_line_resolve_row id out.rows ≡ get_line_resolve_row id inbox.rows
Taken-row now node_id tasks report inbox out id leaves (refused rows a r same) =
    ap (get_line_resolve_row id) rows
Taken-row now node_id tasks report inbox out id leaves (stored task found rows a r within) =
    ap (get_line_resolve_row id) rows
    ∙ get-put_row id (stored_row now node_id task report) inbox.rows
    ∙ elim (Bool-cases (report.line_id == id)) [
      | inl same ↦ absurd (
          let e : report.line_id ≡ id = ground arith in
          let clash : some task ≡ none =
            sym found ∙ ap (λ n. task_of_line n tasks) e ∙ leaves same in
          cc)
      | inr other ↦ rw other refl
    ]

-- What holds of a batch from its start to its end.
pub record Batch (node_id : ℕ) (tasks : List Task) (reports : List Report) (inbox out : Inbox)
    : Type 0 where
  pub counts :
      out.accepted_count + out.rejected_count
      ≡ inbox.accepted_count + inbox.rejected_count + length reports
  pub kept : All IsKept inbox.rows → All IsKept out.rows
  pub leaves :
      (id : ℕ)
      → All (Leaves id tasks) reports
      → get_line_resolve_row id out.rows ≡ get_line_resolve_row id inbox.rows

Taken-Batch :
    (now node_id : ℕ) (tasks : List Task) (report : Report) (inbox out : Inbox)
    → Taken now node_id tasks report inbox out
    → Batch node_id tasks (report ∷ []) inbox out
Taken-Batch now node_id tasks report inbox out taken = record {
  counts = elim taken [
    | refused rows a r same ↦ omega (arith, a, r)
    | stored task found rows a r within ↦ omega (arith, a, r)
  ];
  kept = λ h. elim taken [
    | refused rows a r same ↦ subst (All IsKept) (sym rows) h
    | stored task found rows a r within ↦
        subst (All IsKept) (sym rows)
          (put_row-All _ inbox.rows (stored_row-IsKept now node_id tasks report task found) h)
  ];
  leaves = λ id l. Taken-row now node_id tasks report inbox out id l.0 taken;
}

All-Leaves :
    (id : ℕ) (tasks : List Task) (reports : List Report)
    → task_of_line id tasks ≡ none
    → All (Leaves id tasks) reports
All-Leaves id tasks [] nothing = tt
All-Leaves id tasks (r ∷ reports) nothing = (λ same. nothing, All-Leaves id tasks reports nothing)

empty-Batch : (node_id : ℕ) (tasks : List Task) (inbox : Inbox) → Batch node_id tasks [] inbox inbox
empty-Batch node_id tasks inbox = record {
  counts = omega arith;
  kept = λ h. h;
  leaves = λ id l. refl;
}

join-Batch :
    (node_id : ℕ) (tasks : List Task) (r : Report) (reports : List Report) (inbox next out : Inbox)
    → Batch node_id tasks (r ∷ []) inbox next
    → Batch node_id tasks reports next out
    → Batch node_id tasks (r ∷ reports) inbox out
join-Batch node_id tasks r reports inbox next out one rest = record {
  counts = omega (arith, one.counts, rest.counts);
  kept = λ h. rest.kept (one.kept h);
  leaves = λ id l. rest.leaves id l.1 ∙ one.leaves id (l.0, tt);
}

After-all {ℓ κ μ} :
    {A : Type ℓ} {P : A → Type κ} {Q : A → Type μ} (m : Http A)
    → ((a : A) → P a → Q a)
    → After P m
    → After Q m
After-all (ok a) f h = f a h
After-all (error status detail) f h = tt

-- Reports of lines that differ, for which no row was added, are all taken.
pub take_reports-Batch :
    (settings : Settings) (now node_id : ℕ) (tasks : List Task) (reports : List Report)
    (inbox : Inbox)
    → NewLines inbox.added reports
    → (out : Inbox) × (take_reports settings now node_id tasks reports inbox ≡ ok out)
      × Batch node_id tasks reports inbox out
unfolding take_reports
take_reports-Batch settings now node_id tasks [] inbox new =
    (inbox, refl, empty-Batch node_id tasks inbox)
take_reports-Batch settings now node_id tasks (r ∷ reports) inbox (fresh, new) =
    let (next, e, taken) = take_report-Taken settings now node_id tasks r inbox fresh in
    let within = Taken-Within now node_id tasks r inbox next taken in
    let (out, e', rest) =
      take_reports-Batch settings now node_id tasks reports next
        (NewLines-Within next.added (r.line_id ∷ inbox.added) reports within new) in
    (
      out,
      rw e e',
      join-Batch node_id tasks r reports inbox next out
          (Taken-Batch now node_id tasks r inbox next taken) rest,
    )

-- Where a batch ends without an error, it is as above.
take_reports-After :
    (settings : Settings) (now node_id : ℕ) (tasks : List Task) (reports : List Report)
    (inbox : Inbox)
    → After
        (Batch node_id tasks reports inbox)
        (take_reports settings now node_id tasks reports inbox)
unfolding take_reports
take_reports-After settings now node_id tasks [] inbox = empty-Batch node_id tasks inbox
take_reports-After settings now node_id tasks (r ∷ reports) inbox =
    elim (take_report-Ends settings now node_id tasks r inbox) [
      | inr (_, status, detail, e) ↦ rw e tt
      | inl (next, e, taken) ↦ rw e (
          After-all (take_reports settings now node_id tasks reports next)
            (λ out rest.
              join-Batch node_id tasks r reports inbox next out
                (Taken-Batch now node_id tasks r inbox next taken) rest)
            (take_reports-After settings now node_id tasks reports next))
    ]

-- A batch of a node whose token is current, whose reports are of lines that differ, is answered: the
-- counts of accepted and of rejected reports add up to the number of reports, and the stored row of a
-- line for which the node has no task stays as it is.
pub report_live_resolve-answers :
    (services : Services) (hash_token : String → String) (settings : Settings) (now : ℕ)
    (authorization : Option String) (reports : List Report) (w : LiveWorld) (node : Node) (id : ℕ)
    → auth_node hash_token authorization w.tokens w.nodes ≡ ok node
    → NewLines [] reports
    → task_of_line id (node_tasks services node.id w) ≡ none
    → (out : (ℕ × ℕ) × LiveWorld) × (report_live_resolve services hash_token settings now
          authorization reports w
        ≡ ok out)
      × (out.0.0 + out.0.1 ≡ length reports)
      × (get_line_resolve_row id out.1.rows ≡ get_line_resolve_row id w.rows)
unfolding report_live_resolve
report_live_resolve-answers services hash_token settings now authorization reports w node id auth
      new nothing =
    let (end, e, batch) =
      take_reports-Batch settings now node.id (node_tasks services node.id w) reports (open_inbox w)
        new in
    (
      (
        (end.accepted_count, end.rejected_count),
        record w { rows = end.rows; events = end.alerts ++ end.events },
      ),
      rw (auth, e) refl,
      omega (arith, batch.counts),
      batch.leaves id (All-Leaves id (node_tasks services node.id w) reports nothing),
    )

-- Where each stored row holds a payload of its own line, with networks that are trimmed, not empty and
-- listed once, a batch of any reports leaves it so.
pub report_live_resolve-IsKept :
    (services : Services) (hash_token : String → String) (settings : Settings) (now : ℕ)
    (authorization : Option String) (reports : List Report) (w : LiveWorld)
    → All IsKept w.rows
    → After
        (λ (out : (ℕ × ℕ) × LiveWorld). All IsKept out.1.rows)
        (report_live_resolve services hash_token settings now authorization reports w)
unfolding report_live_resolve
report_live_resolve-IsKept services hash_token settings now authorization reports w h =
    After-bind (λ (out : (ℕ × ℕ) × LiveWorld). All IsKept out.1.rows)
      (auth_node hash_token authorization w.tokens w.nodes) _
      (λ node auth.
        After-bind (λ (out : (ℕ × ℕ) × LiveWorld). All IsKept out.1.rows)
          (take_reports settings now node.id (node_tasks services node.id w) reports (open_inbox w))
          _
          (λ end e.
            let batch =
              After-ok (Batch node.id (node_tasks services node.id w) reports (open_inbox w))
                (take_reports settings now node.id (node_tasks services node.id w) reports
                  (open_inbox w))
                end
                (take_reports-After settings now node.id (node_tasks services node.id w) reports
                  (open_inbox w))
                e in
            batch.kept h))
