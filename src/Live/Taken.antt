-- ===== src/Live/Taken.antt =====
-- What one report of a batch does, the round of report_live_resolve of
-- gfc-platform/control-plane/api/app/main.py.
use sip_proxy.Common.{
  ℕ, suc, String, ◌⊎◌, ◌≡◌, ◌∙◌, refl, true, false, ◌||◌, Option, none, some, List, [], ◌∷◌, inl,
  inr, arith, ◌==◌, Bool-cases, Option-cases, if◌then◌else◌, contains,
}
use sip_proxy.Common.Http.{Http, ok, error}
use sip_proxy.Nodes.Alerts.{Settings}
use sip_proxy.Live.Catalog.{Task}
use sip_proxy.Live.Reports.{
  Report, Verdict, accepted, rejected, LiveResolveResult, Inbox, validate_resolve_report,
  merge_report_to_payload, get_line_resolve_row, put_row, upsert_resolve_result, task_of_line,
  new_row, note_line, refuse, accept, take_report,
}

pub task_of_line-same :
    (id : ℕ) (tasks : List Task) (t : Task)
    → task_of_line id tasks ≡ some t
    → (t.line_id == id) ≡ true
unfolding task_of_line
task_of_line-same id [] t h = cc
task_of_line-same id (x ∷ xs) t h = elim (Option-cases (task_of_line id xs)) [
  | inr (later, e) ↦
      let same : some later ≡ some t = rw e at h in task_of_line-same id xs t (e ∙ same)
  | inl nothing ↦ elim (Bool-cases (x.line_id == id)) [
    | inl hit ↦
        let same : some x ≡ some t = rw (nothing, hit) at h in let e : x ≡ t = cc in rw (← e) hit
    | inr miss ↦ absurd (let no : none ≡ some t = rw (nothing, miss) at h in cc)
  ]
]

-- A row that is put is found, and the rows of other lines stay.
pub get-put_row :
    (id : ℕ) (row : LiveResolveResult) (rows : List LiveResolveResult)
    → get_line_resolve_row id (put_row row rows)
      ≡ (if row.line_id == id then some row else get_line_resolve_row id rows)
unfolding get_line_resolve_row put_row
get-put_row id row [] = refl
get-put_row id row (r ∷ rows) = ground (arith, get-put_row id row rows)

abbrev pub stored_row : ℕ → ℕ → Task → Report → LiveResolveResult
stored_row now node_id task report =
    record (new_row node_id task report (merge_report_to_payload now task report)) {
      updated_at = now;
    }

pub Verdict-cases :
    (v : Verdict)
    → (v ≡ accepted) ⊎ ((kind : String) × (message : String) × (v ≡ rejected kind message))
Verdict-cases accepted = inl refl
Verdict-cases (rejected kind message) = inr (kind, message, refl)

-- No line that counts as added here counts as added there.
abbrev pub Within : List ℕ → List ℕ → Type 0
Within added more = (x : ℕ) → contains x more ≡ false → contains x added ≡ false

note_line-Within :
    (line_id : ℕ) (row : Option LiveResolveResult) (added : List ℕ)
    → Within (note_line line_id row added) (line_id ∷ added)
note_line-Within line_id none added x h = h
note_line-Within line_id (some _) added x h = ground arith

-- The ends of a round without an error.
pub data Taken (now node_id : ℕ) (tasks : List Task) (report : Report) (inbox : Inbox) (out : Inbox)
    : Type 0 where
  refused :
      out.rows ≡ inbox.rows
      → out.accepted_count ≡ inbox.accepted_count
      → out.rejected_count ≡ suc inbox.rejected_count
      → out.added ≡ inbox.added
      → Taken now node_id tasks report inbox out
  stored :
      (task : Task)
      → task_of_line report.line_id tasks ≡ some task
      → out.rows ≡ put_row (stored_row now node_id task report) inbox.rows
      → out.accepted_count ≡ suc inbox.accepted_count
      → out.rejected_count ≡ inbox.rejected_count
      → Within out.added (report.line_id ∷ inbox.added)
      → Taken now node_id tasks report inbox out

-- There is an error only where a row was added for the line of the report.
Ends : ℕ → ℕ → List Task → Report → Inbox → Http Inbox → Type 0
Ends now node_id tasks report inbox result =
    ((out : Inbox) × (result ≡ ok out) × Taken now node_id tasks report inbox out)
    ⊎ ((contains report.line_id inbox.added ≡ true)
        × (status : ℕ) × (detail : String) × (result ≡ error status detail))

accept-Ends :
    (now node_id : ℕ) (tasks : List Task) (report : Report) (inbox : Inbox) (task : Task)
    → task_of_line report.line_id tasks ≡ some task
    → Ends now node_id tasks report inbox (accept now node_id task report inbox)
unfolding Ends accept upsert_resolve_result merge_report_to_payload
accept-Ends now node_id tasks report inbox task found =
    let same : (task.line_id == report.line_id) ≡ true =
      task_of_line-same report.line_id tasks task found in
    elim (Bool-cases (report.skipped_unhealthy || report.used_fallback_vantage)) [
      | inl bad ↦ rw bad (
          inl (
            record inbox { rejected_count = suc inbox.rejected_count },
            refl,
            refused refl refl refl refl,
          ))
      | inr good ↦ elim (Bool-cases (contains report.line_id inbox.added)) [
        | inl twice ↦ rw (good, same, twice) (inr (refl, 500, "duplicate key", refl))
        | inr once ↦
            rw (good, same, once)
              (inl (
                _,
                refl,
                stored task found refl refl refl (
                    note_line-Within report.line_id (get_line_resolve_row report.line_id inbox.rows)
                      inbox.added),
              ))
      ]
    ]

pub take_report-Ends :
    (settings : Settings) (now node_id : ℕ) (tasks : List Task) (report : Report) (inbox : Inbox)
    → ((out : Inbox) × (take_report settings now node_id tasks report inbox ≡ ok out)
        × Taken now node_id tasks report inbox out)
      ⊎ ((contains report.line_id inbox.added ≡ true)
          × (status : ℕ) × (detail : String) × (take_report settings now node_id tasks report inbox
              ≡ error status detail))
unfolding take_report refuse Ends
take_report-Ends settings now node_id tasks report inbox =
    elim (Option-cases (task_of_line report.line_id tasks)) [
      | inl nothing ↦ rw (nothing, take_report) (inl (_, refl, refused refl refl refl refl))
      | inr (task, found) ↦ elim (Verdict-cases (validate_resolve_report task report)) [
        | inl fine ↦
            rw (found, fine, take_report) (accept-Ends now node_id tasks report inbox task found)
        | inr (kind, message, bad) ↦
            rw (found, bad, take_report) (inl (_, refl, refused refl refl refl refl))
      ]
    ]

-- A report that passes the checks is stored.
pub take_report-stored :
    (settings : Settings) (now node_id : ℕ) (tasks : List Task) (report : Report) (inbox : Inbox)
    (task : Task)
    → task_of_line report.line_id tasks ≡ some task
    → validate_resolve_report task report ≡ accepted
    → (report.skipped_unhealthy || report.used_fallback_vantage) ≡ false
    → contains report.line_id inbox.added ≡ false
    → (out : Inbox) × (take_report settings now node_id tasks report inbox ≡ ok out)
      × (out.rows ≡ put_row (stored_row now node_id task report) inbox.rows)
      × Within out.added (report.line_id ∷ inbox.added)
unfolding take_report accept upsert_resolve_result merge_report_to_payload
take_report-stored settings now node_id tasks report inbox task found fine good once =
    let same = task_of_line-same report.line_id tasks task found in
    rw (found, fine, good, same, once, take_report, accept, upsert_resolve_result)
      (
        _,
        refl,
        refl,
        note_line-Within report.line_id (get_line_resolve_row report.line_id inbox.rows)
            inbox.added,
      )

-- The lines of the reports differ, and no row was added for them.
abbrev pub NewLines : List ℕ → List Report → Type 0
NewLines added [] = Unit
NewLines added (r ∷ reports) =
    (contains r.line_id added ≡ false) × NewLines (r.line_id ∷ added) reports

pub NewLines-Within :
    (added more : List ℕ) (reports : List Report)
    → Within added more
    → NewLines more reports
    → NewLines added reports
NewLines-Within added more [] within h = tt
NewLines-Within added more (r ∷ reports) within (h, hs) = (
  within r.line_id h,
  NewLines-Within (r.line_id ∷ added) (r.line_id ∷ more) reports
      (λ x k. let rest : contains x added ≡ false = within x (ground arith) in ground arith) hs,
)

pub Taken-Within :
    (now node_id : ℕ) (tasks : List Task) (report : Report) (inbox out : Inbox)
    → Taken now node_id tasks report inbox out
    → Within out.added (report.line_id ∷ inbox.added)
Taken-Within now node_id tasks report inbox out (refused rows a r same) x h = rw same (ground arith)
Taken-Within now node_id tasks report inbox out (stored task found rows a r within) x h = within x h

-- A report of a line for which no row was added ends a round without an error.
pub take_report-Taken :
    (settings : Settings) (now node_id : ℕ) (tasks : List Task) (report : Report) (inbox : Inbox)
    → contains report.line_id inbox.added ≡ false
    → (out : Inbox) × (take_report settings now node_id tasks report inbox ≡ ok out)
      × Taken now node_id tasks report inbox out
take_report-Taken settings now node_id tasks report inbox once =
    elim (take_report-Ends settings now node_id tasks report inbox) [
      | inl taken ↦ taken
      | inr (twice, _, _, _) ↦ absurd cc
    ]
