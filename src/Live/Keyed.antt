-- ===== src/Live/Keyed.antt =====
-- The tasks of lines with different ids, in the catalog of live_catalog.py.
use sip_proxy.Common.{
  ℕ, ◌≡◌, refl, sym, ap, ◌∙◌, true, false, not, none, some, List, [], ◌∷◌, inl, inr, arith, ◌==◌,
  Bool-cases, All,
}
use mathlib.Core.List.{Memᴰ}
use sip_proxy.Nodes.Config.{Line, parse_line_platforms}
use sip_proxy.Nodes.Monitor.{SocksProfile}
use sip_proxy.Live.Catalog.{
  LiveEndpoint, Task, Services, is_live, has_no_platform, make_task, build_tasks,
}
use sip_proxy.Live.Reports.{task_of_line}

-- The ids are those of a table: none is 0 and none occurs twice.
abbrev pub Keyed : List Line → Type 0
Keyed [] = Unit
Keyed (l ∷ ls) = ((l.id == 0) ≡ false) × All (λ (m : Line). (m.id == l.id) ≡ false) ls × Keyed ls

abbrev pub KeyedTasks : List Task → Type 0
KeyedTasks [] = Unit
KeyedTasks (t ∷ ts) =
    ((t.line_id == 0) ≡ false)
    × (t.live_mode ≡ "live_catalog")
    × All (λ (u : Task). (u.line_id == t.line_id) ≡ false) ts
    × KeyedTasks ts

task_of_line-none :
    (id : ℕ) (ts : List Task)
    → All (λ (u : Task). (u.line_id == id) ≡ false) ts
    → task_of_line id ts ≡ none
unfolding task_of_line
task_of_line-none id [] h = refl
task_of_line-none id (t ∷ ts) (h, hs) = rw (task_of_line-none id ts hs, h) refl

pub task_of_line-member :
    (t : Task) (ts : List Task) → Memᴰ t ts → KeyedTasks ts → task_of_line t.line_id ts ≡ some t
unfolding task_of_line
task_of_line-member t [] m k = elim m [ ]
task_of_line-member t (u ∷ ts) (Memᴰ.head e) (zero', mode, other, k) =
    let id : t.line_id ≡ u.line_id = ap (λ (x : Task). x.line_id) e in
    let behind : task_of_line t.line_id ts ≡ none =
      ap (λ n. task_of_line n ts) id ∙ task_of_line-none u.line_id ts other in
    let same : (u.line_id == t.line_id) ≡ true = ground arith in rw (behind, same) (ap some (sym e))
task_of_line-member t (u ∷ ts) (Memᴰ.tail m) (zero', mode, other, k) =
    rw (task_of_line-member t ts m k) refl

module _ (services : Services) (endpoints : List LiveEndpoint) (profiles : List SocksProfile) where
  build_tasks-All :
      (id : ℕ) (lines : List Line)
      → All (λ (m : Line). (m.id == id) ≡ false) lines
      → All
          (λ (u : Task). (u.line_id == id) ≡ false)
          (build_tasks services endpoints profiles lines)
  unfolding build_tasks make_task
  build_tasks-All id [] h = tt
  build_tasks-All id (l ∷ ls) (h, hs) =
      let rest = build_tasks-All id ls hs in
      elim (Bool-cases (not (is_live l))) [
        | inl off ↦ rw off rest
        | inr on ↦ elim (Bool-cases (has_no_platform (parse_line_platforms l))) [
          | inl empty ↦ rw (on, empty) rest
          | inr full ↦ rw (on, full) (h, rest)
        ]
      ]

  pub build_tasks-Keyed :
      (lines : List Line) → Keyed lines → KeyedTasks (build_tasks services endpoints profiles lines)
  unfolding build_tasks make_task
  build_tasks-Keyed [] k = tt
  build_tasks-Keyed (l ∷ ls) (zero', other, k) =
      let rest = build_tasks-Keyed ls k in
      elim (Bool-cases (not (is_live l))) [
        | inl off ↦ rw off rest
        | inr on ↦ elim (Bool-cases (has_no_platform (parse_line_platforms l))) [
          | inl empty ↦ rw (on, empty) rest
          | inr full ↦ rw (on, full) (zero', refl, build_tasks-All l.id ls other, rest)
        ]
      ]

  pub build_tasks-member :
      (line : Line) (lines : List Line)
      → Memᴰ line lines
      → is_live line ≡ true
      → has_no_platform (parse_line_platforms line) ≡ false
      → Memᴰ
          (make_task services endpoints profiles line)
          (build_tasks services endpoints profiles lines)
  unfolding build_tasks
  build_tasks-member line [] m live full = elim m [ ]
  build_tasks-member line (l ∷ ls) (Memᴰ.head e) live full = rw (← e, live, full) (Memᴰ.head refl)
  build_tasks-member line (l ∷ ls) (Memᴰ.tail m) live full =
      let rest = build_tasks-member line ls m live full in
      elim (Bool-cases (not (is_live l))) [
        | inl off ↦ rw off rest
        | inr on ↦ elim (Bool-cases (has_no_platform (parse_line_platforms l))) [
          | inl empty ↦ rw (on, empty) rest
          | inr some' ↦ rw (on, some') (Memᴰ.tail rest)
        ]
      ]

pub Keyed-id :
    (line : Line) (lines : List Line) → Memᴰ line lines → Keyed lines → (line.id == 0) ≡ false
Keyed-id line [] m k = elim m [ ]
Keyed-id line (l ∷ ls) (Memᴰ.head e) (zero', other, k) = ap (λ (x : Line). x.id == 0) e ∙ zero'
Keyed-id line (l ∷ ls) (Memᴰ.tail m) (zero', other, k) = Keyed-id line ls m k
