-- ===== src/Client/Custody/Handlers.antt =====
-- The keys of the table through the update, the soft reset and the upgrade of a client device, in
-- gfc-platform/control-plane/api/app/admin.py.
use sip_proxy.Common.{
  ℕ, String, ◌≡◌, ◌∙◌, refl, sym, ap, true, false, not, ◌&&◌, Option, none, some, List, [], ◌∷◌,
  arith, inl, inr, Bool-cases, Option-cases, All, All-map, any, find, find-some, ◌==◌, str_eq,
}
use mathlib.Core.List.{Memᴰ}
use sip_proxy.Common.Text.{strip, concat}
use sip_proxy.Common.Int.{pos}
use sip_proxy.Common.Dict.{Dict, Json, null, int, str, lookup, lookup-insert}
use sip_proxy.Common.Http.{Http, ok, ◌>>=◌}
use sip_proxy.Access.Policies.{filter_client_device_update}
use sip_proxy.Client.Models.{ClientDevice}
use sip_proxy.Client.Ports.{replace_device}
use sip_proxy.Client.Tables.{World, Line, Tombstone}
use sip_proxy.Client.Activation.{opt_eq}
use sip_proxy.Client.Activation.Rows.{
  same_line, Differ, Unique, Others, Unique-Others, Unique-replace_device,
}
use sip_proxy.Common.Http.{After, After-bind, After-ok}
use sip_proxy.Client.Heartbeat.Tables.{Same}
use sip_proxy.Client.Custody.{
  Operator, find_row, get_row, check_line, trim_name, stamp_device, set_fields, number_of,
  update_client_device, soft_factory_reset, reset_device, Artifact, queue_device_upgrade,
  upgrade_client_device,
}
use sip_proxy.Client.Custody.Keys.{SameKey, Unique-SameKey, is_enrolled-replace_device}
use sip_proxy.Client.Custody.Spec.{Event, changed, Sound, Post, Post-changed}

-- What a step leaves of a world's two tables.
abbrev pub Follows : Event → World → World → Type 0
Follows event w w' = Post event w.db.devices w.tombstones w'.db.devices w'.tombstones

abbrev pub Safe : World → Type 0
Safe w = Sound w.db.devices w.tombstones

-- A row that the handler finds is one of the table.
pub After-get_row :
    (P : World → Type 0) (id : ℕ) (w : World) (f : ClientDevice → Http World)
    → ((d : ClientDevice) → Memᴰ d w.db.devices → (d.id == id) ≡ true → After P (f d))
    → After P (get_row id w >>= f)
After-get_row P id w f h = elim (Option-cases (find_row id w.db.devices)) [
  | inl e ↦ rw (e, get_row) tt
  | inr (d, e) ↦
      let (m, same) = find-some (λ (d : ClientDevice). d.id == id) w.db.devices d e in
      rw (e, get_row) (h d m same)
]

-- The line of a row is none of the other rows'.
abbrev pub LineFree : ℕ → Option ℕ → List ClientDevice → Type 0
LineFree id line =
    All (λ (e : ClientDevice). (e.id == id) ≡ false → same_line line e.line_id ≡ false)

-- A row of the table keeps its line, or has none.
pub LineFree-own :
    (d : ClientDevice) (ds : List ClientDevice) → Memᴰ d ds → Unique ds → LineFree d.id d.line_id ds
LineFree-own d ds m u =
    All-map (λ e. (e.id == d.id) ≡ false → Differ d e)
      (λ e. (e.id == d.id) ≡ false → same_line d.line_id e.line_id ≡ false) ds (λ e h n. (h n).2)
      (Unique-Others d ds m u)

LineFree-none : (id : ℕ) (ds : List ClientDevice) → LineFree id none ds
LineFree-none id [] = tt
LineFree-none id (d ∷ ds) = (λ _. refl, LineFree-none id ds)

-- A row saved under its id and key, on a line that no other row has, changes no key.
pub saved :
    (x d : ClientDevice) (ds : List ClientDevice) (ts : List Tombstone)
    → Sound ds ts
    → Memᴰ d ds
    → x.id ≡ d.id
    → x.device_key ≡ d.device_key
    → LineFree d.id x.line_id ds
    → Post changed ds ts (replace_device x ds) ts
saved x d ds ts (u, s, n) m i k free =
    Post-changed ds (replace_device x ds) ts (u, s, n)
      (Unique-replace_device x ds (others ds (Unique-Others d ds m u) free) u)
      (λ key. is_enrolled-replace_device x key ds same)
  where
    same : SameKey x ds
    same =
        All-map (λ e. (e.id == d.id) ≡ true → e.device_key ≡ d.device_key)
          (λ e. (e.id == x.id) ≡ true → e.device_key ≡ x.device_key) ds
          (λ e h n. h (rw i at n) ∙ sym k) (Unique-SameKey d ds m u)

    others :
        (rows : List ClientDevice) → Others d rows → LineFree d.id x.line_id rows → Others x rows
    others [] o f = tt
    others (e ∷ es) (o, os) (f, fs) =
        (λ n. let n' = rw i at n in (rw i (o n').0, rw k (o n').1, f n'), others es os fs)

-- The line that a request sets is checked.
check_line-LineFree :
    (d : ClientDevice) (id : ℕ) (line : Option Json) (w : World)
    → Memᴰ d w.db.devices
    → (d.id == id) ≡ true
    → Unique w.db.devices
    → check_line id line w ≡ ok tt
    → LineFree d.id (elim line [ none ↦ d.line_id | some v ↦ number_of v ]) w.db.devices
unfolding check_line
check_line-LineFree d id none w m same u e = LineFree-own d w.db.devices m u
check_line-LineFree d id (some null) w m same u e = LineFree-none d.id w.db.devices
check_line-LineFree d id (some (int (pos n))) w m same u e =
    elim (Option-cases (find (λ (l : Line). l.id == n) w.lines)) [
      | inl missing ↦ absurd (let k = rw (missing, check_line) at e in cc)
      | inr (l, found) ↦
          elim (Bool-cases
            (any (λ (f : ClientDevice). opt_eq f.line_id n && not (f.id == id)) w.db.devices)) [
              | inl held ↦ absurd (let k = rw (found, held, check_line) at e in cc)
              | inr free ↦ free_rows w.db.devices free
            ]
    ]
  where
    not_held :
        (o : Option ℕ) (i : ℕ)
        → (opt_eq o n && not (i == id)) ≡ false
        → (i == d.id) ≡ false
        → same_line (some n) o ≡ false
    not_held none i h other = refl
    not_held (some l) i h other = ground (arith, same)

    free_rows :
        (ds : List ClientDevice)
        → any (λ (f : ClientDevice). opt_eq f.line_id n && not (f.id == id)) ds ≡ false
        → LineFree d.id (some n) ds
    free_rows [] h = tt
    free_rows (f ∷ fs) h = (
      λ other. not_held f.line_id f.id (ground (arith, h)) other,
      free_rows fs (ground (arith, h)),
    )
check_line-LineFree d id (some v) w m same u e = LineFree-none d.id w.db.devices

pub trim_name-lookup :
    (fields trimmed : Dict Json)
    → trim_name fields ≡ ok trimmed
    → lookup "line_id" trimmed ≡ lookup "line_id" fields
unfolding trim_name
trim_name-lookup fields trimmed e =
    After-ok Kept (trim_name fields) trimmed (go (lookup "name" fields) refl) e
  where
    Kept : Dict Json → Type 0
    Kept m = lookup "line_id" m ≡ lookup "line_id" fields

    go :
        (name : Option Json)
        → lookup "name" fields ≡ name
        → After (λ (m : Dict Json). lookup "line_id" m ≡ lookup "line_id" fields) (trim_name fields)
    go none e = rw (e, trim_name) refl
    go (some (str s)) e = elim (Bool-cases (str_eq (strip s) "")) [
      | inl empty ↦ rw (e, trim_name, empty) tt
      | inr some_name ↦
          rw (e, trim_name, some_name) (lookup-insert "name" "line_id" (str (strip s)) fields)
    ]
    go (some v) e = rw (e, trim_name) refl

stamp_device-Same :
    (now : ℕ) (fields : Dict Json) (d : ClientDevice) → Same (stamp_device now fields d) d
unfolding stamp_device
stamp_device-Same now fields d = (ground arith, ground arith, ground arith)

pub updated-line :
    (now : ℕ) (fields trimmed : Dict Json) (d : ClientDevice)
    → lookup "line_id" trimmed ≡ lookup "line_id" fields
    → (set_fields trimmed (stamp_device now trimmed d)).line_id
      ≡ elim (lookup "line_id" fields) [ none ↦ d.line_id | some v ↦ number_of v ]
unfolding set_fields
updated-line now fields trimmed d e =
    ap (set_to (stamp_device now trimmed d).line_id) e
    ∙ ap (λ (line : Option ℕ). set_to line (lookup "line_id" fields))
        (stamp_device-Same now trimmed d).2
  where
    set_to : Option ℕ → Option Json → Option ℕ
    set_to line o = elim o [ none ↦ line | some v ↦ number_of v ]

updated :
    (now device_id : ℕ) (fields trimmed : Dict Json) (d : ClientDevice) (w : World)
    → Safe w
    → Memᴰ d w.db.devices
    → (d.id == device_id) ≡ true
    → check_line device_id (lookup "line_id" fields) w ≡ ok tt
    → lookup "line_id" trimmed ≡ lookup "line_id" fields
    → Post changed w.db.devices w.tombstones
        (replace_device (set_fields trimmed (stamp_device now trimmed d)) w.db.devices)
        w.tombstones
unfolding set_fields
updated now device_id fields trimmed d w safe m same passed kept =
    let x : ClientDevice = stamp_device now trimmed d in
    let (i, k, l) = stamp_device-Same now trimmed d in
    saved (set_fields trimmed x) d w.db.devices w.tombstones safe m i k (
      rw (updated-line now fields trimmed d kept)
        (check_line-LineFree d device_id (lookup "line_id" fields) w m same safe.0 passed))

pub update_client_device-Follows :
    (operator : Operator) (now device_id : ℕ) (body : Dict Json) (w w' : World)
    → Safe w
    → update_client_device operator now device_id body w ≡ ok w'
    → Follows changed w w'
unfolding update_client_device
update_client_device-Follows operator now device_id body w w' safe e =
    After-ok (Follows changed w) (update_client_device operator now device_id body w) w'
      (After-get_row (Follows changed w) device_id w _ (λ d m same.
        After-bind (Follows changed w) (filter_client_device_update operator.role body) _
          (λ fields _.
            After-bind (Follows changed w) (check_line device_id (lookup "line_id" fields) w) _
              (λ _ passed. After-bind (Follows changed w) (trim_name fields) _ (λ trimmed kept.
                updated now device_id fields trimmed d w safe m same passed
                  (trim_name-lookup fields trimmed kept))))))
      e

pub soft_factory_reset-Follows :
    (operator : Operator) (now : ℕ) (request_id : String) (device_id : ℕ) (w w' : World)
    → Safe w
    → soft_factory_reset operator now request_id device_id w ≡ ok w'
    → Follows changed w w'
unfolding soft_factory_reset
soft_factory_reset-Follows operator now request_id device_id w w' safe e =
    After-ok (Follows changed w) (soft_factory_reset operator now request_id device_id w) w'
      (After-get_row (Follows changed w) device_id w _ (λ d m same.
        saved (reset_device now request_id d) d w.db.devices w.tombstones safe m refl refl
          (LineFree-none d.id w.db.devices)))
      e

pub upgrade_client_device-Follows :
    (operator : Operator) (now : ℕ) (request_id : String) (artifact_id device_id : ℕ)
    (artifacts : List Artifact) (w w' : World)
    → Safe w
    → upgrade_client_device operator now request_id artifact_id device_id artifacts w ≡ ok w'
    → Follows changed w w'
unfolding upgrade_client_device
upgrade_client_device-Follows operator now request_id artifact_id device_id artifacts w w' safe e =
    After-ok (Follows changed w)
      (upgrade_client_device operator now request_id artifact_id device_id artifacts w) w'
      (After-get_row (Follows changed w) device_id w _ (λ d m same.
        elim (Option-cases (find (λ (a : Artifact). a.id == artifact_id) artifacts)) [
          | inl missing ↦ rw missing tt
          | inr (a, found) ↦ elim (Bool-cases a.is_enabled) [
            | inl on ↦
                rw (found, on)
                  (saved
                    (queue_device_upgrade now request_id
                      (concat ("queued by " ∷ operator.username ∷ [])) a d)
                    d w.db.devices w.tombstones safe m refl refl
                    (LineFree-own d w.db.devices m safe.0))
            | inr off ↦ rw (found, off) tt
          ]
        ]))
      e
