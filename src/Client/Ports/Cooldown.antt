-- ===== src/Client/Ports/Cooldown.antt =====
-- The cooldown of released ports, release_device_reverse_ports and allocate_reverse_ports of
-- gfc-platform/control-plane/api/app/reverse_ssh.py.
use sip_proxy.Common.{
  ℕ, ◌+◌, ◌≤◌, ◌<◌, ◌≡◌, refl, Bool, true, false, ◌&&◌, not, List, [], ◌∷◌, ◌++◌, arith, Bool-cases,
  inl, inr, any, contains, filter, map, ◌==◌, ltb, leb, All,
}
use sip_proxy.Client.Models.{ClientDevice}
use sip_proxy.Client.Ports.{
  Settings, Db, pool_is_invalid, ReleasedReversePort, ports, cooling_ports, put_released, put_all,
  set_port, is_empty, release_device_reverse_ports, allocate_reverse_ports,
}
use sip_proxy.Client.Ports.Fresh.{allocate_reverse_ports-fresh}

abbrev holds : ℕ → ℕ → ReleasedReversePort → Bool
holds p until r = r.port == p && r.released_until == until

put_released-new :
    (p until : ℕ) (row : ReleasedReversePort) (rows : List ReleasedReversePort)
    → row.port ≡ p
    → row.released_until ≡ until
    → any (holds p until) (put_released row rows) ≡ true
unfolding put_released
put_released-new p until row [] e f = ground arith
put_released-new p until row (r ∷ rs) e f = ground (arith, put_released-new p until row rs e f)

put_released-old :
    (p until : ℕ) (row : ReleasedReversePort) (rows : List ReleasedReversePort)
    → row.released_until ≡ until
    → any (holds p until) rows ≡ true
    → any (holds p until) (put_released row rows) ≡ true
unfolding put_released
put_released-old p until row [] f h = ground arith
put_released-old p until row (r ∷ rs) f h = ground (arith, put_released-old p until row rs f)

put_all-old :
    (p id now until : ℕ) (ps : List ℕ) (rows : List ReleasedReversePort)
    → any (holds p until) rows ≡ true
    → any (holds p until) (put_all id now until ps rows) ≡ true
unfolding put_all
put_all-old p id now until [] rows h = h
put_all-old p id now until (q ∷ qs) rows h =
    put_all-old p id now until qs _ (put_released-old p until _ rows refl h)

put_all-new :
    (p id now until : ℕ) (ps : List ℕ) (rows : List ReleasedReversePort)
    → contains p ps ≡ true
    → any (holds p until) (put_all id now until ps rows) ≡ true
unfolding put_all
put_all-new p id now until [] rows h = ground arith
put_all-new p id now until (q ∷ qs) rows h = elim (Bool-cases (p == q)) [
  | inl same ↦ put_all-old p id now until qs _ (put_released-new p until _ rows (ground arith) refl)
  | inr other ↦ put_all-new p id now until qs _ (ground arith)
]

cooling :
    (p until now : ℕ) (rows : List ReleasedReversePort)
    → now < until
    → any (holds p until) rows ≡ true
    → contains p (
        map
          (λ (r : ReleasedReversePort). r.port)
          (filter
            (λ (r : ReleasedReversePort). ltb now r.released_until)
            (filter (λ (r : ReleasedReversePort). not (leb r.released_until now)) rows)))
      ≡ true
cooling p until now [] h k = ground arith
cooling p until now (r ∷ rs) h k = ground (arith, cooling p until now rs h)

-- The ports that a device gives up.
abbrev pub given_up : ClientDevice → List ℕ
given_up device = set_port device.reverse_ssh_port ++ set_port device.reverse_http_port

nonempty : (p : ℕ) (ps : List ℕ) → contains p ps ≡ true → is_empty ps ≡ false
nonempty p [] h = cc
nonempty p (q ∷ qs) h = refl

-- The removal of ended cooldowns keeps those that have not ended.
cooling_ports-holds :
    (p until now : ℕ) (db : Db)
    → now < until
    → any (holds p until) db.released ≡ true
    → any (holds p until) (cooling_ports now db).1.released ≡ true
unfolding cooling_ports
cooling_ports-holds p until now db soon h = kept db.released h
  where
    kept :
        (rows : List ReleasedReversePort)
        → any (holds p until) rows ≡ true
        → any
            (holds p until)
            (filter (λ (r : ReleasedReversePort). not (leb r.released_until now)) rows)
          ≡ true
    kept [] k = k
    kept (r ∷ rs) k = ground (arith, kept rs)

allocate-holds :
    (settings : Settings) (p until now : ℕ) (db : Db)
    → now < until
    → any (holds p until) db.released ≡ true
    → any (holds p until) (allocate_reverse_ports settings now db).1.released ≡ true
unfolding allocate_reverse_ports
allocate-holds settings p until now db soon h = elim (Bool-cases (pool_is_invalid settings)) [
  | inl bad ↦ rw bad h
  | inr good ↦ rw good (cooling_ports-holds p until now db soon h)
]

-- The database after allocations at these times, one after the other.
unfoldable pub after_allocations : Settings → List ℕ → Db → Db
after_allocations settings [] db = db
after_allocations settings (t ∷ times) db =
    after_allocations settings times (allocate_reverse_ports settings t db).1

after_allocations-holds :
    (settings : Settings) (p until : ℕ) (times : List ℕ) (db : Db)
    → All (λ t. t < until) times
    → any (holds p until) db.released ≡ true
    → any (holds p until) (after_allocations settings times db).released ≡ true
unfolding after_allocations
after_allocations-holds settings p until [] db early h = h
after_allocations-holds settings p until (t ∷ times) db (soon, early) h =
    after_allocations-holds settings p until times (allocate_reverse_ports settings t db).1 early
      (allocate-holds settings p until t db soon h)

release-holds :
    (settings : Settings) (released p : ℕ) (device : ClientDevice) (db : Db)
    → 0 < settings.reverse_ssh_port_release_cooldown_seconds
    → contains p (given_up device) ≡ true
    → any
        (holds p (released + settings.reverse_ssh_port_release_cooldown_seconds))
        (release_device_reverse_ports settings released device db).released
      ≡ true
unfolding release_device_reverse_ports
release-holds settings released p device db some_time h =
    let cooldown = settings.reverse_ssh_port_release_cooldown_seconds in
    let positive : leb cooldown 0 ≡ false = ground arith in
    rw (nonempty p (given_up device) h) (
      rw positive
        (put_all-new p device.id released (released + cooldown) (given_up device) db.released h))

-- After the release of a device's ports at `released` and allocations at any times before the end of
-- the cooldown, an allocation from `released` on and before that end returns none of those ports, where
-- the pool gives each device at least two.
pub release-allocate :
    (settings : Settings) (released now : ℕ) (times : List ℕ) (device : ClientDevice) (db : Db)
    {ssh http : ℕ}
    → 2 ≤ settings.client_ports_per_device
    → released ≤ now
    → now < released + settings.reverse_ssh_port_release_cooldown_seconds
    → All (λ t. t < released + settings.reverse_ssh_port_release_cooldown_seconds) times
    → (allocate_reverse_ports settings now (
        after_allocations settings times
          (release_device_reverse_ports settings released device db))).0
      ≡ ports ssh http
    → (contains ssh (given_up device) ≡ false) × (contains http (given_up device) ≡ false)
release-allocate settings released now times device db {ssh} {http} two later soon early e =
    let until = released + settings.reverse_ssh_port_release_cooldown_seconds in
    let start = release_device_reverse_ports settings released device db in
    let end = after_allocations settings times start in
    let cooled : (p : ℕ)
        → contains p (given_up device) ≡ true
        → contains p (cooling_ports now end).0 ≡ true =
      λ p h.
        unfold cooling_ports in
        cooling p until now end.released soon (
          after_allocations-holds settings p until times start early
            (release-holds settings released p device db (omega arith) h)) in
    let (_, _, _, _, _, a, b) = allocate_reverse_ports-fresh settings now end two e in
    (ground (arith, cooled ssh), ground (arith, cooled http))
