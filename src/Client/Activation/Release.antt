-- ===== src/Client/Activation/Release.antt =====
-- The holder of the line of an activation, and the table of devices without it.
use sip_proxy.Common.{
  ℕ, ◌≡◌, refl, true, false, Option, none, some, List, [], ◌∷◌, arith, inl, inr, Bool-cases,
  Option-cases, All, All-elem, All-map, find-some, find-none, ◌==◌,
}
use mathlib.Core.List.{Memᴰ}
use sip_proxy.Client.Models.{ClientDevice}
use sip_proxy.Client.Ports.{replace_device}
use sip_proxy.Client.Activation.{holder, opt_eq, is_other, release_holder}
use sip_proxy.Client.Activation.Rows.{
  same_line, Differ, Unique, All-replace_device, Unique-Others, Unique-replace_device,
}

-- No device but the given one holds the line.
abbrev pub Free : ℕ → Option ClientDevice → List ClientDevice → Type 0
Free line_id existing = All (λ d. is_other existing d ≡ true → opt_eq d.line_id line_id ≡ false)

abbrev pub released_row : ℕ → ClientDevice → ClientDevice
released_row now bound = record bound { line_id = none; binding_revoked_at = some now }

-- Rows that differ from a row of the id of `x` have another id.
All-rest :
    (P : ClientDevice → Type 0) (x d : ClientDevice) (ds : List ClientDevice)
    → (d.id == x.id) ≡ true
    → All (Differ d) ds
    → All (λ e. (e.id == x.id) ≡ false → P e) ds
    → All P ds
All-rest P x d [] same a h = tt
All-rest P x d (e ∷ es) same ((i, k, l), rest) (h, hs) =
    (h (ground arith), All-rest P x d es same rest hs)

module _ (now line_id : ℕ) (existing : Option ClientDevice) where
  -- A predicate that the loss of a line keeps holds of all rows afterwards.
  pub All-release_holder {ℓ} :
      (P : ClientDevice → Type ℓ) (ds : List ClientDevice)
      → ((d : ClientDevice) → P d → P (released_row now d))
      → All P ds
      → All P (release_holder now line_id existing ds)
  unfolding release_holder
  All-release_holder P ds f h = elim (Option-cases (holder line_id ds)) [
    | inl e ↦ rw (e, release_holder) h
    | inr (bound, e) ↦ elim (Bool-cases (is_other existing bound)) [
      | inl o ↦
          rw (e, release_holder, o)
            (All-replace_device P (released_row now bound) ds
              (f bound (
                All-elem P bound ds
                  (find-some (λ (d : ClientDevice). opt_eq d.line_id line_id) ds bound e).0 h))
              h)
      | inr o ↦ rw (e, release_holder, o) h
    ]
  ]

  pub Unique-release_holder :
      (ds : List ClientDevice) → Unique ds → Unique (release_holder now line_id existing ds)
  unfolding release_holder
  Unique-release_holder ds u = elim (Option-cases (holder line_id ds)) [
    | inl e ↦ rw (e, release_holder) u
    | inr (bound, e) ↦ elim (Bool-cases (is_other existing bound)) [
      | inl o ↦
          let m : Memᴰ bound ds =
            (find-some (λ (d : ClientDevice). opt_eq d.line_id line_id) ds bound e).0 in
          rw (e, release_holder, o)
            (Unique-replace_device (released_row now bound) ds
              (All-map (λ f. (f.id == bound.id) ≡ false → Differ bound f)
                (λ f. (f.id == bound.id) ≡ false → Differ (released_row now bound) f) ds
                (λ f g n. ((g n).0, (g n).1, refl)) (Unique-Others bound ds m u))
              u)
      | inr o ↦ rw (e, release_holder, o) u
    ]
  ]

  -- Of two rows that differ, one at most holds the line.
  not-both :
      (bound d : ClientDevice)
      → opt_eq bound.line_id line_id ≡ true
      → same_line bound.line_id d.line_id ≡ false
      → opt_eq d.line_id line_id ≡ false
  not-both bound d h s = ground arith

  -- The rows of a table whose replaced row passes, where only the rows of another id passed.
  All-replaced :
      (P : ClientDevice → Type 0) (x : ClientDevice) (ds : List ClientDevice)
      → P x
      → Unique ds
      → All (λ d. (d.id == x.id) ≡ false → P d) ds
      → All P (replace_device x ds)
  unfolding replace_device
  All-replaced P x [] p u h = tt
  All-replaced P x (d ∷ ds) p (a, u) (h, hs) = elim (Bool-cases (d.id == x.id)) [
    | inl same ↦ rw same (p, All-rest P x d ds same a hs)
    | inr other ↦ rw other (h other, All-replaced P x ds p u hs)
  ]

  -- The holder is the activating device: another device has another id.
  other_id :
      (device : Option ClientDevice) (bound d : ClientDevice)
      → is_other device bound ≡ false
      → is_other device d ≡ true
      → (d.id == bound.id) ≡ false
  other_id none bound d h k = cc
  other_id (some device) bound d h k = ground arith

  pub release_holder-Free :
      (ds : List ClientDevice)
      → Unique ds
      → Free line_id existing (release_holder now line_id existing ds)
  unfolding release_holder
  release_holder-Free ds u = elim (Option-cases (holder line_id ds)) [
    | inl e ↦
        rw (e, release_holder)
          (All-map (λ (d : ClientDevice). opt_eq d.line_id line_id ≡ false)
            (λ d. is_other existing d ≡ true → opt_eq d.line_id line_id ≡ false) ds (λ d h _. h)
            (find-none (λ (d : ClientDevice). opt_eq d.line_id line_id) ds e))
    | inr (bound, e) ↦
        let (m, t) = find-some (λ (d : ClientDevice). opt_eq d.line_id line_id) ds bound e in
        let others : All (λ d. (d.id == bound.id) ≡ false → opt_eq d.line_id line_id ≡ false) ds =
          All-map (λ f. (f.id == bound.id) ≡ false → Differ bound f)
            (λ f. (f.id == bound.id) ≡ false → opt_eq f.line_id line_id ≡ false) ds
            (λ f g n. not-both bound f t (g n).2) (Unique-Others bound ds m u) in
        elim (Bool-cases (is_other existing bound)) [
          | inl o ↦
              rw (e, release_holder, o)
                (All-map (λ (d : ClientDevice). opt_eq d.line_id line_id ≡ false)
                  (λ d. is_other existing d ≡ true → opt_eq d.line_id line_id ≡ false)
                  (replace_device (released_row now bound) ds) (λ d h _. h)
                  (All-replaced (λ (d : ClientDevice). opt_eq d.line_id line_id ≡ false)
                    (released_row now bound) ds refl u others))
          | inr o ↦
              rw (e, release_holder, o)
                (All-map (λ d. (d.id == bound.id) ≡ false → opt_eq d.line_id line_id ≡ false)
                  (λ d. is_other existing d ≡ true → opt_eq d.line_id line_id ≡ false) ds
                  (λ d g n. g (other_id existing bound d o n)) others)
        ]
  ]
