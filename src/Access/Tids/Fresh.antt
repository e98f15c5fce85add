-- ===== src/Access/Tids/Fresh.antt =====
-- The TID of a new line, _unique_tid of gfc-platform/control-plane/api/app/admin.py.
use sip_proxy.Common.{
  ℕ, zero, suc, ◌+◌, ◌≤◌, ◌<◌, String, ◌≡◌, ◌⊎◌, sym, ap, ◌∙◌, true, false, List, [], ◌∷◌, arith,
  inl, inr, Bool-cases, ◌==◌,
}
use sip_proxy.Common.Text.{elem, concat}
use sip_proxy.Access.Tids.{try_tid, unique_tid}

module _ (random : ℕ → String) (base : String) (tids : List String) where
  -- The n-th text that the loop makes.
  abbrev pub candidate : ℕ → String
  unfolding concat
  candidate n = concat (base ∷ "-" ∷ random n ∷ [])

  -- A round that is left meets a text that no line has.
  abbrev Meets : ℕ → ℕ → String → Type 0
  Meets rounds n tid =
      ((elem tid tids ≡ false) × (0 < rounds))
      ⊎ ((k : ℕ) × (n ≤ k) × (k + 1 < n + rounds) × (elem (candidate k) tids ≡ false))

  try_tid-new :
      (rounds n : ℕ) (tid : String)
      → Meets rounds n tid
      → elem (try_tid random base tids rounds n tid) tids ≡ false
  unfolding try_tid
  try_tid-new zero n tid (inl (free, left)) = absurd (omega (arith, left))
  try_tid-new zero n tid (inr (k, low, high, free)) = absurd (omega (arith, low, high))
  try_tid-new (suc rounds) n tid meets = elim (Bool-cases (elem tid tids)) [
    | inr free ↦ rw free free
    | inl taken ↦ rw taken (try_tid-new rounds (suc n) (candidate n) (later meets taken))
  ]
    where
      later : Meets (suc rounds) n tid → elem tid tids ≡ true → Meets rounds (suc n) (candidate n)
      later (inl (free, left)) taken = absurd cc
      later (inr (k, low, high, free)) taken = elim (Bool-cases (k == n)) [
        | inl same ↦
            let e : k ≡ n = ground arith in
            inl (ap (λ i. elem (candidate i) tids) (sym e) ∙ free, omega (arith, e, high))
        | inr other ↦
            let apart : n < k = ground arith in
            inr (k, omega (arith, apart), omega (arith, high), free)
      ]

  -- Where the text of the day and the name is free, or one of the first eleven texts made after it,
  -- the TID of a new line is none that a line has.
  pub unique_tid-new :
      (elem base tids ≡ false)
        ⊎ ((k : ℕ) × (k < 11) × (elem (concat (base ∷ "-" ∷ random k ∷ [])) tids ≡ false))
      → elem (unique_tid random base tids) tids ≡ false
  unfolding unique_tid
  unique_tid-new (inl free) = try_tid-new 12 0 base (inl (free, omega arith))
  unique_tid-new (inr (k, low, free)) =
      try_tid-new 12 0 base (inr (k, omega arith, omega (arith, low), free))
