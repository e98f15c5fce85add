-- ===== src/Access/Tids.antt =====
-- The TID of a new line, _sanitize_tid_label, _gen_tid and _unique_tid of
-- gfc-platform/control-plane/api/app/admin.py. `random n` is the n-th text that secrets makes.
pub mod Fresh
use sip_proxy.Common.{
  ℕ, zero, suc, ◌+◌, String, Bool, true, false, not, ◌&&◌, ◌||◌, Option, none, some, List, [], ◌∷◌,
  ◌++◌, any, filter, find, leb, ◌==◌, str_eq, if◌then◌else◌,
}
use Prim.Native.Char.{Char, code}
use Prim.Native.String
use sip_proxy.Common.Text.{strip, is_space, elem, concat, take_text, or_empty}

-- A letter, a digit, or one of `.`, `_` and `-`.
abbrev pub is_safe : ℕ → Bool
is_safe c =
    (leb 48 c && leb c 57)
    || (leb 65 c && leb c 90)
    || (leb 97 c && leb c 122)
    || c == 46
    || c == 95
    || c == 45

abbrev pub starts_space : String → Bool
starts_space String.[] = false
starts_space (String.◌∷◌ c s) = is_space (code c)

-- `re.sub(r"\s+", "-", s)` and then the removal of the characters that are not safe: a run of white
-- space gives a dash at its last character.
unfoldable pub safe_text : String → String
safe_text String.[] = String.[]
safe_text (String.◌∷◌ c s) =
    let rest = safe_text s in
    if is_space (code c)
    then (if starts_space s then rest else String.◌++◌ "-" rest)
    else if is_safe (code c)
    then String.◌∷◌ c rest
    else rest

-- A character of `-._`.
abbrev pub is_edge : ℕ → Bool
is_edge c = c == 45 || c == 46 || c == 95

unfoldable pub lstrip_edges : String → String
lstrip_edges String.[] = String.[]
lstrip_edges (String.◌∷◌ c s) =
    let rest = lstrip_edges s in if is_edge (code c) then rest else String.◌∷◌ c s

abbrev pub push_edge : Char → String → String
push_edge c String.[] = if is_edge (code c) then String.[] else String.◌∷◌ c String.[]
push_edge c (String.◌∷◌ d s) = String.◌∷◌ c (String.◌∷◌ d s)

unfoldable pub rstrip_edges : String → String
rstrip_edges String.[] = String.[]
rstrip_edges (String.◌∷◌ c s) = push_edge c (rstrip_edges s)

unfoldable pub sanitize_tid_label : String → String
unfolding strip safe_text lstrip_edges rstrip_edges take_text
sanitize_tid_label raw = take_text 48 (rstrip_edges (lstrip_edges (safe_text (strip raw))))

unfoldable pub gen_tid : String → String → Option String → String
unfolding sanitize_tid_label concat
gen_tid day suffix name =
    let label = sanitize_tid_label (or_empty name) in
    if str_eq label ""
    then concat ("TID-" ∷ day ∷ "-" ∷ suffix ∷ [])
    else concat ("TID-" ∷ day ∷ "-" ∷ label ∷ [])

-- The rounds of the loop that are left, and the number of the next random text.
unfoldable pub try_tid : (ℕ → String) → String → List String → ℕ → ℕ → String → String
unfolding concat
try_tid random base tids zero n tid = concat (base ∷ "-" ∷ random n ∷ [])
try_tid random base tids (suc rounds) n tid =
    let rest = try_tid random base tids rounds (suc n) (concat (base ∷ "-" ∷ random n ∷ [])) in
    if elem tid tids then rest else tid

unfoldable pub unique_tid : (ℕ → String) → String → List String → String
unfolding try_tid
unique_tid random base tids = try_tid random base tids 12 0 base
