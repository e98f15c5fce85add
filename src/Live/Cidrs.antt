-- ===== src/Live/Cidrs.antt =====
-- The networks of a result of live_resolve.py, and those that live_catalog.py makes of them.
use sip_proxy.Common.{
  String, ◌≡◌, ◌∙◌, refl, sym, ap, Option, none, some, List, [], ◌∷◌, ◌++◌, ◌||◌, not, inl, inr,
  map, All, eq_iff, str_eq, Bool-cases,
}
use Prim.Native.String
use text.Mathlib.TextLemmas.{append-eq-nil_iff}
use sip_proxy.Common.Text.{strip, lower, concat}
use sip_proxy.Common.Text.Strip.{strip_idem, strip-append}
use sip_proxy.Nodes.Config.{cidrs, push_new}
use sip_proxy.Live.Catalog.{Task}
use sip_proxy.Live.Resolver.{
  Curl, Answer, a_records, addresses, ask_name, doh_json_a_records, strip_dots, resolve_domains,
  host_cidr, proxy_of, resolved_cidrs,
}
use sip_proxy.Live.Once.{push_new-append, push_new_again}
use sip_proxy.Live.Trimmed.{IsTrimmed, cidrs-IsTrimmed, cidrs-All, cidrs-append, push_new-All}

a_records-IsTrimmed : (answers : List Answer) → All IsTrimmed (a_records answers)
unfolding a_records
a_records-IsTrimmed [] = tt
a_records-IsTrimmed (a ∷ as') =
    let rest = a_records-IsTrimmed as' in
    elim (Bool-cases (not (str_eq a.type "1" || str_eq a.type "A"))) [
      | inl other ↦ rw other rest
      | inr address ↦ elim (Bool-cases (str_eq (strip a.data_text) "")) [
        | inl empty ↦ rw (address, empty) rest
        | inr full ↦ rw (address, full) ((strip_idem a.data_text, full), rest)
      ]
    ]

addresses-IsTrimmed : (answer : Option (List Answer)) → All IsTrimmed (addresses answer)
unfolding addresses
addresses-IsTrimmed none = tt
addresses-IsTrimmed (some answers) = push_new-All [] _ tt (a_records-IsTrimmed answers)

ask_name-IsTrimmed :
    (curl : Curl) (proxy : Option String) (doh_url name : String)
    → All IsTrimmed (ask_name curl proxy doh_url name)
unfolding ask_name
ask_name-IsTrimmed curl proxy doh_url name = elim (Bool-cases (str_eq name "")) [
  | inl empty ↦ rw empty tt
  | inr full ↦
      rw full
        (addresses-IsTrimmed (curl proxy (concat (doh_url ∷ "?name=" ∷ name ∷ "&type=A" ∷ []))))
]

resolve_domains-IsTrimmed :
    (curl : Curl) (proxy : Option String) (doh_url : String) (out domains : List String)
    → All IsTrimmed out
    → All IsTrimmed (resolve_domains curl proxy doh_url out domains)
unfolding resolve_domains doh_json_a_records
resolve_domains-IsTrimmed curl proxy doh_url out [] h = h
resolve_domains-IsTrimmed curl proxy doh_url out (d ∷ domains) h =
    resolve_domains-IsTrimmed curl proxy doh_url
      (push_new out (doh_json_a_records curl proxy doh_url d)) domains
      (push_new-All out _ h (ask_name-IsTrimmed curl proxy doh_url (strip_dots (lower (strip d)))))

strip-mask : strip "/32" ≡ "/32"
unfolding strip
strip-mask = refl

host_cidr-IsTrimmed : (ip : String) → IsTrimmed ip → IsTrimmed (host_cidr ip)
host_cidr-IsTrimmed ip (same, full) = (
  ap (λ x. strip (String.◌++◌ x "/32")) (sym same)
      ∙ strip-append ip "/32" (ap (λ x. str_eq x "") same ∙ full) strip-mask refl
      ∙ ap (λ x. String.◌++◌ x "/32") same,
  elim (Bool-cases (str_eq (host_cidr ip) "")) [
    | inl empty ↦
        absurd (let e = (append-eq-nil_iff.0 ((eq_iff (host_cidr ip) "").0 empty)).1 in cc)
    | inr it ↦ it
  ],
)

hosts-IsTrimmed : (ips : List String) → All IsTrimmed ips → All IsTrimmed (map host_cidr ips)
hosts-IsTrimmed [] h = tt
hosts-IsTrimmed (ip ∷ ips) (h, hs) = (host_cidr-IsTrimmed ip h, hosts-IsTrimmed ips hs)

pub resolved-IsTrimmed :
    (curl : Curl) (doh_url : String) (task : Task)
    → All IsTrimmed (resolved_cidrs curl doh_url task)
resolved-IsTrimmed curl doh_url task =
    push_new-All _ _ (push_new-All [] _ tt (cidrs-IsTrimmed task.static_cidrs)) (
      hosts-IsTrimmed _ (resolve_domains-IsTrimmed curl (proxy_of task) doh_url [] task.domains tt))

-- The static networks and the resolved ones, trimmed and merged, are the resolved ones.
pub merged-resolved :
    (curl : Curl) (doh_url : String) (task : Task)
    → push_new [] (cidrs (task.static_cidrs ++ resolved_cidrs curl doh_url task))
      ≡ resolved_cidrs curl doh_url task
merged-resolved curl doh_url task =
    ap (push_new []) (
      cidrs-append task.static_cidrs (resolved_cidrs curl doh_url task)
      ∙ ap (λ x. cidrs task.static_cidrs ++ x) (cidrs-All _ (resolved-IsTrimmed curl doh_url task)))
    ∙ push_new-append [] (cidrs task.static_cidrs) (resolved_cidrs curl doh_url task)
    ∙ push_new_again (push_new [] (cidrs task.static_cidrs)) _
