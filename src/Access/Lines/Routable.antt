-- ===== src/Access/Lines/Routable.antt =====
-- Lines that a node can serve, over requests of create_line and update_line in
-- gfc-platform/control-plane/api/app/admin.py.
use sip_proxy.Common.{
  ℕ, String, ◌≡◌, ◌≢◌, ◌⊎◌, ◌∙◌, refl, sym, ap, Bool, true, false, not, ◌&&◌, Option, none, some,
  List, [], ◌∷◌, find, inl, inr, All, ◌==◌, str_eq, if◌then◌else◌, Bool-cases, Option-cases,
}
use mathlib.Core.Path.{subst}
use sip_proxy.Common.Http.{Http, ok, error, raise_if, ◌>>◌, After, After-bind, After-raise_if}
use sip_proxy.Common.Dict.{Dict, lookup, insert, Json, null, str, arr, int}
use sip_proxy.Common.Text.{elem}
use sip_proxy.Nodes.Config.{or_default}
use sip_proxy.Access.Roles.{normalize_role, operator_line_patch_fields}
use sip_proxy.Access.Policies.{set_status, filter_line_update}
use sip_proxy.Access.Policies.Filtering.{updates-Answers}
use sip_proxy.Access.Users.{PlatformUser, require_action}
use sip_proxy.Access.Lines.Columns.{Avoids, lookup-set_columns, fields-Avoids}
use sip_proxy.Access.Lines.{
  LineRow, LinesDb, LineCreateIn, Making, NodeInfo, new_columns, with_code, add_line, create_line,
  joined_sources, stored_platforms, stored_status, set_columns, replace_columns, update_line,
  is_missing, is_no_source, is_known, id_or_null,
}

-- A column that is there and not null.
abbrev pub is_given : Option Json → Bool
is_given none = false
is_given (some null) = false
is_given (some _) = true

abbrev pub serves : Dict Json → Option Json → Bool
serves columns (some (str t)) =
    if str_eq t "forward"
    then is_given (lookup "socks_profile_id" columns)
    else is_given (lookup "client_uuid" columns)
serves columns _ = false

-- A forward line has an exit, and any other line the id of its user.
abbrev pub IsRoutable : LineRow → Type 0
IsRoutable l = serves l.columns (lookup "line_type" l.columns) ≡ true

update-serves :
    (fields columns : Dict Json)
    → Avoids "line_type" fields
    → Avoids "socks_profile_id" fields
    → Avoids "client_uuid" fields
    → serves columns (lookup "line_type" columns) ≡ true
    → serves (set_columns fields columns) (lookup "line_type" (set_columns fields columns)) ≡ true
update-serves fields columns a b c h =
    let kind = lookup-set_columns "line_type" fields columns a in
    let exit = lookup-set_columns "socks_profile_id" fields columns b in
    let uuid = lookup-set_columns "client_uuid" fields columns c in
    ap (serves (set_columns fields columns)) kind ∙ same (lookup "line_type" columns) exit uuid ∙ h
  where
    same :
        (t : Option Json)
        → lookup "socks_profile_id" (set_columns fields columns) ≡ lookup "socks_profile_id" columns
        → lookup "client_uuid" (set_columns fields columns) ≡ lookup "client_uuid" columns
        → serves (set_columns fields columns) t ≡ serves columns t
    same none e u = refl
    same (some (str t)) e u = rw (e, u) refl
    same (some null) e u = refl
    same (some (Json.bool b)) e u = refl
    same (some (int n)) e u = refl
    same (some (arr items)) e u = refl
    same (some (Json.obj fs)) e u = refl

replace_columns-Routable :
    (id : ℕ) (fields : Dict Json) (rows : List LineRow)
    → Avoids "line_type" fields
    → Avoids "socks_profile_id" fields
    → Avoids "client_uuid" fields
    → All IsRoutable rows
    → All IsRoutable (replace_columns id fields rows)
unfolding replace_columns
replace_columns-Routable id fields [] a b c h = tt
replace_columns-Routable id fields (l ∷ rows) a b c (h, hs) = elim (Bool-cases (l.id == id)) [
  | inl mine ↦ rw mine (update-serves fields l.columns a b c h, hs)
  | inr other ↦ rw other (h, replace_columns-Routable id fields rows a b c hs)
]

id-given : (id : Option ℕ) → is_missing id ≡ false → is_given (some (id_or_null id)) ≡ true
id-given none h = cc
id-given (some n) h = refl

new_columns-serves :
    (m : Making) (body : LineCreateIn) (node node' : NodeInfo) (line_type tid : String)
    → (line_type ≡ "client")
      ⊎ ((line_type ≡ "forward") × (is_missing body.socks_profile_id ≡ false))
    → let columns = with_code m node' line_type (new_columns m body node line_type tid) in
      serves columns (lookup "line_type" columns) ≡ true
unfolding new_columns lookup insert
new_columns-serves m body node node' line_type tid (inl client) = rw client refl
new_columns-serves m body node node' line_type tid (inr (forward, exit)) =
    rw forward (id-given body.socks_profile_id exit)

abbrev pub AllRoutable : LinesDb → Type 0
AllRoutable db = All IsRoutable db.lines

-- The types that the schema of a new line lets through.
abbrev pub IsLineType : String → Type 0
IsLineType t = (t ≡ "client") ⊎ (t ≡ "forward")

add_line-Routable :
    (m : Making) (body : LineCreateIn) (node : NodeInfo) (db : LinesDb)
    → IsLineType body.line_type
    → (str_eq (or_default "client" body.line_type) "forward" && is_missing body.socks_profile_id)
      ≡ false
    → AllRoutable db
    → AllRoutable (add_line m body node db)
unfolding add_line
add_line-Routable m body node db (inl client) exit h =
    (new_columns-serves m body node _ _ _ (inl (ap (or_default "client") client)), h)
add_line-Routable m body node db (inr forward) exit h =
    let kind : or_default "client" body.line_type ≡ "forward" = ap (or_default "client") forward in
    (new_columns-serves m body node _ _ _ (inr (kind, rw kind at exit)), h)

create_line-Routable :
    (m : Making) (body : LineCreateIn) (operator : PlatformUser) (db : LinesDb)
    → IsLineType body.line_type
    → AllRoutable db
    → After AllRoutable (create_line m body operator db)
unfolding create_line
create_line-Routable m body operator db kind h =
    let forward = str_eq (or_default "client" body.line_type) "forward" in
    let no_source = forward && is_no_source body.source_cidrs in
    let no_exit = forward && is_missing body.socks_profile_id in
    After-bind AllRoutable (require_action "write_safe" operator) _ (λ user allowed.
      elim (Option-cases (find (λ (n : NodeInfo). n.id == body.node_id) db.nodes)) [
        | inl nothing ↦ rw nothing tt
        | inr (node, found) ↦
            let made : Http LinesDb = ok (add_line m body node db) in
            let last = raise_if no_exit 400 "forward line requires socks profile" >> made in
            let sources = raise_if no_source 400 "forward line requires source_cidrs" >> last in
            rw found (
              After-raise_if AllRoutable (not (is_known body.socks_profile_id db.socks_ids)) 400
                "socks profile not found" sources
                (λ known.
                  After-raise_if AllRoutable no_source 400 "forward line requires source_cidrs" last
                    (λ listed.
                      After-raise_if AllRoutable no_exit 400 "forward line requires socks profile"
                        made (λ exit. add_line-Routable m body node db kind exit h))))
      ])

update_line-Routable :
    (line_id : ℕ) (body : Dict Json) (operator : PlatformUser) (db : LinesDb)
    → normalize_role (some operator.role) ≢ "admin"
    → AllRoutable db
    → After AllRoutable (update_line line_id body operator db)
unfolding update_line
update_line-Routable line_id body operator db role h =
    After-bind AllRoutable (require_action "write_safe" operator) _ (λ user allowed.
      elim (Option-cases (find (λ (l : LineRow). l.id == line_id) db.lines)) [
        | inl nothing ↦ rw nothing tt
        | inr (line, found) ↦ rw found (
            After-bind AllRoutable (filter_line_update operator.role body) _ (λ fields e.
              replace_columns-Routable line_id
                (stored_status (stored_platforms (joined_sources fields))) db.lines
                (passed "line_type" fields e refl refl)
                (passed "socks_profile_id" fields e refl refl)
                (passed "client_uuid" fields e refl refl) h))
      ])
  where
    passed :
        (k : String) (fields : Dict Json)
        → filter_line_update operator.role body ≡ ok fields
        → elem k operator_line_patch_fields ≡ false
        → elem k ("status" ∷ "live_platforms_json" ∷ "source_cidrs" ∷ []) ≡ false
        → Avoids k (stored_status (stored_platforms (joined_sources fields)))
    passed k fields e closed apart = elim (updates-Answers operator.role body).0 [
      | inl (inl admin, answer) ↦ absurd (role admin)
      | inl (inr listed, answer) ↦
          let same : ok fields ≡ ok (set_status body) = sym e ∙ answer in
          let is : fields ≡ set_status body = cc in
          subst (λ f. Avoids k (stored_status (stored_platforms (joined_sources f)))) (sym is)
            (fields-Avoids k body closed apart listed)
      | inr (refused, (detail, answer)) ↦
          absurd (let clash : ok fields ≡ error 403 detail = sym e ∙ answer in cc)
    ]

-- A request for a line, by a user.
pub data LineCall : Type 0 where
  create : Making → LineCreateIn → LineCall
  update : (line_id : ℕ) → Dict Json → LineCall

unfoldable pub handle_line : LineCall → PlatformUser → LinesDb → Http LinesDb
unfolding create_line update_line
handle_line (create m body) operator db = create_line m body operator db
handle_line (update line_id body) operator db = update_line line_id body operator db

-- After an error the tables are as before.
abbrev pub committed : LinesDb → Http LinesDb → LinesDb
committed db (ok after) = after
committed db (error status detail) = db

unfoldable pub run_lines : List (LineCall × PlatformUser) → LinesDb → LinesDb
run_lines [] db = db
run_lines ((call, operator) ∷ calls) db =
    run_lines calls (committed db (handle_line call operator db))

-- The schema's types for a new line, and no change by an administrator.
abbrev pub IsOrdinary : LineCall × PlatformUser → Type 0
IsOrdinary (create m body, operator) = IsLineType body.line_type
IsOrdinary (update line_id body, operator) = normalize_role (some operator.role) ≢ "admin"

committed-Routable :
    (db : LinesDb) (answer : Http LinesDb)
    → AllRoutable db
    → After AllRoutable answer
    → AllRoutable (committed db answer)
committed-Routable db (ok after) h a = a
committed-Routable db (error status detail) h a = h

-- Over any requests that make lines of the types of the schema or change them, where no change is an
-- administrator's, a table in which each forward line has an exit and each other line the id of its
-- user stays such a table.
pub run_lines-Routable :
    (calls : List (LineCall × PlatformUser)) (db : LinesDb)
    → All IsOrdinary calls
    → AllRoutable db
    → AllRoutable (run_lines calls db)
unfolding run_lines handle_line create_line
run_lines-Routable [] db ordinary h = h
run_lines-Routable ((create m body, operator) ∷ calls) db (kind, ordinary) h =
    run_lines-Routable calls (committed db (create_line m body operator db)) ordinary (
      committed-Routable db (create_line m body operator db) h
        (create_line-Routable m body operator db kind h))
run_lines-Routable ((update line_id body, operator) ∷ calls) db (role, ordinary) h =
    run_lines-Routable calls (committed db (update_line line_id body operator db)) ordinary (
      committed-Routable db (update_line line_id body operator db) h
        (update_line-Routable line_id body operator db role h))
