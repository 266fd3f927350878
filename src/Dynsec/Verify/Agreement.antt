-- ===== src/Dynsec/Verify/Agreement.antt =====
-- internal/dynsec/service.go: what it means that `Verify` finds nothing.
use mcm.Base.{Bool, true, false, List, [], Option, none, some, ◌≡◌, ◌↔◌, refl, sym, arith, ◌&&◌}
use mcm.Text.{Bytes, text_eq_iff}
use mcm.Dynsec.Model.{Role, Client, Group, DefaultAccess, Document, find_by}
use mcm.Dynsec.Updates.{same_bool}
use mcm.Dynsec.Plan.{same_default}
use mcm.Dynsec.Table.{fill, takes_all, compare}
use mcm.Dynsec.Table.Distinct.{filled}
use mcm.Dynsec.Table.Laws.{find_last, Both, takes_all_iff, compare_iff}
use mcm.Dynsec.Run.{IsDistinct}
use mcm.Dynsec.Issue.{Issue, issue_unless_iff, append-nil_iff}
use mcm.Dynsec.Verify.{
  same_roles, same_groups, same_clients, same_acls, acl_key, client_issues, group_issues,
  role_issues, verify,
}

-- The wanted list has no name twice, and each name has an element in it exactly where the broker has
-- one, and the two are related. Where the broker has several of a name the last one counts.
abbrev pub Agrees : {A : Type 0} → (A → Bytes) → (A → A → Type 0) → List A → List A → Type 0
Agrees name R wanted actual =
    IsDistinct name wanted
    × ((k : Bytes) → Both R (find_by name k wanted) (find_last name k actual))

abbrev pub SameNames : {A : Type 0} → (A → Bytes) → List A → List A → Type 0
SameNames name = Agrees name (λ x y. Unit)

abbrev pub ClientAgrees : Client → Client → Type 0
ClientAgrees c found =
    (c.disabled ≡ found.disabled)
    × SameNames (λ x. x.role_name) c.roles found.roles
    × SameNames (λ x. x.group_name) c.groups found.groups

abbrev pub GroupAgrees : Group → Group → Type 0
GroupAgrees g found =
    SameNames (λ x. x.role_name) g.roles found.roles
    × SameNames (λ x. x.username) g.clients found.clients

abbrev pub RoleAgrees : Role → Role → Type 0
RoleAgrees r found = Agrees acl_key (λ x y. x.allow ≡ y.allow) r.acls found.acls

abbrev pub DocumentAgrees : Document → Document → Type 0
DocumentAgrees desired actual =
    Agrees (λ c. c.username) ClientAgrees desired.clients actual.clients
    × Agrees (λ g. g.group_name) GroupAgrees desired.groups actual.groups
    × Agrees (λ r. r.role_name) RoleAgrees desired.roles actual.roles
    × (desired.default_access ≡ actual.default_access)
    × (desired.anonymous_group ≡ actual.anonymous_group)

same_bool_iff : (a b : Bool) → (same_bool a b ≡ true) ↔ (b ≡ a)
same_bool_iff true b = (λ h. h, λ h. h)
same_bool_iff false true = (λ h. cc, λ h. cc)
same_bool_iff false false = (λ h. refl, λ h. refl)

Both-iff :
    {A : Type 0} (P Q : A → A → Type 0) (o p : Option A)
    → ((x y : A) → P x y ↔ Q x y)
    → Both P o p ↔ Both Q o p
Both-iff P Q none none f = (λ h. h, λ h. h)
Both-iff P Q (some x) (some y) f = f x y
Both-iff P Q none (some y) f = (λ h. h, λ h. h)
Both-iff P Q (some x) none f = (λ h. h, λ h. h)

-- The relation of two lists, by the relation of the elements that are found.
relate :
    {A : Type 0} (name : A → Bytes) (P R : A → A → Type 0) (xs ys : List A)
    → ((x y : A) → P x y ↔ R x y)
    → (IsDistinct name xs
        × ((k : Bytes) → Both P (find_by name k xs) (find_by name k (fill name [] ys))))
      ↔ Agrees name R xs ys
relate name P R xs ys f = (
  λ h. (h.0, λ k. (Both-iff P R _ _ f).0 (let g = h.1 k in rw (filled name k ys) at g)),
  λ h. (h.0, λ k. rw (filled name k ys) ((Both-iff P R _ _ f).1 (h.1 k))),
)

names_iff :
    {A : Type 0} (name : A → Bytes) (found wanted : List A)
    → (takes_all name (λ x y. true) (fill name [] found) wanted ≡ true)
      ↔ SameNames name wanted found
names_iff name found wanted =
    let law = takes_all_iff name (λ x y. true) (fill name [] found) wanted in
    let view =
      relate name (λ x y. true ≡ true) (λ x y. Unit) wanted found (λ x y. (λ h. tt, λ h. refl)) in
    (λ h. view.0 (law.0 h), λ h. law.1 (view.1 h))

client_issues_iff : (c found : Client) → (client_issues found c ≡ []) ↔ ClientAgrees c found
unfolding client_issues same_roles same_groups
client_issues_iff c found = (
  λ h.
      let one = (append-nil_iff _ _).0 h in
      let two = (append-nil_iff _ _).0 one.1 in
      (
        (same_bool_iff found.disabled c.disabled).0 ((issue_unless_iff _ _ _ _).0 one.0),
        (names_iff _ found.roles c.roles).0 ((issue_unless_iff _ _ _ _).0 two.0),
        (names_iff _ found.groups c.groups).0 ((issue_unless_iff _ _ _ _).0 two.1),
      ),
  λ h. (append-nil_iff _ _).1 (
    (issue_unless_iff _ _ _ _).1 ((same_bool_iff found.disabled c.disabled).1 h.0),
    (append-nil_iff _ _).1 (
      (issue_unless_iff _ _ _ _).1 ((names_iff _ found.roles c.roles).1 h.1),
      (issue_unless_iff _ _ _ _).1 ((names_iff _ found.groups c.groups).1 h.2),
    ),
  ),
)

group_issues_iff : (g found : Group) → (group_issues found g ≡ []) ↔ GroupAgrees g found
unfolding group_issues same_roles same_clients
group_issues_iff g found = (
  λ h.
      let one = (append-nil_iff _ _).0 h in
      (
        (names_iff _ found.roles g.roles).0 ((issue_unless_iff _ _ _ _).0 one.0),
        (names_iff _ found.clients g.clients).0 ((issue_unless_iff _ _ _ _).0 one.1),
      ),
  λ h. (append-nil_iff _ _).1 (
    (issue_unless_iff _ _ _ _).1 ((names_iff _ found.roles g.roles).1 h.0),
    (issue_unless_iff _ _ _ _).1 ((names_iff _ found.clients g.clients).1 h.1),
  ),
)

role_issues_iff : (r found : Role) → (role_issues found r ≡ []) ↔ RoleAgrees r found
unfolding role_issues same_acls
role_issues_iff r found =
    let law =
      takes_all_iff acl_key (λ x y. same_bool x.allow y.allow) (fill acl_key [] found.acls)
        r.acls in
    let view =
      relate acl_key (λ x y. same_bool y.allow x.allow ≡ true) (λ x y. x.allow ≡ y.allow) r.acls
        found.acls (λ x y. same_bool_iff y.allow x.allow) in
    (
      λ h. view.0 (law.0 ((issue_unless_iff _ _ _ _).0 h)),
      λ h. (issue_unless_iff _ _ _ _).1 (law.1 (view.1 h)),
    )

same_default_iff : (a b : DefaultAccess) → (same_default a b ≡ true) ↔ (a ≡ b)
same_default_iff a b = (
  λ h.
      let both = all_of (same_bool a.send b.send) _ _ _ h in
      λ i. record {
        send = sym ((same_bool_iff a.send b.send).0 both.0) i;
        receive = sym ((same_bool_iff a.receive b.receive).0 both.1) i;
        subscribe = sym ((same_bool_iff a.subscribe b.subscribe).0 both.2) i;
        unsubscribe = sym ((same_bool_iff a.unsubscribe b.unsubscribe).0 both.3) i;
      },
  λ h. rw (← h) (same a),
)
  where
    all_of :
        (p q r s : Bool)
        → (p && q && r && s) ≡ true
        → (p ≡ true) × (q ≡ true) × (r ≡ true) × (s ≡ true)
    all_of p q r s h = (ground arith, ground arith, ground arith, ground arith)

    alike : (t : Bool) → same_bool t t ≡ true
    alike true = refl
    alike false = refl

    same : (a : DefaultAccess) → same_default a a ≡ true
    same a = rw (alike a.send, alike a.receive, alike a.subscribe, alike a.unsubscribe) refl

loop_iff :
    {A : Type 0} (name : A → Bytes) (check : A → A → List Issue) (R : A → A → Type 0)
    (missing extra : Bytes → Issue) (wanted actual : List A)
    → ((x y : A) → (check y x ≡ []) ↔ R x y)
    → (compare name check missing extra (fill name [] actual) wanted ≡ [])
      ↔ Agrees name R wanted actual
loop_iff name check R missing extra wanted actual f =
    let law = compare_iff name check missing extra (fill name [] actual) wanted in
    let view = relate name (λ x y. check y x ≡ []) R wanted actual f in
    (λ h. view.0 (law.0 h), λ h. law.1 (view.1 h))

-- The verification finds nothing exactly when the wanted document and the actual one have clients,
-- groups and roles of the same names, no wanted name twice, which agree in their flags, references
-- and access entries, and the same default access and anonymous group.
pub verify_iff :
    (desired actual : Document) → (verify desired actual ≡ []) ↔ DocumentAgrees desired actual
unfolding verify
verify_iff desired actual =
    let clients =
      loop_iff _ client_issues ClientAgrees _ _ desired.clients actual.clients client_issues_iff in
    let groups =
      loop_iff _ group_issues GroupAgrees _ _ desired.groups actual.groups group_issues_iff in
    let roles = loop_iff _ role_issues RoleAgrees _ _ desired.roles actual.roles role_issues_iff in
    let defaults = same_default_iff desired.default_access actual.default_access in
    let anonymous = text_eq_iff desired.anonymous_group actual.anonymous_group in
    (
      λ h.
          let one = (append-nil_iff _ _).0 h in
          let two = (append-nil_iff _ _).0 one.1 in
          let three = (append-nil_iff _ _).0 two.1 in
          let four = (append-nil_iff _ _).0 three.1 in
          (
            clients.0 one.0,
            groups.0 two.0,
            roles.0 three.0,
            defaults.0 ((issue_unless_iff _ _ _ _).0 four.0),
            anonymous.0 ((issue_unless_iff _ _ _ _).0 four.1),
          ),
      λ h. (append-nil_iff _ _).1 (
        clients.1 h.0,
        (append-nil_iff _ _).1 (
          groups.1 h.1,
          (append-nil_iff _ _).1 (
            roles.1 h.2,
            (append-nil_iff _ _).1 (
              (issue_unless_iff _ _ _ _).1 (defaults.1 h.3),
              (issue_unless_iff _ _ _ _).1 (anonymous.1 h.4),
            ),
          ),
        ),
      ),
    )
