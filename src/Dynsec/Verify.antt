-- ===== src/Dynsec/Verify.antt =====
-- internal/dynsec/service.go: `Verify`. The messages of the issues are left out.
pub mod Agreement
use mcm.Base.{Bool, true, not, List, [], ◌∷◌, ◌++◌, if◌then◌else◌, ◌&&◌}
use mcm.Text.{Bytes, codes, text_eq}
use mcm.Dynsec.Model.{Acl, RoleRef, GroupRef, ClientRef, Role, Client, Group, Document}
use mcm.Dynsec.Issue.{Issue, issue, issue_unless}
use mcm.Dynsec.Updates.{same_bool}
use mcm.Dynsec.Plan.{same_default}
use mcm.Dynsec.Table.{fill, compare, takes_all}

unfoldable pub same_roles : List RoleRef → List RoleRef → Bool
same_roles a b = takes_all (λ x. x.role_name) (λ x y. true) (fill (λ x. x.role_name) [] a) b

unfoldable pub same_groups : List GroupRef → List GroupRef → Bool
same_groups a b = takes_all (λ x. x.group_name) (λ x y. true) (fill (λ x. x.group_name) [] a) b

unfoldable pub same_clients : List ClientRef → List ClientRef → Bool
same_clients a b = takes_all (λ x. x.username) (λ x y. true) (fill (λ x. x.username) [] a) b

abbrev pub acl_key : Acl → Bytes
acl_key e = e.acl_type ++ (0 ∷ e.topic)

unfoldable pub same_acls : List Acl → List Acl → Bool
same_acls a b = takes_all acl_key (λ x y. same_bool x.allow y.allow) (fill acl_key [] a) b

-- The kinds of objects.
abbrev pub object_client : Bytes
object_client = codes "client"

abbrev pub object_group : Bytes
object_group = codes "group"

abbrev pub object_role : Bytes
object_role = codes "role"

abbrev pub object_default_access : Bytes
object_default_access = codes "default_access"

abbrev pub object_anonymous_group : Bytes
object_anonymous_group = codes "anonymous_group"

-- The bodies of the loops of `Verify`, where the object is found.
unfoldable pub client_issues : Client → Client → List Issue
client_issues found c =
    issue_unless (same_bool found.disabled c.disabled) object_client c.username (codes "disabled")
    ++ (issue_unless (same_roles found.roles c.roles) object_client c.username (codes "roles")
        ++ issue_unless (same_groups found.groups c.groups) object_client c.username
            (codes "groups"))

unfoldable pub group_issues : Group → Group → List Issue
group_issues found g =
    issue_unless (same_roles found.roles g.roles) object_group g.group_name (codes "roles")
    ++ issue_unless (same_clients found.clients g.clients) object_group g.group_name
        (codes "clients")

unfoldable pub role_issues : Role → Role → List Issue
role_issues found r =
    issue_unless (same_acls found.acls r.acls) object_role r.role_name (codes "acls")

-- An object that is missing after the change, or still there.
abbrev pub astray : Bytes → Bytes → Issue
astray k n = issue k n []

unfoldable pub verify : Document → Document → List Issue
verify desired actual =
    compare (λ c. c.username) client_issues (astray object_client) (astray object_client)
      (fill (λ c. c.username) [] actual.clients) desired.clients
    ++ (compare (λ g. g.group_name) group_issues (astray object_group) (astray object_group)
          (fill (λ g. g.group_name) [] actual.groups) desired.groups
        ++ (compare (λ r. r.role_name) role_issues (astray object_role) (astray object_role)
              (fill (λ r. r.role_name) [] actual.roles) desired.roles
            ++ (issue_unless (same_default desired.default_access actual.default_access)
                  object_default_access (codes "default_access") []
                ++ issue_unless (text_eq desired.anonymous_group actual.anonymous_group)
                    object_anonymous_group (codes "anonymous_group") [])))
