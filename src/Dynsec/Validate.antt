-- ===== src/Dynsec/Validate.antt =====
-- internal/dynsec/model.go: `Validate`. The messages of the issues are left out.
pub mod Loops
pub mod Documents
use mcm.Base.{
  Bool, true, false, not, List, [], ◌∷◌, ◌++◌, Option, none, some, if◌then◌else◌, ◌&&◌, ◌||◌, any,
  flat_map, is_empty,
}
use mcm.Text.{Bytes, codes, text_eq, has_any, is_blank}
use mcm.Acl.Validate.{FilterError, validate_topic_filter}
use mcm.Dynsec.Model.{
  Acl, RoleRef, GroupRef, ClientRef, Role, Client, Group, Document, is_valid_acl_type,
}
use mcm.Dynsec.Issue.{Issue, issue, issue_unless}

abbrev pub issue_kind_name : Bytes
issue_kind_name = codes "name"

abbrev pub issue_kind_topic : Bytes
issue_kind_topic = codes "topic"

abbrev pub issue_kind_value : Bytes
issue_kind_value = codes "value"

abbrev pub issue_kind_reference : Bytes
issue_kind_reference = codes "reference"

abbrev pub issue_kind_duplicate : Bytes
issue_kind_duplicate = codes "duplicate"

unfoldable pub valid_object_name : Bytes → Bool
valid_object_name name =
    if is_blank name then false else not (has_any (35 ∷ 43 ∷ 0 ∷ 10 ∷ 13 ∷ []) name)

-- A set of names, as a list.
abbrev pub has_name : List Bytes → Bytes → Bool
has_name names n = any (λ s. text_eq s n) names

-- The issues of one name, with the names that were seen before.
unfoldable pub name_issues : Bytes → List Bytes → Bytes → List Issue
unfolding valid_object_name
name_issues field seen n =
    issue_unless (valid_object_name n) issue_kind_name n field
    ++ issue_unless (not (has_name seen n)) issue_kind_duplicate n field

module _ {A : Type 0} (name : A → Bytes) (field : Bytes) (more : A → List Issue) where
  -- A loop of `Validate` that collects the names. A blank name is an issue and goes no further.
  unfoldable pub object_issues : List Bytes → List A → List Issue
  unfolding name_issues
  object_issues seen [] = []
  object_issues seen (x ∷ xs) =
      if is_blank (name x)
      then issue issue_kind_name (name x) field ∷ object_issues seen xs
      else name_issues field seen (name x) ++ (more x ++ object_issues (name x ∷ seen) xs)

-- The set of names after the loop.
unfoldable pub names_seen : {A : Type 0} → (A → Bytes) → List Bytes → List A → List Bytes
names_seen name seen [] = seen
names_seen name seen (x ∷ xs) =
    if is_blank (name x) then names_seen name seen xs else names_seen name (name x ∷ seen) xs

abbrev pub filter_issues : Option FilterError → Bytes → List Issue
filter_issues none r = []
filter_issues (some e) r = issue issue_kind_topic r (codes "acls") ∷ []

unfoldable pub acl_issues : Bytes → Acl → List Issue
unfolding is_valid_acl_type validate_topic_filter
acl_issues r e =
    if not (is_valid_acl_type e.acl_type)
    then issue issue_kind_value r (codes "acls") ∷ []
    else if is_blank e.topic
    then issue issue_kind_topic r (codes "acls") ∷ []
    else filter_issues (validate_topic_filter e.topic) r

-- The references of one list to names that are not seen.
abbrev pub reference_issues :
    {A : Type 0} → (A → Bytes) → List Bytes → Bytes → Bytes → List A → List Issue
reference_issues name names object field refs =
    flat_map (λ x. issue_unless (has_name names (name x)) issue_kind_reference object field) refs

abbrev pub client_reference_issues : List Bytes → List Bytes → Client → List Issue
client_reference_issues roles groups c =
    reference_issues (λ x. x.role_name) roles c.username (codes "roles") c.roles
    ++ reference_issues (λ x. x.group_name) groups c.username (codes "groups") c.groups

abbrev pub group_reference_issues : List Bytes → List Bytes → Group → List Issue
group_reference_issues roles clients g =
    reference_issues (λ x. x.role_name) roles g.group_name (codes "roles") g.roles
    ++ reference_issues (λ x. x.username) clients g.group_name (codes "clients") g.clients

unfoldable pub validate : Document → List Issue
unfolding object_issues names_seen acl_issues
validate d =
    let clients = names_seen (λ (c : Client). c.username) [] d.clients in
    let groups = names_seen (λ (g : Group). g.group_name) [] d.groups in
    let roles = names_seen (λ (r : Role). r.role_name) [] d.roles in
    object_issues (λ (c : Client). c.username) (codes "username") (λ c. []) [] d.clients
    ++ (object_issues (λ (g : Group). g.group_name) (codes "group_name") (λ g. []) [] d.groups
        ++ (object_issues (λ (r : Role). r.role_name) (codes "role_name")
              (λ r. flat_map (acl_issues r.role_name) r.acls) [] d.roles
            ++ (flat_map (client_reference_issues roles groups) d.clients
                ++ (flat_map (group_reference_issues roles clients) d.groups
                    ++ issue_unless
                        (is_empty d.anonymous_group || has_name groups d.anonymous_group)
                        issue_kind_reference d.anonymous_group (codes "anonymous_group")))))
