-- ===== src/Dynsec/Plan.antt =====
-- internal/dynsec/plan.go: `BuildPlan`. The summaries, sentences for the operator, are left out.
pub mod Aimed
pub mod Phases
pub mod Names
pub mod Grants
pub mod Reaches
pub mod Twice
use mcm.Base.{
  Bool, not, ◌&&◌, List, [], ◌∷◌, ◌++◌, Option, none, some, if◌then◌else◌, any, flat_map,
}
use mcm.Text.{Bytes, codes, text_eq}
use mcm.Dynsec.Model.{
  ClientRef, Role, Client, Group, DefaultAccess, Document, find_client, find_group, find_role,
  is_found, publish_client_send, publish_client_receive,
}
use mcm.Dynsec.Command.{Command, CommandAcl, role_acls, role_refs}
use mcm.Dynsec.Updates.{
  Action, ObjectKind, Change, Plan, change, update_if, same_bool, join_command, role_updates,
  group_updates, client_updates, group_membership_updates,
}

-- The bodies of the loops of `BuildPlan`, by what `current` has of that name.
abbrev pub role_changes : Option Role → Role → List Change
role_changes none r =
    change ObjectKind.role r.role_name Action.create
      (Command.create_role r.role_name r.text_name r.text_description (role_acls r.acls))
    ∷ []
role_changes (some existing) r = role_updates existing r

abbrev pub group_changes : Option Group → Group → List Change
group_changes none g =
    change ObjectKind.group g.group_name Action.create
      (Command.create_group g.group_name g.text_name g.text_description (role_refs g.roles))
    ∷ []
group_changes (some existing) g = group_updates existing g

abbrev pub client_changes : Option Client → Client → List Change
client_changes none c =
    change ObjectKind.client c.username Action.create (
      Command.create_client c.username c.password c.client_id c.text_name c.text_description
        (role_refs c.roles))
    ∷ []
client_changes (some existing) c = client_updates existing c

abbrev pub join_new : Bytes → ClientRef → List Change
join_new n r = change ObjectKind.group n Action.update (join_command n r) ∷ []

abbrev pub membership_changes : (Bytes → Bool) → Option Group → Group → List Change
membership_changes deleted none g = flat_map (join_new g.group_name) g.clients
membership_changes deleted (some existing) g = group_membership_updates deleted existing g

-- The map `deleted`.
abbrev pub is_deleted : Document → Document → Bytes → Bool
is_deleted current desired u =
    any (λ (c : Client). not (is_found (find_client desired c.username)) && text_eq c.username u)
      current.clients

abbrev pub same_default : DefaultAccess → DefaultAccess → Bool
same_default a b =
    same_bool a.send b.send
    && same_bool a.receive b.receive
    && same_bool a.subscribe b.subscribe
    && same_bool a.unsubscribe b.unsubscribe

abbrev pub default_entry : Bytes → Bool → CommandAcl
default_entry t allow = record { acl_type = t; topic = []; priority = none; allow = some allow }

abbrev pub default_acls : DefaultAccess → List CommandAcl
default_acls a =
    default_entry publish_client_send a.send
    ∷ default_entry publish_client_receive a.receive
    ∷ default_entry (codes "subscribe") a.subscribe
    ∷ default_entry (codes "unsubscribe") a.unsubscribe
    ∷ []

unfoldable pub role_phase : Document → Document → List Change
role_phase current desired =
    flat_map (λ (r : Role). role_changes (find_role current r.role_name) r) desired.roles

unfoldable pub group_phase : Document → Document → List Change
group_phase current desired =
    flat_map (λ (g : Group). group_changes (find_group current g.group_name) g) desired.groups

unfoldable pub client_phase : Document → Document → List Change
client_phase current desired =
    flat_map (λ (c : Client). client_changes (find_client current c.username) c) desired.clients

unfoldable pub membership_phase : Document → Document → List Change
membership_phase current desired =
    flat_map
      (λ (g : Group).
        membership_changes (is_deleted current desired) (find_group current g.group_name) g)
      desired.groups

-- The deletion of an object, unless it is found.
abbrev pub delete_unless : Bool → ObjectKind → Bytes → Command → List Change
delete_unless found k n c = if found then [] else change k n Action.delete c ∷ []

unfoldable pub delete_clients : Document → Document → List Change
delete_clients current desired =
    flat_map
      (λ (c : Client).
        delete_unless (is_found (find_client desired c.username)) ObjectKind.client c.username
          (Command.delete_client c.username))
      current.clients

unfoldable pub delete_groups : Document → Document → List Change
delete_groups current desired =
    flat_map
      (λ (g : Group).
        delete_unless (is_found (find_group desired g.group_name)) ObjectKind.group g.group_name
          (Command.delete_group g.group_name))
      current.groups

unfoldable pub delete_roles : Document → Document → List Change
delete_roles current desired =
    flat_map
      (λ (r : Role).
        delete_unless (is_found (find_role desired r.role_name)) ObjectKind.role r.role_name
          (Command.delete_role r.role_name))
      current.roles

unfoldable pub settings_phase : Document → Document → List Change
settings_phase current desired =
    update_if (not (same_default current.default_access desired.default_access))
      ObjectKind.default_access (codes "default_access")
      (Command.set_default_acl_access (default_acls desired.default_access))
    ++ update_if (not (text_eq current.anonymous_group desired.anonymous_group))
        ObjectKind.anonymous_group (codes "anonymous_group")
        (Command.set_anonymous_group desired.anonymous_group)

unfoldable pub build_plan : Document → Document → Plan
build_plan current desired =
    role_phase current desired
    ++ (group_phase current desired
        ++ (client_phase current desired
            ++ (membership_phase current desired
                ++ (delete_clients current desired
                    ++ (delete_groups current desired
                        ++ (delete_roles current desired ++ settings_phase current desired))))))
