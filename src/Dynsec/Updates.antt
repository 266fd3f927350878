-- ===== src/Dynsec/Updates.antt =====
-- internal/dynsec/plan.go: the changes that turn one object into another. The summaries, sentences for
-- the operator, are left out.
use mcm.Base.{
  Bool, true, false, not, ◌&&◌, ◌||◌, List, [], ◌∷◌, ◌++◌, Option, none, some, is_empty,
  if◌then◌else◌, any, flat_map,
}
use mcm.Base.Int.{int_eq}
use mcm.Text.{Bytes, text_eq}
use mcm.Dynsec.Model.{Acl, RoleRef, ClientRef, Role, Client, Group, is_found}
use mcm.Dynsec.Command.{Command}

pub data Action : Type 0 where
  create update delete : Action

pub data ObjectKind : Type 0 where
  client group role default_access anonymous_group : ObjectKind

pub record Change : Type 0 where
  pub kind : ObjectKind
  pub name : Bytes
  pub action : Action
  pub commands : List Command

-- `Plan` is the list of its changes.
abbrev pub Plan : Type 0
Plan = List Change

-- `Plan.Commands`.
abbrev pub commands_of : Plan → List Command
commands_of p = flat_map (λ (c : Change). c.commands) p

-- A change of one command.
abbrev pub change : ObjectKind → Bytes → Action → Command → Change
change k n a c = record { kind = k; name = n; action = a; commands = c ∷ [] }

abbrev pub same_bool : Bool → Bool → Bool
same_bool true b = b
same_bool false b = not b

abbrev pub same_entry : Acl → Acl → Bool
same_entry a b = text_eq a.acl_type b.acl_type && text_eq a.topic b.topic

-- `findACL`.
unfoldable pub find_acl : List Acl → Acl → Option Acl
find_acl [] e = none
find_acl (c ∷ cs) e = if same_entry c e then some c else find_acl cs e

abbrev pub is_changed : Option Acl → Acl → Bool
is_changed none e = true
is_changed (some p) e = not (same_bool p.allow e.allow) || not (int_eq p.priority e.priority)

-- The two loops of `diffACLs`.
unfoldable pub added_acls : List Acl → List Acl → List Acl
unfolding find_acl
added_acls current desired =
    flat_map (λ (e : Acl). if is_changed (find_acl current e) e then e ∷ [] else []) desired

unfoldable pub removed_acls : List Acl → List Acl → List Acl
unfolding find_acl
removed_acls current desired =
    flat_map (λ (e : Acl). if is_found (find_acl desired e) then [] else e ∷ []) current

abbrev pub has_role : List RoleRef → Bytes → Bool
has_role refs name = any (λ (r : RoleRef). text_eq r.role_name name) refs

abbrev pub has_client : List ClientRef → Bytes → Bool
has_client refs name = any (λ (c : ClientRef). text_eq c.username name) refs

abbrev pub remove_entry : Bytes → Acl → Command
remove_entry role_name e = Command.remove_role_acl role_name e.acl_type e.topic

-- A changed priority is a new entry: the old one goes first.
abbrev pub has_other_priority : Option Acl → Acl → Bool
has_other_priority none e = false
has_other_priority (some p) e = not (int_eq p.priority e.priority)

unfoldable pub add_entry : List Acl → Bytes → Acl → List Command
unfolding find_acl
add_entry current role_name e =
    let add =
      Command.add_role_acl role_name e.acl_type e.topic (some e.allow) (some e.priority) ∷ [] in
    if has_other_priority (find_acl current e) e then remove_entry role_name e ∷ add else add

-- An update of one command, when a test holds.
abbrev pub update_if : Bool → ObjectKind → Bytes → Command → List Change
update_if test k n c = if test then change k n Action.update c ∷ [] else []

abbrev pub role_text_changes : Role → Role → List Change
role_text_changes current desired =
    update_if
      (not (text_eq current.text_name desired.text_name)
        || not (text_eq current.text_description desired.text_description))
      ObjectKind.role desired.role_name
      (Command.modify_role desired.role_name desired.text_name desired.text_description)

abbrev pub removed_change : Bytes → Acl → List Change
removed_change n e = change ObjectKind.role n Action.update (remove_entry n e) ∷ []

abbrev pub removed_changes : Role → Role → List Change
removed_changes current desired =
    flat_map (removed_change desired.role_name) (removed_acls current.acls desired.acls)

abbrev pub added_change : List Acl → Bytes → Acl → List Change
added_change current n e =
    record {
      kind = ObjectKind.role;
      name = n;
      action = Action.update;
      commands = add_entry current n e;
    }
    ∷ []

abbrev pub added_changes : Role → Role → List Change
added_changes current desired =
    flat_map (added_change current.acls desired.role_name) (added_acls current.acls desired.acls)

unfoldable pub role_updates : Role → Role → List Change
unfolding added_acls removed_acls add_entry
role_updates current desired =
    role_text_changes current desired
    ++ (removed_changes current desired ++ added_changes current desired)

-- The loops over the roles of a group and of a client: the roles that it has to get, and to lose.
unfoldable pub gained_roles :
    ObjectKind → Bytes → (RoleRef → Command) → List RoleRef → List RoleRef → List Change
gained_roles k n add current desired =
    flat_map (λ (r : RoleRef). update_if (not (has_role current r.role_name)) k n (add r)) desired

unfoldable pub lost_roles :
    ObjectKind → Bytes → (RoleRef → Command) → List RoleRef → List RoleRef → List Change
lost_roles k n drop current desired =
    flat_map (λ (r : RoleRef). update_if (not (has_role desired r.role_name)) k n (drop r)) current

-- The clients that a group has to get, and those that it has to lose but for the ones that are spared.
abbrev pub join_command : Bytes → ClientRef → Command
join_command n r = Command.add_group_client n r.username (some r.priority)

unfoldable pub join_changes : Group → Group → List Change
join_changes current desired =
    flat_map
      (λ (r : ClientRef).
        update_if (not (has_client current.clients r.username)) ObjectKind.group desired.group_name
          (join_command desired.group_name r))
      desired.clients

unfoldable pub leave_changes : (Bytes → Bool) → Group → Group → List Change
leave_changes spared current desired =
    flat_map
      (λ (r : ClientRef).
        update_if (not (has_client desired.clients r.username || spared r.username))
          ObjectKind.group desired.group_name
          (Command.remove_group_client desired.group_name r.username))
      current.clients

abbrev pub group_text_changes : Group → Group → List Change
group_text_changes current desired =
    update_if
      (not (text_eq current.text_name desired.text_name)
        || not (text_eq current.text_description desired.text_description))
      ObjectKind.group desired.group_name
      (Command.modify_group desired.group_name desired.text_name desired.text_description)

abbrev pub add_role_to_group : Bytes → RoleRef → Command
add_role_to_group n r = Command.add_group_role n r.role_name (some r.priority)

abbrev pub take_role_from_group : Bytes → RoleRef → Command
take_role_from_group n r = Command.remove_group_role n r.role_name

unfoldable pub group_updates : Group → Group → List Change
unfolding join_changes leave_changes gained_roles lost_roles
group_updates current desired =
    let n = desired.group_name in
    group_text_changes current desired
    ++ (gained_roles ObjectKind.group n (add_role_to_group n) current.roles desired.roles
        ++ (lost_roles ObjectKind.group n (take_role_from_group n) current.roles desired.roles
            ++ (join_changes current desired ++ leave_changes (λ u. false) current desired)))

-- The clients that are deleted altogether are left alone.
unfoldable pub group_membership_updates : (Bytes → Bool) → Group → Group → List Change
unfolding join_changes leave_changes
group_membership_updates deleted current desired =
    join_changes current desired ++ leave_changes deleted current desired

abbrev pub client_text_changes : Client → Client → List Change
client_text_changes current desired =
    update_if
      (not (text_eq current.text_name desired.text_name)
        || not (text_eq current.text_description desired.text_description)
        || not (text_eq current.client_id desired.client_id))
      ObjectKind.client desired.username
      (Command.modify_client desired.username desired.client_id desired.text_name
        desired.text_description)

abbrev pub password_changes : Client → List Change
password_changes desired =
    update_if (not (is_empty desired.password)) ObjectKind.client desired.username
      (Command.set_client_password desired.username desired.password)

abbrev pub able_command : Client → Command
able_command c =
    if c.disabled then Command.disable_client c.username else Command.enable_client c.username

abbrev pub able_changes : Client → Client → List Change
able_changes current desired =
    update_if (not (same_bool current.disabled desired.disabled)) ObjectKind.client desired.username
      (able_command desired)

abbrev pub add_role_to_client : Bytes → RoleRef → Command
add_role_to_client n r = Command.add_client_role n r.role_name (some r.priority)

abbrev pub take_role_from_client : Bytes → RoleRef → Command
take_role_from_client n r = Command.remove_client_role n r.role_name

unfoldable pub client_updates : Client → Client → List Change
unfolding gained_roles lost_roles
client_updates current desired =
    let n = desired.username in
    client_text_changes current desired
    ++ (password_changes desired
        ++ (able_changes current desired
            ++ (gained_roles ObjectKind.client n (add_role_to_client n) current.roles desired.roles
                ++ lost_roles ObjectKind.client n (take_role_from_client n) current.roles
                    desired.roles)))
