-- ===== src/Dynsec/Command.antt =====
-- internal/dynsec/protocol.go: the commands of the plugin that the plans use.
use mcm.Base.{Bool, List, Option, some, map}
use mcm.Base.Int.{ℤ}
use mcm.Text.{Bytes}
use mcm.Dynsec.Model.{Acl, RoleRef}

pub record CommandRoleRef : Type 0 where
  pub role_name : Bytes
  pub priority : Option ℤ

pub record CommandAcl : Type 0 where
  pub acl_type : Bytes
  pub topic : Bytes
  pub priority : Option ℤ
  pub allow : Option Bool

-- `Command` with a constructor for each command name that a plan or a read sends. A constructor's
-- arguments are the fields of the record that are set with that name; the others are empty.
pub data Command : Type 0 where
  create_role : (role_name text_name text_description : Bytes) → List CommandAcl → Command
  modify_role : (role_name text_name text_description : Bytes) → Command
  add_role_acl : (role_name acl_type topic : Bytes) → Option Bool → Option ℤ → Command
  remove_role_acl : (role_name acl_type topic : Bytes) → Command
  delete_role : (role_name : Bytes) → Command
  create_group : (group_name text_name text_description : Bytes) → List CommandRoleRef → Command
  modify_group : (group_name text_name text_description : Bytes) → Command
  add_group_role : (group_name role_name : Bytes) → Option ℤ → Command
  remove_group_role : (group_name role_name : Bytes) → Command
  add_group_client : (group_name username : Bytes) → Option ℤ → Command
  remove_group_client : (group_name username : Bytes) → Command
  delete_group : (group_name : Bytes) → Command
  create_client :
      (username password client_id text_name text_description : Bytes)
      → List CommandRoleRef
      → Command
  modify_client : (username client_id text_name text_description : Bytes) → Command
  set_client_password : (username password : Bytes) → Command
  enable_client : (username : Bytes) → Command
  disable_client : (username : Bytes) → Command
  add_client_role : (username role_name : Bytes) → Option ℤ → Command
  remove_client_role : (username role_name : Bytes) → Command
  delete_client : (username : Bytes) → Command
  set_default_acl_access : List CommandAcl → Command
  set_anonymous_group : (group_name : Bytes) → Command
  list_clients list_groups list_roles get_default_acl_access get_anonymous_group : Command

unfoldable pub role_acls : List Acl → List CommandAcl
role_acls entries =
    map
      (λ (e : Acl). record {
        acl_type = e.acl_type;
        topic = e.topic;
        priority = some e.priority;
        allow = some e.allow;
      })
      entries

unfoldable pub role_refs : List RoleRef → List CommandRoleRef
role_refs refs =
    map (λ (r : RoleRef). record { role_name = r.role_name; priority = some r.priority }) refs
