-- ===== src/Dynsec/Protocol.antt =====
-- internal/dynsec/protocol.go: the answers of the plugin. encoding/json is not part of the repository:
-- what `json.Unmarshal` makes of a text, at each type that is decoded, is the record Json, where `none`
-- is an error. A nil slice and an empty one are both the empty list.
use mcm.Base.{Bool, false, not, List, [], ◌∷◌, Option, none, some, if◌then◌else◌, is_empty, map}
use mcm.Base.Int.{ℤ}
use mcm.Text.{Bytes, codes, text_eq, is_blank}
use mcm.Dynsec.Model.{
  Acl, RoleRef, GroupRef, ClientRef, Role, Client, Group, DefaultAccess, publish_client_send,
  publish_client_receive,
}

abbrev pub command_list_clients : Bytes
command_list_clients = codes "listClients"

abbrev pub command_list_groups : Bytes
command_list_groups = codes "listGroups"

abbrev pub command_list_roles : Bytes
command_list_roles = codes "listRoles"

abbrev pub command_get_default_acl_access : Bytes
command_get_default_acl_access = codes "getDefaultACLAccess"

abbrev pub command_get_anonymous_group : Bytes
command_get_anonymous_group = codes "getAnonymousGroup"

pub record CommandResponse : Type 0 where
  pub command : Bytes
  pub payload : Bytes
  pub error : Bytes
  pub correlation : Bytes

-- `CommandResponse.Failed`.
unfoldable pub has_failed : CommandResponse → Bool
has_failed r = not (is_blank r.error)

pub record ClientPayload : Type 0 where
  pub username : Bytes
  pub text_name : Bytes
  pub text_description : Bytes
  pub client_id : Bytes
  pub disabled : Bool
  pub roles : List RoleRef
  pub groups : List GroupRef

pub record GroupPayload : Type 0 where
  pub group_name : Bytes
  pub text_name : Bytes
  pub text_description : Bytes
  pub roles : List RoleRef
  pub clients : List ClientRef

pub record RolePayload : Type 0 where
  pub role_name : Bytes
  pub text_name : Bytes
  pub text_description : Bytes
  pub acls : List Acl

-- `Allow` is a pointer.
pub record DefaultAclEntry : Type 0 where
  pub acl_type : Bytes
  pub allow : Option Bool

pub record Json : Type 0 where
  -- The total count and the raw text of the clients.
  pub client_list : Bytes → Option (ℤ × Bytes)
  pub client_payloads : Bytes → Option (List ClientPayload)
  pub names : Bytes → Option (List Bytes)
  pub group_list : Bytes → Option (ℤ × List GroupPayload)
  pub role_list : Bytes → Option (ℤ × List RolePayload)
  pub default_acls : Bytes → Option (List DefaultAclEntry)
  pub anonymous_group : Bytes → Option GroupPayload

abbrev pub named_payload : Bytes → ClientPayload
named_payload n = record {
  username = n;
  text_name = [];
  text_description = [];
  client_id = [];
  disabled = false;
  roles = [];
  groups = [];
}

abbrev pub with_count : ℤ → Option (List ClientPayload) → Option (ℤ × List ClientPayload)
with_count n none = none
with_count n (some cs) = some (n, cs)

abbrev pub named_payloads : Option (List Bytes) → Option (List ClientPayload)
named_payloads none = none
named_payloads (some ns) = some (map named_payload ns)

-- The verbose form, or else the short one.
abbrev pub either_form :
    Option (List ClientPayload) → Option (List Bytes) → Option (List ClientPayload)
either_form (some cs) short = some cs
either_form none short = named_payloads short

-- `clientListPayload.UnmarshalJSON`.
unfoldable pub client_list_payload : Json → Bytes → Option (ℤ × List ClientPayload)
client_list_payload j text = elim (j.client_list text) [
  | none ↦ none
  | some (n, raw) ↦
      if is_empty raw
      then some (n, [])
      else with_count n (either_form (j.client_payloads raw) (j.names raw))
]

abbrev pub client_of : ClientPayload → Client
client_of c = record {
  username = c.username;
  text_name = c.text_name;
  text_description = c.text_description;
  client_id = c.client_id;
  password = [];
  password_set = false;
  roles = c.roles;
  groups = c.groups;
  disabled = c.disabled;
}

abbrev pub group_of : GroupPayload → Group
group_of g = record {
  group_name = g.group_name;
  text_name = g.text_name;
  text_description = g.text_description;
  roles = g.roles;
  clients = g.clients;
}

abbrev pub role_of : RolePayload → Role
role_of r = record {
  role_name = r.role_name;
  text_name = r.text_name;
  text_description = r.text_description;
  acls = r.acls;
}

unfoldable pub parse_clients : Json → Bytes → Option (List Client × ℤ)
unfolding client_list_payload
parse_clients j text = elim (client_list_payload j text) [
  | none ↦ none
  | some (n, cs) ↦ some (map client_of cs, n)
]

unfoldable pub parse_groups : Json → Bytes → Option (List Group × ℤ)
parse_groups j text = elim (j.group_list text) [
  | none ↦ none
  | some (n, gs) ↦ some (map group_of gs, n)
]

unfoldable pub parse_roles : Json → Bytes → Option (List Role × ℤ)
parse_roles j text = elim (j.role_list text) [
  | none ↦ none
  | some (n, rs) ↦ some (map role_of rs, n)
]

abbrev pub is_allowed : Option Bool → Bool
is_allowed none = false
is_allowed (some b) = b

-- One round of the loop of `ParseDefaultAccess`.
unfoldable pub set_default : DefaultAclEntry → DefaultAccess → DefaultAccess
set_default e a =
    let allow = is_allowed e.allow in
    if text_eq e.acl_type publish_client_send
    then record a { send = allow }
    else if text_eq e.acl_type publish_client_receive
    then record a { receive = allow }
    else if text_eq e.acl_type (codes "subscribe")
    then record a { subscribe = allow }
    else if text_eq e.acl_type (codes "unsubscribe")
    then record a { unsubscribe = allow }
    else a

unfoldable pub set_defaults : List DefaultAclEntry → DefaultAccess → DefaultAccess
unfolding set_default
set_defaults [] a = a
set_defaults (e ∷ es) a = set_defaults es (set_default e a)

abbrev pub no_access : DefaultAccess
no_access = record { send = false; receive = false; subscribe = false; unsubscribe = false }

unfoldable pub parse_default_access : Json → Bytes → Option DefaultAccess
unfolding set_defaults
parse_default_access j text = elim (j.default_acls text) [
  | none ↦ none
  | some es ↦ some (set_defaults es no_access)
]

unfoldable pub parse_anonymous_group : Json → Bytes → Option Bytes
parse_anonymous_group j text = elim (j.anonymous_group text) [
  | none ↦ none
  | some g ↦ some g.group_name
]
