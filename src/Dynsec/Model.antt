-- ===== src/Dynsec/Model.antt =====
-- internal/dynsec/model.go: the security database.
use mcm.Base.{
  Bool, true, false, List, [], ◌∷◌, Option, none, some, is_empty, if◌then◌else◌, any, map,
}
use mcm.Base.Int.{ℤ}
use mcm.Text.{Bytes, codes, text_eq}

-- `ACLType` is a string type, with these constants.
abbrev pub publish_client_send : Bytes
publish_client_send = codes "publishClientSend"

abbrev pub publish_client_receive : Bytes
publish_client_receive = codes "publishClientReceive"

abbrev pub subscribe_literal : Bytes
subscribe_literal = codes "subscribeLiteral"

abbrev pub subscribe_pattern : Bytes
subscribe_pattern = codes "subscribePattern"

abbrev pub unsubscribe_literal : Bytes
unsubscribe_literal = codes "unsubscribeLiteral"

abbrev pub unsubscribe_pattern : Bytes
unsubscribe_pattern = codes "unsubscribePattern"

abbrev pub acl_types : List Bytes
acl_types =
    publish_client_send ∷ publish_client_receive ∷ subscribe_literal ∷ subscribe_pattern
    ∷ unsubscribe_literal ∷ unsubscribe_pattern ∷ []

unfoldable pub is_valid_acl_type : Bytes → Bool
is_valid_acl_type t = any (text_eq t) acl_types

pub record Acl : Type 0 where
  pub acl_type : Bytes
  pub topic : Bytes
  pub allow : Bool
  pub priority : ℤ

pub record RoleRef : Type 0 where
  pub role_name : Bytes
  pub priority : ℤ

pub record GroupRef : Type 0 where
  pub group_name : Bytes
  pub priority : ℤ

pub record ClientRef : Type 0 where
  pub username : Bytes
  pub priority : ℤ

pub record Role : Type 0 where
  pub role_name : Bytes
  pub text_name : Bytes
  pub text_description : Bytes
  pub acls : List Acl

pub record Client : Type 0 where
  pub username : Bytes
  pub text_name : Bytes
  pub text_description : Bytes
  pub client_id : Bytes
  pub password : Bytes
  pub password_set : Bool
  pub roles : List RoleRef
  pub groups : List GroupRef
  pub disabled : Bool

pub record Group : Type 0 where
  pub group_name : Bytes
  pub text_name : Bytes
  pub text_description : Bytes
  pub roles : List RoleRef
  pub clients : List ClientRef

pub record DefaultAccess : Type 0 where
  pub send : Bool
  pub receive : Bool
  pub subscribe : Bool
  pub unsubscribe : Bool

pub record Document : Type 0 where
  pub clients : List Client
  pub groups : List Group
  pub roles : List Role
  pub default_access : DefaultAccess
  pub anonymous_group : Bytes

-- `Client.Redacted`.
unfoldable pub redacted_client : Client → Client
redacted_client c = record c {
  password = [];
  password_set = if is_empty c.password then c.password_set else true;
}

-- `Document.Redacted`. The copy that it makes first is the same value.
unfoldable pub redacted : Document → Document
unfolding redacted_client
redacted d = record d { clients = map redacted_client d.clients }

-- The first element of that name.
abbrev pub find_by {ℓ} : {A : Type ℓ} → (A → Bytes) → Bytes → List A → Option A
find_by name k [] = none
find_by name k (x ∷ xs) = if text_eq (name x) k then some x else find_by name k xs

abbrev pub find_client : Document → Bytes → Option Client
find_client d username = find_by (λ c. c.username) username d.clients

abbrev pub find_group : Document → Bytes → Option Group
find_group d name = find_by (λ g. g.group_name) name d.groups

abbrev pub find_role : Document → Bytes → Option Role
find_role d name = find_by (λ r. r.role_name) name d.roles

abbrev pub is_found {ℓ} : {A : Type ℓ} → Option A → Bool
is_found none = false
is_found (some a) = true
