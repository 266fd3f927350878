-- ===== src/Samples/Databases.antt =====
-- A security database with an operator and a group, and the same with a reader that joins the group.
use mcm.Base.{false, true, List, [], ◌∷◌}
use mcm.Base.Int.{ℤ}
use mcm.Text.{Bytes, codes}
use mcm.Dynsec.Model.{
  RoleRef, GroupRef, ClientRef, Role, Client, Group, DefaultAccess, Document, publish_client_send,
  subscribe_pattern,
}

abbrev pub zero_priority : ℤ
zero_priority = ℤ.pos 0

abbrev pub manager : Role
manager = record {
  role_name = codes "manager";
  text_name = [];
  text_description = [];
  acls =
      record {
        acl_type = publish_client_send;
        topic = codes "$CONTROL/dynamic-security/#";
        allow = true;
        priority = zero_priority;
      }
      ∷ [];
}

abbrev pub reader : Role
reader = record {
  role_name = codes "reader";
  text_name = [];
  text_description = [];
  acls =
      record {
        acl_type = subscribe_pattern;
        topic = codes "sensors/#";
        allow = true;
        priority = zero_priority;
      }
      ∷ [];
}

abbrev pub role_ref : Bytes → RoleRef
role_ref n = record { role_name = n; priority = zero_priority }

abbrev pub client_named : Bytes → List RoleRef → List GroupRef → Client
client_named n roles groups = record {
  username = n;
  text_name = [];
  text_description = [];
  client_id = [];
  password = [];
  password_set = false;
  roles = roles;
  groups = groups;
  disabled = false;
}

abbrev pub operator : Client
operator = client_named (codes "admin") (role_ref (codes "manager") ∷ []) []

abbrev pub team_of : List ClientRef → Group
team_of members = record {
  group_name = codes "team";
  text_name = [];
  text_description = [];
  roles = role_ref (codes "reader") ∷ [];
  clients = members;
}

abbrev pub closed_access : DefaultAccess
closed_access = record { send = false; receive = true; subscribe = false; unsubscribe = true }

abbrev pub before : Document
before = record {
  clients = operator ∷ [];
  groups = team_of [] ∷ [];
  roles = manager ∷ reader ∷ [];
  default_access = closed_access;
  anonymous_group = [];
}

abbrev pub ada_ref : ClientRef
ada_ref = record { username = codes "ada"; priority = zero_priority }

abbrev pub team_ref : GroupRef
team_ref = record { group_name = codes "team"; priority = zero_priority }

abbrev pub after : Document
after = record before {
  clients = operator ∷ client_named (codes "ada") [] (team_ref ∷ []) ∷ [];
  groups = team_of (ada_ref ∷ []) ∷ [];
}
