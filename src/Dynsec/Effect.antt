-- ===== src/Dynsec/Effect.antt =====
-- internal/dynsec: what the plugin's commands are documented to do to one fact of the database, such
-- as whether a client exists.
use mcm.Base.{Bool, true, false, not, ◌&&◌, ◌||◌, List, ◌≡◌, refl, arith, if◌then◌else◌, any}
use mcm.Text.{Bytes, codes, text_eq}
use mcm.Dynsec.Command.{Command, CommandRoleRef}
use mcm.Dynsec.Updates.{Action, ObjectKind}

-- What a command does, to an object of which kind and name.
pub record Aim : Type 0 where
  pub action : Action
  pub kind : ObjectKind
  pub name : Bytes

abbrev pub aim_at : Action → ObjectKind → Bytes → Aim
aim_at a k n = record { action = a; kind = k; name = n }

abbrev pub aim : Command → Aim
aim (Command.create_role n _ _ _) = aim_at Action.create ObjectKind.role n
aim (Command.modify_role n _ _) = aim_at Action.update ObjectKind.role n
aim (Command.add_role_acl n _ _ _ _) = aim_at Action.update ObjectKind.role n
aim (Command.remove_role_acl n _ _) = aim_at Action.update ObjectKind.role n
aim (Command.delete_role n) = aim_at Action.delete ObjectKind.role n
aim (Command.create_group n _ _ _) = aim_at Action.create ObjectKind.group n
aim (Command.modify_group n _ _) = aim_at Action.update ObjectKind.group n
aim (Command.add_group_role n _ _) = aim_at Action.update ObjectKind.group n
aim (Command.remove_group_role n _) = aim_at Action.update ObjectKind.group n
aim (Command.add_group_client n _ _) = aim_at Action.update ObjectKind.group n
aim (Command.remove_group_client n _) = aim_at Action.update ObjectKind.group n
aim (Command.delete_group n) = aim_at Action.delete ObjectKind.group n
aim (Command.create_client n _ _ _ _ _) = aim_at Action.create ObjectKind.client n
aim (Command.modify_client n _ _ _) = aim_at Action.update ObjectKind.client n
aim (Command.set_client_password n _) = aim_at Action.update ObjectKind.client n
aim (Command.enable_client n) = aim_at Action.update ObjectKind.client n
aim (Command.disable_client n) = aim_at Action.update ObjectKind.client n
aim (Command.add_client_role n _ _) = aim_at Action.update ObjectKind.client n
aim (Command.remove_client_role n _) = aim_at Action.update ObjectKind.client n
aim (Command.delete_client n) = aim_at Action.delete ObjectKind.client n
aim (Command.set_anonymous_group _) =
    aim_at Action.update ObjectKind.anonymous_group (codes "anonymous_group")
aim _ = aim_at Action.update ObjectKind.default_access (codes "default_access")

abbrev pub is_update : Action → Bool
is_update Action.update = true
is_update _ = false

abbrev pub is_delete : Action → Bool
is_delete Action.delete = true
is_delete _ = false

abbrev pub is_client_kind : ObjectKind → Bool
is_client_kind ObjectKind.client = true
is_client_kind _ = false

abbrev pub is_group_kind : ObjectKind → Bool
is_group_kind ObjectKind.group = true
is_group_kind _ = false

abbrev pub is_role_kind : ObjectKind → Bool
is_role_kind ObjectKind.role = true
is_role_kind _ = false

-- What each command makes of one fact, and the aims that it depends on.
pub record Effect : Type 0 where
  pub apply : Command → Bool → Bool
  pub concerns : Aim → Bool
  pub idle : (c : Command) (b : Bool) → concerns (aim c) ≡ false → apply c b ≡ b

-- `u` is a client.
abbrev pub client_apply : Bytes → Command → Bool → Bool
client_apply u (Command.create_client n _ _ _ _ _) b = if text_eq n u then true else b
client_apply u (Command.delete_client n) b = if text_eq n u then false else b
client_apply u _ b = b

abbrev pub client_concerns : Bytes → Aim → Bool
client_concerns u a = is_client_kind a.kind && not (is_update a.action) && text_eq a.name u

pub client_idle :
    (u : Bytes) (c : Command) (b : Bool)
    → client_concerns u (aim c) ≡ false
    → client_apply u c b ≡ b
client_idle u (Command.create_client n _ _ _ _ _) b h = rw h
client_idle u (Command.delete_client n) b h = rw h
client_idle u _ b h = refl

unfoldable pub client_effect : Bytes → Effect
client_effect u = record {
  apply = client_apply u;
  concerns = client_concerns u;
  idle = client_idle u;
}

-- `g` is a group.
abbrev pub group_apply : Bytes → Command → Bool → Bool
group_apply g (Command.create_group n _ _ _) b = if text_eq n g then true else b
group_apply g (Command.delete_group n) b = if text_eq n g then false else b
group_apply g _ b = b

abbrev pub group_concerns : Bytes → Aim → Bool
group_concerns g a = is_group_kind a.kind && not (is_update a.action) && text_eq a.name g

pub group_idle :
    (g : Bytes) (c : Command) (b : Bool) → group_concerns g (aim c) ≡ false → group_apply g c b ≡ b
group_idle g (Command.create_group n _ _ _) b h = rw h
group_idle g (Command.delete_group n) b h = rw h
group_idle g _ b h = refl

unfoldable pub group_effect : Bytes → Effect
group_effect g = record { apply = group_apply g; concerns = group_concerns g; idle = group_idle g }

-- `r` is a role.
abbrev pub role_apply : Bytes → Command → Bool → Bool
role_apply r (Command.create_role n _ _ _) b = if text_eq n r then true else b
role_apply r (Command.delete_role n) b = if text_eq n r then false else b
role_apply r _ b = b

abbrev pub role_concerns : Bytes → Aim → Bool
role_concerns r a = is_role_kind a.kind && not (is_update a.action) && text_eq a.name r

pub role_idle :
    (r : Bytes) (c : Command) (b : Bool) → role_concerns r (aim c) ≡ false → role_apply r c b ≡ b
role_idle r (Command.create_role n _ _ _) b h = rw h
role_idle r (Command.delete_role n) b h = rw h
role_idle r _ b h = refl

unfoldable pub role_effect : Bytes → Effect
role_effect r = record { apply = role_apply r; concerns = role_concerns r; idle = role_idle r }

abbrev pub has_role_ref : List CommandRoleRef → Bytes → Bool
has_role_ref refs r = any (λ (x : CommandRoleRef). text_eq x.role_name r) refs

-- The client `u` has the role `r` itself. A deleted role is taken from all.
abbrev pub client_role_apply : Bytes → Bytes → Command → Bool → Bool
client_role_apply u r (Command.create_client n _ _ _ _ refs) b =
    if text_eq n u then has_role_ref refs r else b
client_role_apply u r (Command.delete_client n) b = if text_eq n u then false else b
client_role_apply u r (Command.add_client_role n s _) b =
    if text_eq n u && text_eq s r then true else b
client_role_apply u r (Command.remove_client_role n s) b =
    if text_eq n u && text_eq s r then false else b
client_role_apply u r (Command.delete_role s) b = if text_eq s r then false else b
client_role_apply u r _ b = b

abbrev pub client_role_concerns : Bytes → Bytes → Aim → Bool
client_role_concerns u r a =
    (is_client_kind a.kind && text_eq a.name u)
    || (is_role_kind a.kind && is_delete a.action && text_eq a.name r)

pub client_role_idle :
    (u r : Bytes) (c : Command) (b : Bool)
    → client_role_concerns u r (aim c) ≡ false
    → client_role_apply u r c b ≡ b
client_role_idle u r _ b h = ground arith

unfoldable pub client_role_effect : Bytes → Bytes → Effect
client_role_effect u r = record {
  apply = client_role_apply u r;
  concerns = client_role_concerns u r;
  idle = client_role_idle u r;
}

-- The group `g` has the role `r`.
abbrev pub group_role_apply : Bytes → Bytes → Command → Bool → Bool
group_role_apply g r (Command.create_group n _ _ refs) b =
    if text_eq n g then has_role_ref refs r else b
group_role_apply g r (Command.delete_group n) b = if text_eq n g then false else b
group_role_apply g r (Command.add_group_role n s _) b =
    if text_eq n g && text_eq s r then true else b
group_role_apply g r (Command.remove_group_role n s) b =
    if text_eq n g && text_eq s r then false else b
group_role_apply g r (Command.delete_role s) b = if text_eq s r then false else b
group_role_apply g r _ b = b

abbrev pub group_role_concerns : Bytes → Bytes → Aim → Bool
group_role_concerns g r a =
    (is_group_kind a.kind && text_eq a.name g)
    || (is_role_kind a.kind && is_delete a.action && text_eq a.name r)

pub group_role_idle :
    (g r : Bytes) (c : Command) (b : Bool)
    → group_role_concerns g r (aim c) ≡ false
    → group_role_apply g r c b ≡ b
group_role_idle g r _ b h = ground arith

unfoldable pub group_role_effect : Bytes → Bytes → Effect
group_role_effect g r = record {
  apply = group_role_apply g r;
  concerns = group_role_concerns g r;
  idle = group_role_idle g r;
}
