-- ===== src/Dynsec/Guard.antt =====
-- internal/dynsec/plan.go: `CheckControlChannel`. The reasons, sentences for the operator, are left out.
pub mod Topics
pub mod Reach
pub mod Report
use mcm.Base.{
  Bool, true, false, not, List, [], ◌∷◌, ◌++◌, Option, none, some, if◌then◌else◌, ◌&&◌, ◌||◌, any,
  is_empty,
}
use mcm.Text.{Bytes, codes, text_eq, text_lt, has_prefix, trim_space}
use mcm.Dynsec.Model.{
  Acl, RoleRef, GroupRef, Role, Client, Group, Document, find_group, publish_client_send,
  publish_client_receive, subscribe_literal, subscribe_pattern,
}

abbrev pub control_topic : Bytes
control_topic = codes "$CONTROL/dynamic-security/v1"

abbrev pub control_topic_prefix : Bytes
control_topic_prefix = codes "$CONTROL/dynamic-security/"

unfoldable pub topic_reaches_control_channel : Bytes → Bool
topic_reaches_control_channel topic =
    let trimmed = trim_space topic in
    if is_empty trimmed
    then false
    else if text_eq trimmed (codes "$CONTROL") || text_eq trimmed (codes "$CONTROL/#")
    then true
    else has_prefix control_topic_prefix trimmed || text_eq trimmed control_topic

abbrev pub reaching_types : List Bytes
reaching_types =
    publish_client_send ∷ publish_client_receive ∷ subscribe_literal ∷ subscribe_pattern ∷ []

-- An entry of a role that lets its holder reach the channel.
abbrev pub opens_channel : Acl → Bool
opens_channel e =
    if not e.allow
    then false
    else if not (any (text_eq e.acl_type) reaching_types)
    then false
    else topic_reaches_control_channel e.topic

unfoldable pub role_grants_control_channel : Role → Bool
role_grants_control_channel r = any opens_channel r.acls

-- The map `roleReaches`.
unfoldable pub role_reaches : Document → Bytes → Bool
unfolding role_grants_control_channel
role_reaches d n =
    any (λ (r : Role). role_grants_control_channel r && text_eq r.role_name n) d.roles

abbrev pub any_role_reaches : Document → List RoleRef → Bool
any_role_reaches d refs = any (λ (x : RoleRef). role_reaches d x.role_name) refs

abbrev pub group_reaches : Document → Option Group → Bool
group_reaches d none = false
group_reaches d (some g) = any_role_reaches d g.roles

unfoldable pub client_reaches : Document → Client → Bool
unfolding role_reaches
client_reaches d c =
    any_role_reaches d c.roles
    || any (λ (x : GroupRef). group_reaches d (find_group d x.group_name)) c.groups

-- The map `granted`.
unfoldable pub granted : Document → Bytes → Bool
unfolding client_reaches
granted d u = any (λ (c : Client). client_reaches d c && text_eq c.username u) d.clients

unfoldable pub anonymous_reaches : Document → Bool
unfolding role_reaches
anonymous_reaches d =
    if is_empty d.anonymous_group then false else group_reaches d (find_group d d.anonymous_group)

abbrev pub open_defaults : Document → Bool
open_defaults d = d.default_access.send || d.default_access.subscribe

abbrev pub is_management : Bytes → Bytes → Bool
is_management m u = not (is_empty m) && text_eq u m

abbrev pub insert_text : Bytes → List Bytes → List Bytes
insert_text s [] = s ∷ []
insert_text s (x ∷ xs) = let rest = insert_text s xs in if text_lt s x then s ∷ x ∷ xs else x ∷ rest

-- `sort.Strings`.
abbrev pub sort_texts : List Bytes → List Bytes
sort_texts [] = []
sort_texts (x ∷ xs) = insert_text x (sort_texts xs)

-- The principals that the loop over the clients appends to `Allowed` and to `Violations`.
unfoldable pub allowed_clients : Document → Bytes → List Client → List Bytes
unfolding granted
allowed_clients d m [] = []
allowed_clients d m (c ∷ cs) =
    let rest = allowed_clients d m cs in
    if not (granted d c.username)
    then rest
    else if is_management m c.username
    then c.username ∷ rest
    else rest

unfoldable pub violating_clients : Document → Bytes → List Client → List Bytes
unfolding granted
violating_clients d m [] = []
violating_clients d m (c ∷ cs) =
    let rest = violating_clients d m cs in
    if not (granted d c.username)
    then rest
    else if is_management m c.username
    then rest
    else c.username ∷ rest

pub record GuardReport : Type 0 where
  pub ok : Bool
  pub management_client : Bytes
  pub allowed : List Bytes
  pub violations : List Bytes

unfoldable pub check_control_channel : Document → Bytes → GuardReport
unfolding allowed_clients violating_clients anonymous_reaches granted
check_control_channel d m =
    let anonymous =
      if open_defaults d && anonymous_reaches d then codes "anonymous clients" ∷ [] else [] in
    let clients = violating_clients d m d.clients in
    let violations = sort_texts (anonymous ++ clients) in
    let locked = not (is_empty m) && not (granted d m) in
    record {
      ok = is_empty violations && not (anonymous_reaches d) && not (open_defaults d) && not locked;
      management_client = m;
      allowed = sort_texts (allowed_clients d m d.clients);
      violations = violations;
    }
