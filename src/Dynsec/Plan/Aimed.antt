-- ===== src/Dynsec/Plan/Aimed.antt =====
-- internal/dynsec/plan.go: every change of a plan is aimed at one object.
use mcm.Base.{
  Bool, true, false, not, ◌||◌, List, [], ◌∷◌, ◌++◌, Option, none, some, ◌≡◌, refl, Bool-cases, inl,
  inr, ◌⊎◌,
}
use mcm.Base.Members.{All, All-append, All-flat_map}
use mcm.Text.{Bytes}
use mcm.Dynsec.Model.{Acl, RoleRef, Role, Client, Group}
use mcm.Dynsec.Command.{Command}
use mcm.Dynsec.Updates.{
  Action, ObjectKind, Change, Plan, role_updates, group_updates, client_updates,
  group_membership_updates, join_changes, leave_changes, update_if, join_command, removed_change,
  added_change, role_text_changes, removed_changes, added_changes, removed_acls, added_acls,
  remove_entry, gained_roles, lost_roles, has_role, has_client, group_text_changes,
  add_role_to_group, take_role_from_group, add_role_to_client, take_role_from_client,
  client_text_changes, password_changes, able_changes, able_command, add_entry, find_acl,
  has_other_priority,
}
use mcm.Dynsec.Plan.{
  join_new, role_changes, group_changes, client_changes, membership_changes, delete_unless,
}
use mcm.Dynsec.Effect.{aim, aim_at}
use mcm.Dynsec.Run.{Aimed}

-- A change with these words, whose commands do as it says.
abbrev pub IsChange : Action → ObjectKind → Bytes → Change → Type 0
IsChange a k n ch = (ch.action ≡ a) × (ch.kind ≡ k) × (ch.name ≡ n) × Aimed ch

abbrev pub IsUpdate : ObjectKind → Bytes → Change → Type 0
IsUpdate k n ch = IsChange Action.update k n ch

pub update_if-IsUpdate :
    (test : Bool) (k : ObjectKind) (n : Bytes) (c : Command)
    → aim c ≡ aim_at Action.update k n
    → All (IsUpdate k n) (update_if test k n c)
update_if-IsUpdate true k n c h = ((refl, refl, refl, (h, tt)), tt)
update_if-IsUpdate false k n c h = tt

add_entry-aim :
    (current : List Acl) (n : Bytes) (e : Acl)
    → All (λ c. aim c ≡ aim_at Action.update ObjectKind.role n) (add_entry current n e)
unfolding add_entry
add_entry-aim current n e = elim (Bool-cases (has_other_priority (find_acl current e) e)) [
  | inl h ↦ rw h (refl, (refl, tt))
  | inr h ↦ rw h (refl, tt)
]

pub role_updates-IsUpdate :
    (current desired : Role)
    → All (IsUpdate ObjectKind.role desired.role_name) (role_updates current desired)
unfolding role_updates
role_updates-IsUpdate current desired =
    let n = desired.role_name in
    let P = IsUpdate ObjectKind.role n in
    All-append P (role_text_changes current desired)
      (removed_changes current desired ++ added_changes current desired)
      (update_if-IsUpdate _ ObjectKind.role n
        (Command.modify_role n desired.text_name desired.text_description) refl)
      (All-append P (removed_changes current desired) (added_changes current desired)
        (All-flat_map P (removed_change n) (removed_acls current.acls desired.acls)
          (λ e. update_if-IsUpdate true ObjectKind.role n (remove_entry n e) refl))
        (All-flat_map P (added_change current.acls n) (added_acls current.acls desired.acls)
          (λ e. ((refl, refl, refl, add_entry-aim current.acls n e), tt))))

gained_roles-IsUpdate :
    (k : ObjectKind) (n : Bytes) (add : RoleRef → Command) (current desired : List RoleRef)
    → ((r : RoleRef) → aim (add r) ≡ aim_at Action.update k n)
    → All (IsUpdate k n) (gained_roles k n add current desired)
unfolding gained_roles
gained_roles-IsUpdate k n add current desired h =
    All-flat_map (IsUpdate k n) _ desired
      (λ r. update_if-IsUpdate (not (has_role current r.role_name)) k n (add r) (h r))

lost_roles-IsUpdate :
    (k : ObjectKind) (n : Bytes) (drop : RoleRef → Command) (current desired : List RoleRef)
    → ((r : RoleRef) → aim (drop r) ≡ aim_at Action.update k n)
    → All (IsUpdate k n) (lost_roles k n drop current desired)
unfolding lost_roles
lost_roles-IsUpdate k n drop current desired h =
    All-flat_map (IsUpdate k n) _ current
      (λ r. update_if-IsUpdate (not (has_role desired r.role_name)) k n (drop r) (h r))

join-IsUpdate :
    (current desired : Group)
    → All (IsUpdate ObjectKind.group desired.group_name) (join_changes current desired)
unfolding join_changes
join-IsUpdate current desired =
    let n = desired.group_name in
    All-flat_map (IsUpdate ObjectKind.group n) _ desired.clients (λ r.
      update_if-IsUpdate (not (has_client current.clients r.username)) ObjectKind.group n
        (join_command n r) refl)

leave-IsUpdate :
    (spared : Bytes → Bool) (current desired : Group)
    → All (IsUpdate ObjectKind.group desired.group_name) (leave_changes spared current desired)
unfolding leave_changes
leave-IsUpdate spared current desired =
    let n = desired.group_name in
    All-flat_map (IsUpdate ObjectKind.group n) _ current.clients (λ r.
      update_if-IsUpdate (not (has_client desired.clients r.username || spared r.username))
        ObjectKind.group n (Command.remove_group_client n r.username) refl)

pub group_updates-IsUpdate :
    (current desired : Group)
    → All (IsUpdate ObjectKind.group desired.group_name) (group_updates current desired)
unfolding group_updates
group_updates-IsUpdate current desired =
    let n = desired.group_name in
    let P = IsUpdate ObjectKind.group n in
    let joins = join_changes current desired in
    let leaves = leave_changes (λ u. false) current desired in
    let gains = gained_roles ObjectKind.group n (add_role_to_group n) current.roles desired.roles in
    let losses =
      lost_roles ObjectKind.group n (take_role_from_group n) current.roles desired.roles in
    All-append P (group_text_changes current desired) (gains ++ (losses ++ (joins ++ leaves)))
      (update_if-IsUpdate _ ObjectKind.group n
        (Command.modify_group n desired.text_name desired.text_description) refl)
      (All-append P gains (losses ++ (joins ++ leaves))
        (gained_roles-IsUpdate ObjectKind.group n _ current.roles desired.roles (λ r. refl))
        (All-append P losses (joins ++ leaves)
          (lost_roles-IsUpdate ObjectKind.group n _ current.roles desired.roles (λ r. refl))
          (All-append P joins leaves (join-IsUpdate current desired)
            (leave-IsUpdate (λ u. false) current desired))))

able-aim : (c : Client) → aim (able_command c) ≡ aim_at Action.update ObjectKind.client c.username
able-aim c = elim (Bool-cases c.disabled) [ inl e ↦ simp e | inr e ↦ simp e ]

pub client_updates-IsUpdate :
    (current desired : Client)
    → All (IsUpdate ObjectKind.client desired.username) (client_updates current desired)
unfolding client_updates
client_updates-IsUpdate current desired =
    let n = desired.username in
    let P = IsUpdate ObjectKind.client n in
    let gains =
      gained_roles ObjectKind.client n (add_role_to_client n) current.roles desired.roles in
    let losses =
      lost_roles ObjectKind.client n (take_role_from_client n) current.roles desired.roles in
    let able = able_changes current desired in
    All-append P (client_text_changes current desired)
      (password_changes desired ++ (able ++ (gains ++ losses)))
      (update_if-IsUpdate _ ObjectKind.client n
        (Command.modify_client n desired.client_id desired.text_name desired.text_description) refl)
      (All-append P (password_changes desired) (able ++ (gains ++ losses))
        (update_if-IsUpdate _ ObjectKind.client n (Command.set_client_password n desired.password)
          refl)
        (All-append P able (gains ++ losses)
          (update_if-IsUpdate _ ObjectKind.client n (able_command desired) (able-aim desired))
          (All-append P gains losses
            (gained_roles-IsUpdate ObjectKind.client n _ current.roles desired.roles (λ r. refl))
            (lost_roles-IsUpdate ObjectKind.client n _ current.roles desired.roles (λ r. refl)))))

pub membership-IsUpdate :
    (deleted : Bytes → Bool) (o : Option Group) (g : Group)
    → All (IsUpdate ObjectKind.group g.group_name) (membership_changes deleted o g)
unfolding group_membership_updates
membership-IsUpdate deleted none g =
    let n = g.group_name in
    All-flat_map (IsUpdate ObjectKind.group n) (join_new n) g.clients
      (λ r. update_if-IsUpdate true ObjectKind.group n (join_command n r) refl)
membership-IsUpdate deleted (some current) g =
    All-append (IsUpdate ObjectKind.group g.group_name) (join_changes current g)
      (leave_changes deleted current g) (join-IsUpdate current g) (leave-IsUpdate deleted current g)

-- A change that makes or updates an object.
abbrev pub IsMaking : ObjectKind → Bytes → Change → Type 0
IsMaking k n ch = IsChange Action.create k n ch ⊎ IsUpdate k n ch

making : (k : ObjectKind) (n : Bytes) (p : Plan) → All (IsUpdate k n) p → All (IsMaking k n) p
making k n [] h = tt
making k n (ch ∷ p) h = (inr h.0, making k n p h.1)

pub role_changes-IsMaking :
    (o : Option Role) (r : Role) → All (IsMaking ObjectKind.role r.role_name) (role_changes o r)
role_changes-IsMaking none r = (inl (refl, refl, refl, (refl, tt)), tt)
role_changes-IsMaking (some current) r =
    making ObjectKind.role r.role_name _ (role_updates-IsUpdate current r)

pub group_changes-IsMaking :
    (o : Option Group) (g : Group)
    → All (IsMaking ObjectKind.group g.group_name) (group_changes o g)
group_changes-IsMaking none g = (inl (refl, refl, refl, (refl, tt)), tt)
group_changes-IsMaking (some current) g =
    making ObjectKind.group g.group_name _ (group_updates-IsUpdate current g)

pub client_changes-IsMaking :
    (o : Option Client) (c : Client)
    → All (IsMaking ObjectKind.client c.username) (client_changes o c)
client_changes-IsMaking none c = (inl (refl, refl, refl, (refl, tt)), tt)
client_changes-IsMaking (some current) c =
    making ObjectKind.client c.username _ (client_updates-IsUpdate current c)

pub delete_unless-IsChange :
    (found : Bool) (k : ObjectKind) (n : Bytes) (c : Command)
    → aim c ≡ aim_at Action.delete k n
    → All (IsChange Action.delete k n) (delete_unless found k n c)
delete_unless-IsChange true k n c h = tt
delete_unless-IsChange false k n c h = ((refl, refl, refl, (h, tt)), tt)
