-- ===== src/Dynsec/Sort.antt =====
-- internal/dynsec/model.go: `Document.Sort`, with `sort.SliceStable` as a stable insertion.
use mcm.Base.{Bool, List, [], ◌∷◌, if◌then◌else◌, map}
use mcm.Text.{text_eq, text_lt}
use mcm.Dynsec.Model.{Acl, RoleRef, GroupRef, ClientRef, Role, Client, Group, Document}

module _ {A : Type 0} (less : A → A → Bool) where
  unfoldable pub insert_by : A → List A → List A
  insert_by x [] = x ∷ []
  insert_by x (y ∷ ys) = let rest = insert_by x ys in if less y x then y ∷ rest else x ∷ y ∷ ys

  unfoldable pub sort_by : List A → List A
  unfolding insert_by
  sort_by [] = []
  sort_by (x ∷ xs) = insert_by x (sort_by xs)

abbrev pub acl_less : Acl → Acl → Bool
acl_less a b =
    if text_eq a.acl_type b.acl_type then text_lt a.topic b.topic else text_lt a.acl_type b.acl_type

unfoldable pub sorted_client : Client → Client
unfolding sort_by
sorted_client c = record c {
  roles = sort_by (λ (a b : RoleRef). text_lt a.role_name b.role_name) c.roles;
  groups = sort_by (λ (a b : GroupRef). text_lt a.group_name b.group_name) c.groups;
}

unfoldable pub sorted_group : Group → Group
unfolding sort_by
sorted_group g = record g {
  roles = sort_by (λ (a b : RoleRef). text_lt a.role_name b.role_name) g.roles;
  clients = sort_by (λ (a b : ClientRef). text_lt a.username b.username) g.clients;
}

unfoldable pub sorted_role : Role → Role
unfolding sort_by
sorted_role r = record r { acls = sort_by acl_less r.acls }

unfoldable pub sorted : Document → Document
unfolding sort_by sorted_client sorted_group sorted_role
sorted d = record d {
  clients = map sorted_client (sort_by (λ (a b : Client). text_lt a.username b.username) d.clients);
  groups = map sorted_group (sort_by (λ (a b : Group). text_lt a.group_name b.group_name) d.groups);
  roles = map sorted_role (sort_by (λ (a b : Role). text_lt a.role_name b.role_name) d.roles);
}
