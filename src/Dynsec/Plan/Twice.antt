-- ===== src/Dynsec/Plan/Twice.antt =====
-- internal/dynsec/plan.go: the membership of a group that exists already is changed in two phases.
use mcm.Base.{false, not, List, [], ◌∷◌, ◌++◌, some, ◌≡◌, refl, ap, append_assoc, flat_map}
use mcm.Base.Members.{Memᴰ}
use mcm.Text.{Bytes}
use mcm.Dynsec.Model.{ClientRef, Group, Document, find_group}
use mcm.Dynsec.Updates.{
  Action, ObjectKind, Change, Plan, change, update_if, has_client, join_command, join_changes,
  leave_changes, group_updates, group_text_changes, gained_roles, lost_roles,
  group_membership_updates, add_role_to_group, take_role_from_group,
}
use mcm.Dynsec.Plan.{role_phase, group_phase, client_phase, membership_phase, build_plan}

module _ {A : Type 0} where
  mem-append_right : {x : A} (xs ys : List A) → Memᴰ x ys → Memᴰ x (xs ++ ys)
  mem-append_right [] ys m = m
  mem-append_right (y ∷ xs) ys m = Memᴰ.tail (mem-append_right xs ys m)

  mem-append_left : {x : A} (xs ys : List A) → Memᴰ x xs → Memᴰ x (xs ++ ys)
  mem-append_left [] ys m = elim m [ ]
  mem-append_left (y ∷ xs) ys (Memᴰ.head e) = Memᴰ.head e
  mem-append_left (y ∷ xs) ys (Memᴰ.tail m) = Memᴰ.tail (mem-append_left xs ys m)

  mem-flat_map :
      {B : Type 0} (f : B → List A) {x : A} {b : B} (bs : List B)
      → Memᴰ b bs
      → Memᴰ x (f b)
      → Memᴰ x (flat_map f bs)
  mem-flat_map f [] m h = elim m [ ]
  mem-flat_map f (c ∷ bs) (Memᴰ.head e) h = mem-append_left (f c) (flat_map f bs) (rw e at h)
  mem-flat_map f (c ∷ bs) (Memᴰ.tail m) h =
      mem-append_right (f c) (flat_map f bs) (mem-flat_map f bs m h)

  -- The place of a member.
  mem_place : {x : A} (xs : List A) → Memᴰ x xs → (a : List A) × (b : List A) × (xs ≡ a ++ (x ∷ b))
  mem_place [] m = elim m [ ]
  mem_place (y ∷ xs) (Memᴰ.head e) = ([], xs, rw e refl)
  mem_place (y ∷ xs) (Memᴰ.tail m) =
      let (a, b, e) = mem_place xs m in (y ∷ a, b, ap (λ (t : List A). y ∷ t) e)

  -- Two places with a part between them.
  two_places :
      {x : A} (r u m v s : List A)
      → Memᴰ x u
      → Memᴰ x v
      → (a : List A) × (b : List A) × (c : List A) × (d : List A) × (r ++ (u ++ (m ++ (v ++ s)))
          ≡ a ++ (x ∷ (b ++ (m ++ (c ++ (x ∷ d))))))
  two_places {x} r u m v s mu mv =
      let (a, b, eu) = mem_place u mu in
      let (c, d, ev) = mem_place v mv in (r ++ a, b, c, d ++ s, rw (eu, ev) (simp append_assoc))

-- The change that adds a client to a group.
abbrev pub join_change : Bytes → ClientRef → Change
join_change n r = change ObjectKind.group n Action.update (join_command n r)

join_changes-mem :
    (old g : Group) (r : ClientRef)
    → Memᴰ r g.clients
    → has_client old.clients r.username ≡ false
    → Memᴰ (join_change g.group_name r) (join_changes old g)
unfolding join_changes
join_changes-mem old g r m new =
    mem-flat_map
      (λ (r : ClientRef).
        update_if (not (has_client old.clients r.username)) ObjectKind.group g.group_name
          (join_command g.group_name r))
      g.clients m (rw new (Memᴰ.head refl))

module _ (current desired : Document) (g old : Group) (r : ClientRef) where
  -- A client that a group of both documents has to get is added to it twice by the plan: once
  -- before the phase in which the clients are created, and once behind it.
  pub joined_twice :
      Memᴰ g desired.groups
      → find_group current g.group_name ≡ some old
      → Memᴰ r g.clients
      → has_client old.clients r.username ≡ false
      → (a : Plan) × (b : Plan) × (c : Plan) × (d : Plan) × (build_plan current desired
          ≡ a
            ++ (join_change g.group_name r
                ∷ (b ++ (client_phase current desired ++ (c ++ (join_change g.group_name r ∷ d))))))
  unfolding build_plan group_phase membership_phase group_updates group_membership_updates
  joined_twice mg found mr new =
      let n = g.group_name in
      let j = join_changes-mem old g r mr new in
      two_places (role_phase current desired) (group_phase current desired)
        (client_phase current desired) (membership_phase current desired) _
        (mem-flat_map _ desired.groups mg (
          rw found (
            mem-append_right (group_text_changes old g) _ (
              mem-append_right
                (gained_roles ObjectKind.group n (add_role_to_group n) old.roles g.roles) _
                (mem-append_right
                  (lost_roles ObjectKind.group n (take_role_from_group n) old.roles g.roles) _
                  (mem-append_left (join_changes old g) (leave_changes (λ u. false) old g) j))))))
        (mem-flat_map _ desired.groups mg (rw found (mem-append_left (join_changes old g) _ j)))
