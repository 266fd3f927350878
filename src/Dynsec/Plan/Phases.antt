-- ===== src/Dynsec/Plan/Phases.antt =====
-- internal/dynsec/plan.go: which phase of a plan can change a fact.
use mcm.Base.{Bool, false, not, [], ◌∷◌, ◌≡◌, refl, ◌∙◌, inl, inr}
use mcm.Base.Members.{All, All-flat_map}
use mcm.Text.{Bytes, codes, text_eq}
use mcm.Dynsec.Model.{Document, find_role, find_group, find_client, is_found}
use mcm.Dynsec.Command.{Command}
use mcm.Dynsec.Updates.{Action, ObjectKind, Plan, update_if}
use mcm.Dynsec.Plan.{
  role_changes, group_changes, client_changes, membership_changes, role_phase, group_phase,
  client_phase, membership_phase, delete_unless, delete_clients, delete_groups, delete_roles,
  settings_phase, build_plan, is_deleted, default_acls, same_default,
}
use mcm.Dynsec.Effect.{aim_at, is_delete, Effect}
use mcm.Dynsec.Run.{run, run-append, IsElsewhere, run-IsElsewhere}
use mcm.Dynsec.Plan.Aimed.{
  IsChange, IsMaking, update_if-IsUpdate, delete_unless-IsChange, membership-IsUpdate,
  role_changes-IsMaking, group_changes-IsMaking, client_changes-IsMaking,
}

module _ (e : Effect) where
  pub changes-IsElsewhere :
      (a : Action) (k : ObjectKind) (n : Bytes) (p : Plan)
      → e.concerns (aim_at a k n) ≡ false
      → All (IsChange a k n) p
      → All (IsElsewhere e) p
  changes-IsElsewhere a k n [] h all = tt
  changes-IsElsewhere a k n (ch ∷ p) h all =
      let (at, kt, nt, aimed) = all.0 in
      ((aimed, simp (at, kt, nt) h), changes-IsElsewhere a k n p h all.1)

  pub making-IsElsewhere :
      (k : ObjectKind) (n : Bytes) (p : Plan)
      → e.concerns (aim_at Action.create k n) ≡ false
      → e.concerns (aim_at Action.update k n) ≡ false
      → All (IsMaking k n) p
      → All (IsElsewhere e) p
  making-IsElsewhere k n [] h h' all = tt
  making-IsElsewhere k n (ch ∷ p) h h' all = elim all.0 [
    | inl c ↦ (
      (changes-IsElsewhere Action.create k n (ch ∷ []) h (c, tt)).0,
      making-IsElsewhere k n p h h' all.1,
    )
    | inr c ↦ (
      (changes-IsElsewhere Action.update k n (ch ∷ []) h' (c, tt)).0,
      making-IsElsewhere k n p h h' all.1,
    )
  ]

  module _ (current desired : Document) where
    -- A phase leaves a fact alone that no action of its on objects of its kind concerns.
    pub run-role_phase :
        ((a : Action) (n : Bytes)
          → is_delete a ≡ false
          → e.concerns (aim_at a ObjectKind.role n) ≡ false)
        → (b : Bool) → run e (role_phase current desired) b ≡ b
    unfolding role_phase
    run-role_phase h b = run-IsElsewhere e _ b (
        All-flat_map (IsElsewhere e) _ desired.roles (λ x.
          making-IsElsewhere ObjectKind.role x.role_name
            (role_changes (find_role current x.role_name) x) (h Action.create x.role_name refl)
            (h Action.update x.role_name refl)
            (role_changes-IsMaking (find_role current x.role_name) x)))

    pub run-group_phase :
        ((a : Action) (n : Bytes)
          → is_delete a ≡ false
          → e.concerns (aim_at a ObjectKind.group n) ≡ false)
        → (b : Bool) → run e (group_phase current desired) b ≡ b
    unfolding group_phase
    run-group_phase h b = run-IsElsewhere e _ b (
        All-flat_map (IsElsewhere e) _ desired.groups (λ x.
          making-IsElsewhere ObjectKind.group x.group_name
            (group_changes (find_group current x.group_name) x) (h Action.create x.group_name refl)
            (h Action.update x.group_name refl)
            (group_changes-IsMaking (find_group current x.group_name) x)))

    pub run-client_phase :
        ((a : Action) (n : Bytes)
          → is_delete a ≡ false
          → e.concerns (aim_at a ObjectKind.client n) ≡ false)
        → (b : Bool) → run e (client_phase current desired) b ≡ b
    unfolding client_phase
    run-client_phase h b = run-IsElsewhere e _ b (
        All-flat_map (IsElsewhere e) _ desired.clients (λ x.
          making-IsElsewhere ObjectKind.client x.username
            (client_changes (find_client current x.username) x) (h Action.create x.username refl)
            (h Action.update x.username refl)
            (client_changes-IsMaking (find_client current x.username) x)))

    pub run-membership_phase :
        ((n : Bytes) → e.concerns (aim_at Action.update ObjectKind.group n) ≡ false)
        → (b : Bool) → run e (membership_phase current desired) b ≡ b
    unfolding membership_phase
    run-membership_phase h b = run-IsElsewhere e _ b (
        All-flat_map (IsElsewhere e) _ desired.groups (λ g.
          let o = find_group current g.group_name in
          changes-IsElsewhere Action.update ObjectKind.group g.group_name
            (membership_changes (is_deleted current desired) o g) (h g.group_name)
            (membership-IsUpdate (is_deleted current desired) o g)))

    pub run-delete_clients :
        ((n : Bytes) → e.concerns (aim_at Action.delete ObjectKind.client n) ≡ false)
        → (b : Bool) → run e (delete_clients current desired) b ≡ b
    unfolding delete_clients
    run-delete_clients h b = run-IsElsewhere e _ b (
        All-flat_map (IsElsewhere e) _ current.clients (λ x.
          let found = is_found (find_client desired x.username) in
          changes-IsElsewhere Action.delete ObjectKind.client x.username
            (delete_unless found ObjectKind.client x.username (Command.delete_client x.username))
            (h x.username)
            (delete_unless-IsChange found ObjectKind.client x.username
              (Command.delete_client x.username) refl)))

    pub run-delete_groups :
        ((n : Bytes) → e.concerns (aim_at Action.delete ObjectKind.group n) ≡ false)
        → (b : Bool) → run e (delete_groups current desired) b ≡ b
    unfolding delete_groups
    run-delete_groups h b = run-IsElsewhere e _ b (
        All-flat_map (IsElsewhere e) _ current.groups (λ x.
          let found = is_found (find_group desired x.group_name) in
          changes-IsElsewhere Action.delete ObjectKind.group x.group_name
            (delete_unless found ObjectKind.group x.group_name (Command.delete_group x.group_name))
            (h x.group_name)
            (delete_unless-IsChange found ObjectKind.group x.group_name
              (Command.delete_group x.group_name) refl)))

    pub run-delete_roles :
        ((n : Bytes) → e.concerns (aim_at Action.delete ObjectKind.role n) ≡ false)
        → (b : Bool) → run e (delete_roles current desired) b ≡ b
    unfolding delete_roles
    run-delete_roles h b = run-IsElsewhere e _ b (
        All-flat_map (IsElsewhere e) _ current.roles (λ x.
          let found = is_found (find_role desired x.role_name) in
          changes-IsElsewhere Action.delete ObjectKind.role x.role_name
            (delete_unless found ObjectKind.role x.role_name (Command.delete_role x.role_name))
            (h x.role_name)
            (delete_unless-IsChange found ObjectKind.role x.role_name
              (Command.delete_role x.role_name) refl)))

    pub run-settings_phase :
        e.concerns (aim_at Action.update ObjectKind.default_access (codes "default_access")) ≡ false
        → e.concerns (aim_at Action.update ObjectKind.anonymous_group (codes "anonymous_group"))
          ≡ false
        → (b : Bool) → run e (settings_phase current desired) b ≡ b
    unfolding settings_phase
    run-settings_phase h h' b =
        let access = not (same_default current.default_access desired.default_access) in
        let anonymous = not (text_eq current.anonymous_group desired.anonymous_group) in
        let set_access = Command.set_default_acl_access (default_acls desired.default_access) in
        let set_group = Command.set_anonymous_group desired.anonymous_group in
        run-append e
          (update_if access ObjectKind.default_access (codes "default_access") set_access)
          (update_if anonymous ObjectKind.anonymous_group (codes "anonymous_group") set_group) b
        ∙ run-IsElsewhere e _ _ (
            changes-IsElsewhere Action.update ObjectKind.anonymous_group (codes "anonymous_group")
              (update_if anonymous ObjectKind.anonymous_group (codes "anonymous_group") set_group)
              h'
              (update_if-IsUpdate anonymous ObjectKind.anonymous_group (codes "anonymous_group")
                set_group refl))
        ∙ run-IsElsewhere e _ b (
            changes-IsElsewhere Action.update ObjectKind.default_access (codes "default_access")
              (update_if access ObjectKind.default_access (codes "default_access") set_access) h
              (update_if-IsUpdate access ObjectKind.default_access (codes "default_access")
                set_access refl))

    -- The plan is its phases, one after the other.
    pub run-build_plan :
        (b : Bool)
        → run e (build_plan current desired) b
          ≡ run e (settings_phase current desired) (
              run e (delete_roles current desired) (
                run e (delete_groups current desired) (
                  run e (delete_clients current desired) (
                    run e (membership_phase current desired) (
                      run e (client_phase current desired) (
                        run e
                          (group_phase current desired)
                          (run e (role_phase current desired) b)))))))
    unfolding build_plan
    run-build_plan b =
        run-append e (role_phase current desired) _ b
        ∙ run-append e (group_phase current desired) _ _
        ∙ run-append e (client_phase current desired) _ _
        ∙ run-append e (membership_phase current desired) _ _
        ∙ run-append e (delete_clients current desired) _ _
        ∙ run-append e (delete_groups current desired) _ _
        ∙ run-append e (delete_roles current desired) (settings_phase current desired) _
