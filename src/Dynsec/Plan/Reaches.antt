-- ===== src/Dynsec/Plan/Reaches.antt =====
-- internal/dynsec/plan.go: after a plan the clients and groups have the roles wanted, also where roles
-- and objects are deleted.
use mcm.Base.{
  Bool, true, false, not, ◌&&◌, ◌||◌, Option, none, some, ◌≡◌, refl, ap, ◌∙◌, if◌then◌else◌,
}
use mcm.Text.{Bytes, text_eq_iff}
use mcm.Dynsec.Model.{Client, Group, Document, find_role, find_group, find_client, is_found}
use mcm.Dynsec.Command.{Command}
use mcm.Dynsec.Updates.{
  ObjectKind, group_membership_updates, has_role, has_client, join_changes, leave_changes,
  join_command,
}
use mcm.Dynsec.Plan.{
  client_changes, group_changes, client_phase, group_phase, delete_clients, delete_groups,
  delete_roles, build_plan, membership_phase, membership_changes, is_deleted, join_new,
}
use mcm.Dynsec.Plan.Aimed.{client_changes-IsMaking, group_changes-IsMaking}
use mcm.Dynsec.Plan.Phases.{
  making-IsElsewhere, run-role_phase, run-group_phase, run-client_phase, run-membership_phase,
  run-delete_clients, run-delete_groups, run-settings_phase, run-build_plan,
}
use mcm.Dynsec.Plan.Grants.{
  client_has, group_has, role_refs-has_role, run-client_updates, run-group_updates, run-each_idle,
  run-idle,
}
use mcm.Dynsec.Effect.{client_role_effect, group_role_effect}
use mcm.Dynsec.Reconcile.{run-make, run-delete, find_by_name}
use mcm.Dynsec.Run.{run, run-append, IsDistinct, on_found}

-- A role that is wanted is not deleted.
stays :
    (now kept wanted : Bool)
    → (wanted ≡ true → kept ≡ true)
    → (if now && not kept then false else wanted) ≡ wanted
stays true true wanted h = refl
stays true false true h = h refl
stays true false false h = refl
stays false kept wanted h = refl

module _ (current desired : Document) (u r : Bytes) where
  client_phase-grants :
      IsDistinct (λ x. x.username) desired.clients
      → run (client_role_effect u r) (client_phase current desired) (client_has current u r)
        ≡ on_found (find_client desired u) (client_has current u r) (λ x. has_role x.roles r)
  unfolding client_phase client_role_effect
  client_phase-grants d =
      run-make (λ x. x.username) (client_role_effect u r) u current.clients desired.clients
        client_changes _
        (λ o x t.
          making-IsElsewhere (client_role_effect u r) ObjectKind.client x.username
            (client_changes o x) (simp t refl) (simp t refl) (client_changes-IsMaking o x))
        d
      ∙ granted (find_client desired u) (find_client current u) refl
    where
      granted :
          (o p : Option Client)
          → find_client desired u ≡ o
          → on_found o (on_found p false (λ x. has_role x.roles r)) (λ x.
            run
              (client_role_effect u r)
              (client_changes p x)
              (on_found p false (λ y. has_role y.roles r)))
            ≡ on_found o (on_found p false (λ x. has_role x.roles r)) (λ x. has_role x.roles r)
      granted none p h = refl
      granted (some x) none h =
          unfold run in
          rw (find_by_name (λ (y : Client). y.username) u desired.clients h)
            (role_refs-has_role x.roles r)
      granted (some x) (some old) h =
          rw
            (← (text_eq_iff x.username u).0
              (find_by_name (λ (y : Client). y.username) u desired.clients h))
            (run-client_updates old x r)

  -- After the plan the client `u` has the role `r` exactly when it is wanted.
  pub client_role_effect-build_plan :
      IsDistinct (λ x. x.username) desired.clients
      → (client_has desired u r ≡ true → is_found (find_role desired r) ≡ true)
      → run (client_role_effect u r) (build_plan current desired) (client_has current u r)
        ≡ client_has desired u r
  unfolding client_role_effect delete_clients delete_roles
  client_role_effect-build_plan d closed =
      let e = client_role_effect u r in
      let b = client_has current u r in
      run-build_plan e current desired b
      ∙ run-settings_phase e current desired refl refl _
      ∙ run-delete (λ x. x.role_name) e r current.roles desired.roles ObjectKind.role
          Command.delete_role _ (λ n. refl) (λ n t. simp t refl) (λ n b t. rw t refl)
      ∙ ap
          (λ (t : Bool).
            if is_found (find_role current r) && not (is_found (find_role desired r))
            then false
            else t)
          (run-delete_groups e current desired (λ n. refl) _
            ∙ run-delete (λ x. x.username) e u current.clients desired.clients ObjectKind.client
                Command.delete_client _ (λ n. refl) (λ n t. simp t refl) (λ n b t. rw t refl)
            ∙ ap
                (λ (t : Bool).
                  if is_found (find_client current u) && not (is_found (find_client desired u))
                  then false
                  else t)
                (run-membership_phase e current desired (λ n. refl) _
                  ∙ ap (run e (client_phase current desired)) (
                      run-group_phase e current desired (λ a n h. refl) _
                      ∙ run-role_phase e current desired (λ a n h. simp h refl) b)
                  ∙ client_phase-grants d)
            ∙ gone (find_client current u) (find_client desired u))
      ∙ stays (is_found (find_role current r)) (is_found (find_role desired r))
          (client_has desired u r) closed
    where
      gone :
          (p o : Option Client)
          → (if is_found p && not (is_found o)
              then false
              else on_found o
                  (on_found p false (λ x. has_role x.roles r))
                  (λ x. has_role x.roles r))
            ≡ on_found o false (λ x. has_role x.roles r)
      gone none none = refl
      gone none (some x) = refl
      gone (some old) none = refl
      gone (some old) (some x) = refl

  group_phase-grants :
      IsDistinct (λ x. x.group_name) desired.groups
      → run (group_role_effect u r) (group_phase current desired) (group_has current u r)
        ≡ on_found (find_group desired u) (group_has current u r) (λ x. has_role x.roles r)
  unfolding group_phase group_role_effect
  group_phase-grants d =
      run-make (λ x. x.group_name) (group_role_effect u r) u current.groups desired.groups
        group_changes _
        (λ o x t.
          making-IsElsewhere (group_role_effect u r) ObjectKind.group x.group_name
            (group_changes o x) (simp t refl) (simp t refl) (group_changes-IsMaking o x))
        d
      ∙ granted (find_group desired u) (find_group current u) refl
    where
      granted :
          (o p : Option Group)
          → find_group desired u ≡ o
          → on_found o (on_found p false (λ x. has_role x.roles r)) (λ x.
            run
              (group_role_effect u r)
              (group_changes p x)
              (on_found p false (λ y. has_role y.roles r)))
            ≡ on_found o (on_found p false (λ x. has_role x.roles r)) (λ x. has_role x.roles r)
      granted none p h = refl
      granted (some x) none h =
          unfold run in
          rw (find_by_name (λ (y : Group). y.group_name) u desired.groups h)
            (role_refs-has_role x.roles r)
      granted (some x) (some old) h =
          rw
            (← (text_eq_iff x.group_name u).0
              (find_by_name (λ (y : Group). y.group_name) u desired.groups h))
            (run-group_updates old x r)

  -- The members of the groups leave the groups' roles as they are.
  membership_phase-idle :
      (b : Bool) → run (group_role_effect u r) (membership_phase current desired) b ≡ b
  unfolding membership_phase group_membership_updates group_role_effect join_changes leave_changes
  membership_phase-idle b =
      run-each_idle (group_role_effect u r) _ desired.groups b
        (λ g b. members (find_group current g.group_name) g b)
    where
      members :
          (o : Option Group) (g : Group) (b : Bool)
          → run (group_role_effect u r) (membership_changes (is_deleted current desired) o g) b ≡ b
      members none g b =
          run-each_idle (group_role_effect u r) (join_new g.group_name) g.clients b (λ x b.
            run-idle (group_role_effect u r) r ObjectKind.group g.group_name true
              (join_command g.group_name x) b refl)
      members (some old) g b =
          run-append (group_role_effect u r) (join_changes old g)
            (leave_changes (is_deleted current desired) old g) b
          ∙ run-each_idle (group_role_effect u r) _ old.clients _ (λ x b.
            run-idle (group_role_effect u r) r ObjectKind.group g.group_name
              (not (has_client g.clients x.username || is_deleted current desired x.username))
              (Command.remove_group_client g.group_name x.username) b refl)
          ∙ run-each_idle (group_role_effect u r) _ g.clients _ (λ x b.
            run-idle (group_role_effect u r) r ObjectKind.group g.group_name
              (not (has_client old.clients x.username)) (join_command g.group_name x) b refl)

  -- After the plan the group `u` has the role `r` exactly when it is wanted.
  pub group_role_effect-build_plan :
      IsDistinct (λ x. x.group_name) desired.groups
      → (group_has desired u r ≡ true → is_found (find_role desired r) ≡ true)
      → run (group_role_effect u r) (build_plan current desired) (group_has current u r)
        ≡ group_has desired u r
  unfolding group_role_effect delete_groups delete_roles
  group_role_effect-build_plan d closed =
      let e = group_role_effect u r in
      let b = group_has current u r in
      run-build_plan e current desired b
      ∙ run-settings_phase e current desired refl refl _
      ∙ run-delete (λ x. x.role_name) e r current.roles desired.roles ObjectKind.role
          Command.delete_role _ (λ n. refl) (λ n t. simp t refl) (λ n b t. rw t refl)
      ∙ ap
          (λ (t : Bool).
            if is_found (find_role current r) && not (is_found (find_role desired r))
            then false
            else t)
          (run-delete (λ x. x.group_name) e u current.groups desired.groups ObjectKind.group
              Command.delete_group _ (λ n. refl) (λ n t. simp t refl) (λ n b t. rw t refl)
            ∙ ap
                (λ (t : Bool).
                  if is_found (find_group current u) && not (is_found (find_group desired u))
                  then false
                  else t)
                (run-delete_clients e current desired (λ n. refl) _
                  ∙ membership_phase-idle _
                  ∙ run-client_phase e current desired (λ a n h. refl) _
                  ∙ ap (run e (group_phase current desired))
                      (run-role_phase e current desired (λ a n h. simp h refl) b)
                  ∙ group_phase-grants d)
            ∙ gone (find_group current u) (find_group desired u))
      ∙ stays (is_found (find_role current r)) (is_found (find_role desired r))
          (group_has desired u r) closed
    where
      gone :
          (p o : Option Group)
          → (if is_found p && not (is_found o)
              then false
              else on_found o
                  (on_found p false (λ x. has_role x.roles r))
                  (λ x. has_role x.roles r))
            ≡ on_found o false (λ x. has_role x.roles r)
      gone none none = refl
      gone none (some x) = refl
      gone (some old) none = refl
      gone (some old) (some x) = refl
