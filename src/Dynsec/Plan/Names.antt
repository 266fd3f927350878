-- ===== src/Dynsec/Plan/Names.antt =====
-- internal/dynsec/plan.go: after a plan the database has the clients, groups and roles wanted.
use mcm.Base.{true, some, ◌≡◌, refl, ap, ◌∙◌, if◌then◌else◌}
use mcm.Text.{Bytes}
use mcm.Dynsec.Model.{Role, Client, Group, Document, find_role, find_group, find_client, is_found}
use mcm.Dynsec.Command.{Command}
use mcm.Dynsec.Updates.{Action, ObjectKind}
use mcm.Dynsec.Plan.{
  client_changes, group_changes, role_changes, client_phase, group_phase, role_phase,
  delete_clients, delete_groups, delete_roles, build_plan,
}
use mcm.Dynsec.Plan.Aimed.{
  client_changes-IsMaking, client_updates-IsUpdate, group_updates-IsUpdate, role_updates-IsUpdate,
  group_changes-IsMaking, role_changes-IsMaking,
}
use mcm.Dynsec.Plan.Phases.{
  changes-IsElsewhere, making-IsElsewhere, run-role_phase, run-group_phase, run-client_phase,
  run-membership_phase, run-delete_clients, run-delete_groups, run-delete_roles, run-settings_phase,
  run-build_plan,
}
use mcm.Dynsec.Effect.{client_effect, group_effect, role_effect}
use mcm.Dynsec.Reconcile.{run-make_found, run-delete, settled}
use mcm.Dynsec.Run.{run, IsDistinct, run-IsElsewhere}

module _ (current desired : Document) (u : Bytes) where
  pub client_effect-build_plan :
      IsDistinct (λ x. x.username) desired.clients
      → run (client_effect u) (build_plan current desired) (is_found (find_client current u))
        ≡ is_found (find_client desired u)
  unfolding client_effect client_phase delete_clients
  client_effect-build_plan d =
      let e = client_effect u in
      let b = is_found (find_client current u) in
      let name = λ (x : Client). x.username in
      let made : run e (client_phase current desired) b
          ≡ (if is_found (find_client desired u) then true else b) =
        run-make_found name e u current.clients desired.clients client_changes
          (λ o x t.
            making-IsElsewhere e ObjectKind.client x.username (client_changes o x) (simp t refl)
              refl (client_changes-IsMaking o x))
          d (λ x t. unfold run in rw t refl)
          (λ old x. run-IsElsewhere e (client_changes (some old) x) true (
            changes-IsElsewhere e Action.update ObjectKind.client x.username _ refl
              (client_updates-IsUpdate old x))) in
      run-build_plan e current desired b
      ∙ run-settings_phase e current desired refl refl _
      ∙ run-delete_roles e current desired (λ n. refl) _
      ∙ run-delete_groups e current desired (λ n. refl) _
      ∙ run-delete name e u current.clients desired.clients ObjectKind.client Command.delete_client
          _ (λ n. refl) (λ n t. simp t refl) (λ n b t. rw t refl)
      ∙ settled b (is_found (find_client desired u)) _ (
          run-membership_phase e current desired (λ n. refl) _
          ∙ ap (run e (client_phase current desired)) (
              run-group_phase e current desired (λ a n h. refl) _
              ∙ run-role_phase e current desired (λ a n h. refl) b)
          ∙ made)

  pub group_effect-build_plan :
      IsDistinct (λ x. x.group_name) desired.groups
      → run (group_effect u) (build_plan current desired) (is_found (find_group current u))
        ≡ is_found (find_group desired u)
  unfolding group_effect group_phase delete_groups
  group_effect-build_plan d =
      let e = group_effect u in
      let b = is_found (find_group current u) in
      let name = λ (x : Group). x.group_name in
      let made : run e (group_phase current desired) b
          ≡ (if is_found (find_group desired u) then true else b) =
        run-make_found name e u current.groups desired.groups group_changes
          (λ o x t.
            making-IsElsewhere e ObjectKind.group x.group_name (group_changes o x) (simp t refl)
              refl (group_changes-IsMaking o x))
          d (λ x t. unfold run in rw t refl)
          (λ old x. run-IsElsewhere e (group_changes (some old) x) true (
            changes-IsElsewhere e Action.update ObjectKind.group x.group_name _ refl
              (group_updates-IsUpdate old x))) in
      run-build_plan e current desired b
      ∙ run-settings_phase e current desired refl refl _
      ∙ run-delete_roles e current desired (λ n. refl) _
      ∙ run-delete name e u current.groups desired.groups ObjectKind.group Command.delete_group _
          (λ n. refl) (λ n t. simp t refl) (λ n b t. rw t refl)
      ∙ settled b (is_found (find_group desired u)) _ (
          run-delete_clients e current desired (λ n. refl) _
          ∙ run-membership_phase e current desired (λ n. refl) _
          ∙ run-client_phase e current desired (λ a n h. refl) _
          ∙ ap (run e (group_phase current desired))
              (run-role_phase e current desired (λ a n h. refl) b)
          ∙ made)

  pub role_effect-build_plan :
      IsDistinct (λ x. x.role_name) desired.roles
      → run (role_effect u) (build_plan current desired) (is_found (find_role current u))
        ≡ is_found (find_role desired u)
  unfolding role_effect role_phase delete_roles
  role_effect-build_plan d =
      let e = role_effect u in
      let b = is_found (find_role current u) in
      let name = λ (x : Role). x.role_name in
      let made : run e (role_phase current desired) b
          ≡ (if is_found (find_role desired u) then true else b) =
        run-make_found name e u current.roles desired.roles role_changes
          (λ o x t.
            making-IsElsewhere e ObjectKind.role x.role_name (role_changes o x) (simp t refl) refl
              (role_changes-IsMaking o x))
          d (λ x t. unfold run in rw t refl)
          (λ old x. run-IsElsewhere e (role_changes (some old) x) true (
            changes-IsElsewhere e Action.update ObjectKind.role x.role_name _ refl
              (role_updates-IsUpdate old x))) in
      run-build_plan e current desired b
      ∙ run-settings_phase e current desired refl refl _
      ∙ run-delete name e u current.roles desired.roles ObjectKind.role Command.delete_role _
          (λ n. refl) (λ n t. simp t refl) (λ n b t. rw t refl)
      ∙ settled b (is_found (find_role desired u)) _ (
          run-delete_groups e current desired (λ n. refl) _
          ∙ run-delete_clients e current desired (λ n. refl) _
          ∙ run-membership_phase e current desired (λ n. refl) _
          ∙ run-client_phase e current desired (λ a n h. refl) _
          ∙ run-group_phase e current desired (λ a n h. refl) _
          ∙ made)
